-- ===== src/RefCount/Histories.antt =====
-- What holds of the counts after any history of `Ref` variables.
use microjit.Prelude.{
  ℕ, ◌≡◌, List, [], ◌∷◌, Option, none, some, arith, get_elem?, get_elem?-append_one, get_elem?-lt,
  length,
}
use microjit.Prelude.Dict.{lookup}
use microjit.RefCount.{
  Heap, Operation, new_object, declare_null, copy_from, assign, destroy, perform, perform_all, null,
  copy,
}
use microjit.RefCount.Counted.{IsCounted, IsSmall}
use microjit.RefCount.Lifetimes.{ref-IsCounted, clear-IsCounted, make_ref-IsCounted, null-IsCounted}

-- There is a `Ref` number `i`.
abbrev pub Exists : Heap → ℕ → Type 0
Exists h i = (r : Option ℕ) × (get_elem? h.refs i ≡ some r)

-- The operation is on `Ref` variables that exist, `new` gives the address of no living object, and
-- there are fewer than 2 ^ 32 variables.
abbrev pub IsLegal : Heap → Operation → Type 0
IsLegal h (new_object a) = lookup a h.refcounts ≡ none
IsLegal h declare_null = Unit
IsLegal h (copy_from from) = IsSmall (null h) × Exists h from
IsLegal h (assign i from) = IsSmall h × Exists h i × Exists h from
IsLegal h (destroy i) = IsSmall h × Exists h i

abbrev pub AllLegal : Heap → List Operation → Type 0
AllLegal h [] = Unit
AllLegal h (op ∷ rest) = IsLegal h op × AllLegal (perform h op) rest

copy-IsCounted :
    (h : Heap) (from : ℕ) → IsCounted h → IsSmall (null h) → Exists h from → IsCounted (copy h from)
unfolding copy null
copy-IsCounted h from v m (r, at) =
    let range = get_elem?-lt h.refs from r at in
    ref-IsCounted (null h) (length h.refs) from none r (null-IsCounted h v) m
      (ground (arith, get_elem?-append_one h.refs none (length h.refs)))
      (ground (arith, get_elem?-append_one h.refs none from))

perform-IsCounted :
    (h : Heap) (op : Operation) → IsCounted h → IsLegal h op → IsCounted (perform h op)
unfolding perform
perform-IsCounted h (new_object a) v fresh = make_ref-IsCounted h a v fresh
perform-IsCounted h declare_null v l = null-IsCounted h v
perform-IsCounted h (copy_from from) v l = copy-IsCounted h from v l.0 l.1
perform-IsCounted h (assign i from) v l = ref-IsCounted h i from l.1.0 l.2.0 v l.0 l.1.1 l.2.1
perform-IsCounted h (destroy i) v l = clear-IsCounted h i l.1.0 v l.0 l.1.1

-- After any legal history of `Ref` variables, from a state where it holds, every living object has a
-- count that is positive and equal to the number of `Ref` variables that hold it, and no `Ref` holds
-- an object that has been deleted.
pub perform_all-IsCounted :
    (ops : List Operation) (h : Heap) → IsCounted h → AllLegal h ops → IsCounted (perform_all h ops)
unfolding perform_all
perform_all-IsCounted [] h v l = v
perform_all-IsCounted (op ∷ rest) h v l =
    perform_all-IsCounted rest (perform h op) (perform-IsCounted h op v l.0) l.1
