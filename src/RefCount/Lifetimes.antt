-- ===== src/RefCount/Lifetimes.antt =====
-- No operation on `Ref` variables deletes an object that is held, or leaves one that is not.
use microjit.Prelude.{
  ℕ, ◌≡◌, ◌≢◌, refl, sym, ap, ◌∙◌, ◌⊎◌, inl, inr, Bool, true, false, Option, none, some, arith,
  get_elem?, get_elem?-set, set, length, length-set,
}
use native.Mathlib.Decide.{ℕ_discrete}
use microjit.Prelude.Dict.{lookup, lookup-insert}
use microjit.RefCount.{
  Heap, reference, or_null, unref, point, same, ref, ref_unless, clear, make_ref, null,
}
use microjit.RefCount.Holders.{holders-append, holds-le-holders}
use microjit.RefCount.Counted.{
  IsCountedBut, IsCounted, IsSmall, unref-IsCountedBut, unref_at-refs, point-IsCounted,
}

same_refl : (r : Option ℕ) → same r r ≡ true
same_refl none = refl
same_refl (some a) = ground arith

unref-refs :
    (h : Heap) (i : ℕ) → ((unref h i).refs ≡ h.refs) ⊎ ((unref h i).refs ≡ set h.refs i none)
unfolding unref
unref-refs h i = unref_at-refs h i (reference h i)

unref-IsSmall : (h : Heap) (i : ℕ) → IsSmall h → IsSmall (unref h i)
unref-IsSmall h i m = elim (unref-refs h i) [
  | inl e ↦ omega (arith, m, ap length e)
  | inr e ↦ omega (arith, m, ap length e, length-set h.refs i none)
]

-- after `unref` the pointer is what it was, or null; every other pointer is what it was
unref-own :
    (h : Heap) (i : ℕ) (p : Option ℕ)
    → get_elem? h.refs i ≡ some p
    → (get_elem? (unref h i).refs i ≡ some p) ⊎ (get_elem? (unref h i).refs i ≡ some none)
unref-own h i p at = elim (unref-refs h i) [
  | inl e ↦ inl (ap (λ xs. get_elem? xs i) e ∙ at)
  | inr e ↦ inr (ap (λ xs. get_elem? xs i) e ∙ ground (arith, get_elem?-set h.refs i i none p at))
]

unref-other :
    (h : Heap) (i j : ℕ) (p : Option ℕ)
    → get_elem? h.refs i ≡ some p
    → i ≢ j
    → get_elem? (unref h i).refs j ≡ get_elem? h.refs j
unref-other h i j p at apart = elim (unref-refs h i) [
  | inl e ↦ ap (λ xs. get_elem? xs j) e
  | inr e ↦ ap (λ xs. get_elem? xs j) e ∙ ground (arith, get_elem?-set h.refs i j none p at)
]

-- an object that another `Ref` holds is there after `unref`
live_after :
    (h : Heap) (i j a : ℕ) (p : Option ℕ)
    → IsCountedBut (reference h i) h
    → get_elem? h.refs i ≡ some p
    → p ≢ some a
    → get_elem? h.refs j ≡ some (some a)
    → lookup a h.refcounts ≢ none
unfolding reference
live_after h i j a none v at other held gone =
    ground (arith, v.counted a, holds-le-holders a h.refs j (some a) held)
live_after h i j a (some b) v at other held gone = elim (ℕ_discrete b a) [
  | yes e ↦ absurd (other (ap some e))
  | no apart ↦ ground (arith, v.counted a, holds-le-holders a h.refs j (some a) held)
]

-- the pointer that `ref` takes is of an object that is there
taken_live :
    (h : Heap) (i j : ℕ) (p q : Option ℕ)
    → IsCounted h
    → IsSmall h
    → get_elem? h.refs i ≡ some p
    → get_elem? h.refs j ≡ some q
    → p ≢ q
    → (a : ℕ) → reference (unref h i) j ≡ some a
    → lookup a (unref h i).refcounts ≢ none
unfolding reference
taken_live h i j p q v m at held apart a e =
    let other : i ≢ j = λ n. apart (ground (arith, at, held)) in
    let same_q = unref-other h i j p at other in
    let is_q : q ≡ some a = sym (ap or_null (same_q ∙ held)) ∙ e in
    let held' : get_elem? (unref h i).refs j ≡ some (some a) = same_q ∙ held ∙ ap some is_q in
    let v' = unref-IsCountedBut h i p v m at in
    elim (unref-own h i p at) [
      | inl o ↦ live_after (unref h i) i j a p v' o (λ n. apart (n ∙ sym is_q)) held'
      | inr o ↦ live_after (unref h i) i j a none v' o (λ n. cc) held'
    ]

ref_unless-IsCounted :
    (t : Bool) (h : Heap) (i j : ℕ) (p q : Option ℕ)
    → IsCounted h
    → IsSmall h
    → get_elem? h.refs i ≡ some p
    → get_elem? h.refs j ≡ some q
    → same q p ≡ t
    → IsCounted (ref_unless t h i j)
unfolding ref_unless
ref_unless-IsCounted true h i j p q v m at held e = v
ref_unless-IsCounted false h i j p q v m at held e =
    let apart : p ≢ q = λ n. ground (arith, same_refl q, ap (same q) n, e) in
    let live = taken_live h i j p q v m at held apart in
    elim (unref-own h i p at) [
      | inl o ↦
          point-IsCounted (unref h i) i p (reference (unref h i) j)
            (unref-IsCountedBut h i p v m at) (unref-IsSmall h i m) o live
      | inr o ↦
          point-IsCounted (unref h i) i none (reference (unref h i) j)
            (unref-IsCountedBut h i p v m at) (unref-IsSmall h i m) o live
    ]

pub ref-IsCounted :
    (h : Heap) (i j : ℕ) (p q : Option ℕ)
    → IsCounted h
    → IsSmall h
    → get_elem? h.refs i ≡ some p
    → get_elem? h.refs j ≡ some q
    → IsCounted (ref h i j)
unfolding ref reference
ref-IsCounted h i j p q v m at held =
    ref_unless-IsCounted (same (reference h j) (reference h i)) h i j p q v m at held (
      ground (
        arith,
        at,
        held,
        ap (λ x. same (or_null x) p) held,
        ap (λ x. same (or_null (get_elem? h.refs j)) (or_null x)) at,
      ))

pub clear-IsCounted :
    (h : Heap) (i : ℕ) (p : Option ℕ)
    → IsCounted h
    → IsSmall h
    → get_elem? h.refs i ≡ some p
    → IsCounted (clear h i)
unfolding clear point
clear-IsCounted h i p v m at = elim (unref-own h i p at) [
  | inl e ↦
      point-IsCounted (unref h i) i p none (unref-IsCountedBut h i p v m at) (unref-IsSmall h i m) e
        λ a n. cc
  | inr e ↦
      point-IsCounted (unref h i) i none none (unref-IsCountedBut h i p v m at)
        (unref-IsSmall h i m) e λ a n. cc
]

pub make_ref-IsCounted :
    (h : Heap) (a : ℕ) → IsCounted h → lookup a h.refcounts ≡ none → IsCounted (make_ref h a)
unfolding make_ref
make_ref-IsCounted h a v fresh = record {
  counted = λ b. ground (
    arith,
    v.counted b,
    fresh,
    lookup-insert a b 1 h.refcounts,
    holders-append b h.refs (some a),
  );
  positive = λ b. ground (arith, lookup-insert a b 1 h.refcounts, v.positive b);
}

pub null-IsCounted : (h : Heap) → IsCounted h → IsCounted (null h)
unfolding null
null-IsCounted h v = record {
  counted = λ b. ground (arith, v.counted b, holders-append b h.refs none);
  positive = v.positive;
}
