-- ===== src/RefCount/Counted.antt =====
-- The count of an object is the number of `Ref` variables that hold it.
use microjit.Prelude.{
  ℕ, zero, suc, ◌+◌, ◌-◌, ◌^◌, ◌<◌, ◌≡◌, ◌≢◌, refl, sym, ◌⊎◌, inl, inr, Option, none, some, arith,
  get_elem?, get_elem?-set, set, length, Option-cases,
}
use mathlib.Core.Path.{subst}
use microjit.Prelude.Dict.{lookup, lookup-insert, lookup-erase}
use microjit.RefCount.{
  Heap, u32, reference, unref, unref_at, unref_count, unref_found, ref_count, or_null, point,
}
use microjit.RefCount.Holders.{holds, holders, holders-le-length, holders-set, holds-le-holders}

-- the count of an object, zero for one that is gone
abbrev or_zero : Option ℕ → ℕ
or_zero none = 0
or_zero (some count) = count

abbrev pub tally : ℕ → Heap → ℕ
tally a h = or_zero (lookup a h.refcounts)

-- Each object is held as often as its count says, by `loose` in addition where that is given; one
-- that is gone is held by nobody, and no object that is there has a count of zero.
pub record IsCountedBut (loose : Option ℕ) (h : Heap) : Type 0 where
  pub counted : (a : ℕ) → tally a h + holds a loose ≡ holders a h.refs
  pub positive : (a : ℕ) → lookup a h.refcounts ≢ some 0

abbrev pub IsCounted : Heap → Type 0
IsCounted h = IsCountedBut none h

-- The counts are for a machine of 32 bits.
abbrev pub IsSmall : Heap → Type 0
IsSmall h = length h.refs + 1 < 2 ^ 32

unref_count-IsCountedBut :
    (h : Heap) (i a n : ℕ)
    → IsCounted h
    → get_elem? h.refs i ≡ some (some a)
    → lookup a h.refcounts ≡ some (suc n)
    → IsCountedBut (reference (unref_count h i a n) i) (unref_count h i a n)
unfolding unref_count reference
unref_count-IsCountedBut h i a zero v at l =
    let gone = get_elem?-set h.refs i i none (some a) at in
    record {
      counted = λ b. ground (
        arith,
        gone,
        v.counted b,
        lookup-erase a b h.refcounts,
        holders-set b h.refs i none (some a) at,
      );
      positive = λ b. ground (arith, lookup-erase a b h.refcounts, v.positive b);
    }
unref_count-IsCountedBut h i a (suc n) v at l = record {
  counted = λ b. ground (arith, at, v.counted b, lookup-insert a b (suc n) h.refcounts);
  positive = λ b. ground (arith, lookup-insert a b (suc n) h.refcounts, v.positive b);
}

pred_u32 : (n : ℕ) → suc n < 2 ^ 32 → u32 (suc n + (2 ^ 32 - 1)) ≡ n
pred_u32 n l = omega arith

unref_found-IsCountedBut :
    (h : Heap) (i a : ℕ) (c : Option ℕ)
    → IsCounted h
    → IsSmall h
    → get_elem? h.refs i ≡ some (some a)
    → lookup a h.refcounts ≡ c
    → IsCountedBut (reference (unref_found h i a c) i) (unref_found h i a c)
unfolding unref_found
unref_found-IsCountedBut h i a none v m at l =
    absurd (ground (arith, v.counted a, holds-le-holders a h.refs i (some a) at))
unref_found-IsCountedBut h i a (some zero) v m at l = absurd (v.positive a l)
unref_found-IsCountedBut h i a (some (suc n)) v m at l =
    let few : suc n < 2 ^ 32 = ground (arith, v.counted a, holders-le-length a h.refs) in
    subst (λ k. IsCountedBut (reference (unref_count h i a k) i) (unref_count h i a k))
      (sym (pred_u32 n few)) (unref_count-IsCountedBut h i a n v at l)

unref_at-IsCountedBut :
    (h : Heap) (i : ℕ) (r : Option ℕ)
    → IsCounted h
    → IsSmall h
    → get_elem? h.refs i ≡ some r
    → IsCountedBut (reference (unref_at h i r) i) (unref_at h i r)
unfolding unref_at reference
unref_at-IsCountedBut h i none v m at = subst (λ r. IsCountedBut (or_null r) h) (sym at) v
unref_at-IsCountedBut h i (some a) v m at =
    unref_found-IsCountedBut h i a (lookup a h.refcounts) v m at refl

-- `unref` takes its own hold away.
pub unref-IsCountedBut :
    (h : Heap) (i : ℕ) (r : Option ℕ)
    → IsCounted h
    → IsSmall h
    → get_elem? h.refs i ≡ some r
    → IsCountedBut (reference (unref h i) i) (unref h i)
unfolding unref reference
unref-IsCountedBut h i r v m at =
    subst (λ q. IsCountedBut (reference (unref_at h i (or_null q)) i) (unref_at h i (or_null q)))
      (sym at) (unref_at-IsCountedBut h i r v m at)

-- the pointers after `unref`
pub unref_at-refs :
    (h : Heap) (i : ℕ) (r : Option ℕ)
    → ((unref_at h i r).refs ≡ h.refs) ⊎ ((unref_at h i r).refs ≡ set h.refs i none)
unfolding unref_at unref_found unref_count
unref_at-refs h i none = inl refl
unref_at-refs h i (some a) = go (lookup a h.refcounts)
  where
    by_count :
        (n : ℕ)
        → ((unref_count h i a n).refs ≡ h.refs) ⊎ ((unref_count h i a n).refs ≡ set h.refs i none)
    by_count zero = inr refl
    by_count (suc n) = inl refl

    go :
        (c : Option ℕ)
        → ((unref_found h i a c).refs ≡ h.refs) ⊎ ((unref_found h i a c).refs ≡ set h.refs i none)
    go none = inl refl
    go (some c) = by_count (u32 (c + (2 ^ 32 - 1)))

-- `Ref` number `i` gives up its hold and takes the one on `r`, which is an object that is there.
pub point-IsCounted :
    (h : Heap) (i : ℕ) (old r : Option ℕ)
    → IsCountedBut (reference h i) h
    → IsSmall h
    → get_elem? h.refs i ≡ some old
    → ((a : ℕ) → r ≡ some a → lookup a h.refcounts ≢ none)
    → IsCounted (point h i r)
unfolding point reference ref_count
point-IsCounted h i old none v m at live = record {
  counted = λ b. ground (arith, at, v.counted b, holders-set b h.refs i none old at);
  positive = v.positive;
}
point-IsCounted h i old (some a) v m at live = elim (Option-cases (lookup a h.refcounts)) [
  | inl l ↦ absurd (live a refl l)
  | inr (zero, l) ↦ absurd (v.positive a l)
  | inr (suc n, l) ↦
      let few : suc n + 1 < 2 ^ 32 = ground (arith, at, v.counted a, holders-le-length a h.refs) in
      let plain : u32 (suc n + 1) ≡ suc (suc n) = omega arith in
      rw (l, plain)
        record {
          counted = λ b. ground (
            arith,
            at,
            v.counted b,
            lookup-insert a b (suc (suc n)) h.refcounts,
            holders-set b h.refs i (some a) old at,
          );
          positive = λ b. ground (arith, lookup-insert a b (suc (suc n)) h.refcounts, v.positive b);
        }
]
