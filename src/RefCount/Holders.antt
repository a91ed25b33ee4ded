-- ===== src/RefCount/Holders.antt =====
-- How many `Ref` variables hold an object.
use microjit.Prelude.{
  ℕ, zero, suc, ◌+◌, ◌≤◌, ◌≡◌, List, [], ◌∷◌, ◌++◌, Option, none, some, ◌==◌, arith, if◌then◌else◌,
  get_elem?, set, length,
}

-- one, if the pointer is `a`
abbrev pub holds : ℕ → Option ℕ → ℕ
holds a none = 0
holds a (some b) = if b == a then 1 else 0

unfoldable pub holders : ℕ → List (Option ℕ) → ℕ
holders a [] = 0
holders a (r ∷ refs) = holds a r + holders a refs

holds-le : (a : ℕ) (r : Option ℕ) → holds a r ≤ 1
holds-le a none = omega arith
holds-le a (some b) = ground arith

pub holders-le-length : (a : ℕ) (refs : List (Option ℕ)) → holders a refs ≤ length refs
unfolding holders
holders-le-length a [] = omega arith
holders-le-length a (r ∷ refs) = omega (arith, holds-le a r, holders-le-length a refs)

pub holders-set :
    (a : ℕ) (refs : List (Option ℕ)) (i : ℕ) (new old : Option ℕ)
    → get_elem? refs i ≡ some old
    → holders a (set refs i new) + holds a old ≡ holders a refs + holds a new
unfolding holders
holders-set a [] i new old e = cc
holders-set a (r ∷ refs) zero new old e = let one : r ≡ old = cc in rw one (omega arith)
holders-set a (r ∷ refs) (suc i) new old e = omega (arith, holders-set a refs i new old e)

pub holders-append :
    (a : ℕ) (refs : List (Option ℕ)) (r : Option ℕ)
    → holders a (refs ++ r ∷ []) ≡ holders a refs + holds a r
unfolding holders
holders-append a [] r = omega arith
holders-append a (s ∷ refs) r = omega (arith, holders-append a refs r)

pub holds-le-holders :
    (a : ℕ) (refs : List (Option ℕ)) (i : ℕ) (r : Option ℕ)
    → get_elem? refs i ≡ some r
    → holds a r ≤ holders a refs
unfolding holders
holds-le-holders a [] i r e = cc
holds-le-holders a (s ∷ refs) zero r e = let one : s ≡ r = cc in rw one (omega arith)
holds-le-holders a (s ∷ refs) (suc i) r e = omega (arith, holds-le-holders a refs i r e)
