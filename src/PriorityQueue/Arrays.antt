-- ===== src/PriorityQueue/Arrays.antt =====
-- The vector under a swap.
use mathlib.Core.List.{Perm}
use mathlib.Core.List.Perm
use microjit.Prelude.{
  ℕ, zero, suc, ◌+◌, ◌<◌, ◌≤◌, ◌≡◌, refl, ap, ◌∙◌, List, [], ◌∷◌, ◌++◌, some, arith, ◌==◌,
  if◌then◌else◌, length, get_elem?, set, take, length-set,
}
use microjit.PriorityQueue.{Node, priority_at, swap}

module _ {ℓ} {T : Type ℓ} where
  pub get_elem?-some :
      (h : List (Node T)) (i : ℕ)
      → i < length h
      → (n : Node T) × (get_elem? h i ≡ some n) × (n.priority ≡ priority_at h i)
  unfolding priority_at
  get_elem?-some [] i lt = absurd (omega arith)
  get_elem?-some (n ∷ h) zero lt = (n, refl, refl)
  get_elem?-some (n ∷ h) (suc i) lt = get_elem?-some h i (omega arith)

  set-perm :
      (h : List (Node T)) (i : ℕ) (new old : Node T)
      → get_elem? h i ≡ some old
      → Perm (new ∷ h) (old ∷ set h i new)
  set-perm [] i new old e = cc
  set-perm (n ∷ h) zero new old e = let same : n ≡ old = cc in rw same (Perm.swap old new h)
  set-perm (n ∷ h) (suc i) new old e =
      Perm.trans (Perm.swap n new h)
        (Perm.trans (Perm.cons n (set-perm h i new old e)) (Perm.swap old n (set h i new)))

  get_elem?-set_any :
      (h : List (Node T)) (i j : ℕ) (x : Node T)
      → get_elem? h j ≡ some x
      → get_elem? (set h i x) j ≡ some x
  get_elem?-set_any [] i j x e = cc
  get_elem?-set_any (n ∷ h) zero zero x e = refl
  get_elem?-set_any (n ∷ h) zero (suc j) x e = e
  get_elem?-set_any (n ∷ h) (suc i) zero x e = e
  get_elem?-set_any (n ∷ h) (suc i) (suc j) x e = get_elem?-set_any h i j x e

  priority_at-set :
      (h : List (Node T)) (i c : ℕ) (x : Node T)
      → i < length h
      → priority_at (set h i x) c ≡ (if i == c then x.priority else priority_at h c)
  unfolding priority_at
  priority_at-set [] i c x lt = absurd (omega arith)
  priority_at-set (n ∷ h) zero zero x lt = refl
  priority_at-set (n ∷ h) zero (suc c) x lt = ground arith
  priority_at-set (n ∷ h) (suc i) zero x lt = ground arith
  priority_at-set (n ∷ h) (suc i) (suc c) x lt = ground (arith, priority_at-set h i c x)

  pub priority_at-append :
      (h g : List (Node T)) (i : ℕ) → i < length h → priority_at (h ++ g) i ≡ priority_at h i
  unfolding priority_at
  priority_at-append [] g i lt = absurd (omega arith)
  priority_at-append (n ∷ h) g zero lt = refl
  priority_at-append (n ∷ h) g (suc i) lt = priority_at-append h g i (omega arith)

  pub priority_at-take :
      (k : ℕ) (h : List (Node T)) (i : ℕ) → i < k → priority_at (take k h) i ≡ priority_at h i
  unfolding priority_at
  priority_at-take zero h i lt = absurd (omega arith)
  priority_at-take (suc k) [] i lt = refl
  priority_at-take (suc k) (n ∷ h) zero lt = refl
  priority_at-take (suc k) (n ∷ h) (suc i) lt = priority_at-take k h i (omega arith)

  pub length-append_one : (h : List (Node T)) (n : Node T) → length (h ++ n ∷ []) ≡ length h + 1
  length-append_one [] n = omega arith
  length-append_one (m ∷ h) n = omega (arith, length-append_one h n)

  -- the last node and the others
  pub take_last-perm :
      (k : ℕ) (h : List (Node T)) (x : Node T)
      → length h ≡ suc k
      → get_elem? h k ≡ some x
      → Perm (x ∷ take k h) h
  take_last-perm k [] x l e = cc
  take_last-perm zero (n ∷ []) x l e = let same : n ≡ x = cc in rw same (Perm.refl (x ∷ []))
  take_last-perm zero (n ∷ m ∷ h) x l e = absurd (omega arith)
  take_last-perm (suc k) (n ∷ h) x l e =
      Perm.trans (Perm.swap n x (take k h)) (Perm.cons n (take_last-perm k h x (omega arith) e))

  pub length-take : (k : ℕ) (h : List (Node T)) → k ≤ length h → length (take k h) ≡ k
  length-take zero h l = refl
  length-take (suc k) [] l = absurd (omega arith)
  length-take (suc k) (n ∷ h) l = ap suc (length-take k h (omega arith))

  -- `h` with the nodes at `i` and `j` exchanged
  module _ (h : List (Node T)) (i j : ℕ) (hi : i < length h) (hj : j < length h) where
    swap_sets :
        (left right : Node T)
        → get_elem? h i ≡ some left
        → get_elem? h j ≡ some right
        → swap h i j ≡ set (set h i right) j left
    unfolding swap
    swap_sets left right el er = rw (el, er, swap) refl

    pub length-swap : length (swap h i j) ≡ length h
    length-swap =
        let (l, el, pl) = get_elem?-some h i hi in
        let (r, er, pr) = get_elem?-some h j hj in
        rw (swap_sets l r el er) (length-set (set h i r) j l ∙ length-set h i r)

    pub priority_at-swap :
        (c : ℕ)
        → priority_at (swap h i j) c ≡ (
            if j == c then priority_at h i else if i == c then priority_at h j else priority_at h c)
    priority_at-swap c =
        let (l, el, pl) = get_elem?-some h i hi in
        let (r, er, pr) = get_elem?-some h j hj in
        rw (swap_sets l r el er) (
          ground
            (arith, length-set h i r, priority_at-set (set h i r) j c l, priority_at-set h i c r))

    pub swap-perm : Perm (swap h i j) h
    swap-perm =
        let (l, el, pl) = get_elem?-some h i hi in
        let (r, er, pr) = get_elem?-some h j hj in
        rw (swap_sets l r el er) (
          Perm.symm (
            Perm.cons_inv (
              Perm.trans (set-perm h i r l el)
                (set-perm (set h i r) j l r (get_elem?-set_any h i j r er)))))

    -- after the exchange the node of `i` stands at `j`
    pub get_elem?-swap : (x : Node T) → get_elem? h i ≡ some x → get_elem? (swap h i j) j ≡ some x
    get_elem?-swap x e =
        let (r, er, pr) = get_elem?-some h j hj in
        rw (swap_sets x r e er) (written (set h i r) j x (omega (arith, length-set h i r)))
      where
        written :
            (g : List (Node T)) (k : ℕ) (y : Node T)
            → k < length g
            → get_elem? (set g k y) k ≡ some y
        written [] k y lt = absurd (omega arith)
        written (n ∷ g) zero y lt = refl
        written (n ∷ g) (suc k) y lt = written g k y (omega arith)
