-- ===== src/PriorityQueue/Order.antt =====
-- The heap order.
use microjit.Prelude.{
  ℕ, zero, suc, ◌+◌, ◌-◌, ◌*◌, ◌/◌, ◌≤◌, ◌<◌, ◌≡◌, ◌≢◌, ◌⊎◌, inl, inr, Bool, ◌&&◌, List, arith,
  length, ltb, Bool-cases,
}
use microjit.PriorityQueue.{Node, priority_at, largest_of}

abbrev pub parent : ℕ → ℕ
parent c = (c - 1) / 2

module _ {ℓ} {T : Type ℓ} where
  -- No node has a lower priority value than its parent.
  abbrev pub IsHeap : List (Node T) → Type 0
  IsHeap h = (c : ℕ) → 0 < c → c < length h → priority_at h (parent c) ≤ priority_at h c

  -- The children of `i` are not below the parent of `i`.
  abbrev IsBridged : List (Node T) → ℕ → Type 0
  IsBridged h i =
      (c : ℕ)
      → 0 < c
      → c < length h
      → parent c ≡ i
      → 0 < i
      → priority_at h (parent i) ≤ priority_at h c

  -- a heap but for the edge above `i`
  pub record UpInv (h : List (Node T)) (i : ℕ) : Type 0 where
    pub inside : i < length h
    pub edges : (c : ℕ) → 0 < c → c < length h → c ≢ i → priority_at h (parent c) ≤ priority_at h c
    pub bridged : IsBridged h i

  -- a heap but for the edges below `i`
  pub record DownInv (h : List (Node T)) (i : ℕ) : Type 0 where
    pub edges :
        (c : ℕ) → 0 < c → c < length h → parent c ≢ i → priority_at h (parent c) ≤ priority_at h c
    pub bridged : IsBridged h i

  -- the children of `i` have no lower priority value than `k`
  abbrev pub Least : List (Node T) → ℕ → ℕ → Type 0
  Least h i k = (c : ℕ) → 0 < c → c < length h → parent c ≡ i → priority_at h k ≤ priority_at h c

  Least-children :
      (h : List (Node T)) (i k : ℕ)
      → (2 * i + 1 < length h → priority_at h k ≤ priority_at h (2 * i + 1))
      → (2 * i + 2 < length h → priority_at h k ≤ priority_at h (2 * i + 2))
      → Least h i k
  Least-children h i k left right c p l e =
      let side : (c ≡ 2 * i + 1) ⊎ (c ≡ 2 * i + 2) = omega arith in ground (arith, left, right)

  -- the test by which `heapify_down` prefers the child at `c` to the node at `i`
  abbrev child_below : List (Node T) → ℕ → ℕ → Bool
  child_below h c i = ltb c (length h) && ltb (priority_at h c) (priority_at h i)

  pub largest_of_cases :
      (h : List (Node T)) (i : ℕ)
      → let k = largest_of h i in
        ((k ≡ i) × Least h i i)
        ⊎ ((parent k ≡ i)
            × (i < k)
            × (k < length h)
            × (priority_at h k < priority_at h i)
            × Least h i k)
  unfolding largest_of
  largest_of_cases h i = elim (Bool-cases (child_below h (2 * i + 1) i)) [
    | inl one ↦ elim (Bool-cases (child_below h (2 * i + 2) (2 * i + 1))) [
      | inl two ↦ inr (
        ground arith,
        ground arith,
        ground arith,
        ground arith,
        Least-children h i _ (ground arith) (ground arith),
      )
      | inr two ↦ inr (
        ground arith,
        ground arith,
        ground arith,
        ground arith,
        Least-children h i _ (ground arith) (ground arith),
      )
    ]
    | inr one ↦ elim (Bool-cases (child_below h (2 * i + 2) i)) [
      | inl two ↦ inr (
        ground arith,
        ground arith,
        ground arith,
        ground arith,
        Least-children h i _ (ground arith) (ground arith),
      )
      | inr two ↦ inl (ground arith, Least-children h i _ (ground arith) (ground arith))
    ]
  ]

  root_least_below :
      (k : ℕ) (h : List (Node T)) (i : ℕ)
      → IsHeap h
      → i < k
      → i < length h
      → priority_at h 0 ≤ priority_at h i
  root_least_below zero h i o lt l = absurd (omega arith)
  root_least_below (suc k) h zero o lt l = omega arith
  root_least_below (suc k) h (suc i) o lt l = omega (
    arith,
    o (suc i) (omega arith) l,
    root_least_below k h (parent (suc i)) o (omega arith) (omega arith),
  )

  -- the root of a heap has the lowest priority value
  pub root_least :
      (h : List (Node T)) (i : ℕ) → IsHeap h → i < length h → priority_at h 0 ≤ priority_at h i
  root_least h i o l = root_least_below (suc i) h i o (omega arith) l
