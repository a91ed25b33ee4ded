-- ===== src/PriorityQueue/Sift.antt =====
-- `heapify_up` and `heapify_down` restore the heap order and keep the nodes.
use mathlib.Core.List.{Perm}
use mathlib.Core.List.Perm
use microjit.Prelude.{
  ℕ, zero, suc, ◌-◌, ◌≤◌, ◌<◌, ◌≡◌, inl, inr, List, Option, some, arith, length, ltb, Bool-cases,
}
use native.Mathlib.Decide.{ℕ_discrete}
use microjit.PriorityQueue.{
  Node, priority_at, swap, heapify_up_loop, heapify_up, largest_of, heapify_down_loop, heapify_down,
}
use microjit.PriorityQueue.Order.{parent, IsHeap, UpInv, DownInv, largest_of_cases}
use microjit.PriorityQueue.Arrays.{length-swap, priority_at-swap, swap-perm}

module _ {ℓ} {T : Type ℓ} where
  -- the call returns a heap of the same nodes
  abbrev pub Restores : List (Node T) → Option (List (Node T)) → Type ℓ
  Restores h r = (g : List (Node T)) × (r ≡ some g) × IsHeap g × Perm g h

  Restores-swap :
      (h : List (Node T)) (i j : ℕ) (r : Option (List (Node T)))
      → i < length h
      → j < length h
      → Restores (swap h i j) r
      → Restores h r
  Restores-swap h i j r hi hj (g, e, o, p) = (g, e, o, Perm.trans p (swap-perm h i j hi hj))

  UpInv-swap :
      (h : List (Node T)) (i : ℕ)
      → UpInv h i
      → 0 < i
      → priority_at h i < priority_at h (parent i)
      → UpInv (swap h i (parent i)) (parent i)
  UpInv-swap h i v pos low =
      let q = parent i in
      let hq : q < length h = omega (arith, v.inside) in
      let at = priority_at-swap h i q v.inside hq in
      let len = length-swap h i q v.inside hq in
      record {
        inside = omega arith;
        edges =
            λ c p l n. ground (arith, len, at c, at (parent c), v.edges c, v.bridged c, v.edges q);
        bridged = λ c p l e b.
            ground (arith, len, at c, at (parent q), v.edges c, v.bridged c, v.edges q);
      }

  heapify_up-Restores :
      (fuel : ℕ) (h : List (Node T)) (i : ℕ)
      → i < fuel
      → UpInv h i
      → Restores h (heapify_up_loop fuel h i)
  unfolding heapify_up_loop
  heapify_up-Restores zero h i f v = absurd (omega arith)
  heapify_up-Restores (suc fuel) h i f v = elim (ℕ_discrete i 0) [
    | yes root ↦ (h, ground arith, λ c p l. v.edges c p l (λ e. omega arith), Perm.refl h)
    | no below ↦ elim (Bool-cases (ltb (priority_at h i) (priority_at h (parent i)))) [
      | inl low ↦
          let (g, e, o, p) = Restores-swap h i (parent i) _ v.inside (omega (arith, v.inside)) (
            heapify_up-Restores fuel (swap h i (parent i)) (parent i) (omega arith)
              (UpInv-swap h i v (omega arith) (ground arith))) in
          (g, ground (arith, e), o, p)
      | inr high ↦ (h, ground arith, λ c p l. ground (arith, v.edges c), Perm.refl h)
    ]
  ]

  -- One node out of order with its parent: `heapify_up` restores the heap.
  pub heapify_up_lem : (h : List (Node T)) (i : ℕ) → UpInv h i → Restores h (heapify_up h i)
  unfolding heapify_up
  heapify_up_lem h i v = heapify_up-Restores (suc i) h i (omega arith) v

  DownInv-swap :
      (h : List (Node T)) (i k : ℕ)
      → DownInv h i
      → parent k ≡ i
      → i < k
      → k < length h
      → priority_at h k < priority_at h i
      → ((c : ℕ) → 0 < c → c < length h → parent c ≡ i → priority_at h k ≤ priority_at h c)
      → DownInv (swap h i k) k
  DownInv-swap h i k v e lt inside low least =
      let at = priority_at-swap h i k (omega arith) inside in
      let len = length-swap h i k (omega arith) inside in
      record {
        edges = λ c p l n.
            ground (arith, len, at c, at (parent c), v.edges c, v.bridged c, v.bridged k, least c);
        bridged = λ c p l q b. ground (arith, len, at c, at (parent k), v.edges c);
      }

  heapify_down-Restores :
      (fuel : ℕ) (h : List (Node T)) (i : ℕ)
      → length h - i < fuel
      → DownInv h i
      → Restores h (heapify_down_loop fuel h i)
  unfolding heapify_down_loop
  heapify_down-Restores zero h i f v = absurd (omega arith)
  heapify_down-Restores (suc fuel) h i f v = elim (largest_of_cases h i) [
    | inl (same, least) ↦
        (h, ground arith, λ c p l. ground (arith, v.edges c, least c), Perm.refl h)
    | inr (child, lt, inside, low, least) ↦
        let k = largest_of h i in
        let (g, e, o, p) = Restores-swap h i k _ (omega arith) inside (
          heapify_down-Restores fuel (swap h i k) k
            (omega (arith, length-swap h i k (omega arith) inside))
            (DownInv-swap h i k v child lt inside low least)) in
        (g, ground (arith, e), o, p)
  ]

  -- One node out of order with its children: `heapify_down` restores the heap.
  pub heapify_down_lem : (h : List (Node T)) → DownInv h 0 → Restores h (heapify_down h 0)
  unfolding heapify_down
  heapify_down_lem h v = heapify_down-Restores (suc (length h)) h 0 (omega arith) v
