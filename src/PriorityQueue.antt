-- ===== src/PriorityQueue.antt =====
-- src/microjit/priority_queue.h: `PriorityQueue<T>` with its default comparator `LowCompare`, a
-- binary heap in a vector. Priorities are `uint8_t`, which are only compared. An index out of range
-- is undefined in C++; here such a read gives priority 0 and such a swap changes nothing, and the
-- theorems show that every call returns from indices in range.
pub mod Order
pub mod Arrays
pub mod Sift
pub mod Correct
mod Tests
use microjit.Prelude.{
  ℕ, zero, suc, ◌+◌, ◌-◌, ◌*◌, ◌/◌, Bool, true, false, ◌&&◌, List, [], ◌∷◌, ◌++◌, Option, none,
  some, ltb, ◌==◌, if◌then◌else◌, length, get_elem?, set, take,
}

-- `Node`
pub record Node {ℓ} (T : Type ℓ) : Type ℓ where
  pub item : T
  pub priority : ℕ

-- `pop` on an empty queue throws `std::out_of_range`; `out_of_fuel` is the model's own.
pub data Popped {ℓ} (T : Type ℓ) : Type ℓ where
  popped : T → List (Node T) → Popped T
  out_of_range : Popped T
  out_of_fuel : Popped T

-- `LowCompare::compare`
abbrev pub compare_low : ℕ → ℕ → Bool
compare_low lhs rhs = ltb lhs rhs

module _ {ℓ} {T : Type ℓ} where
  -- `heap[i].priority`
  unfoldable pub priority_at : List (Node T) → ℕ → ℕ
  priority_at [] i = 0
  priority_at (n ∷ heap) zero = n.priority
  priority_at (n ∷ heap) (suc i) = priority_at heap i

  -- `SWAP(heap[i], heap[j])`
  unfoldable pub swap : List (Node T) → ℕ → ℕ → List (Node T)
  swap heap i j = elim (get_elem? heap i) [
    | none ↦ heap
    | some left ↦ elim (get_elem? heap j) [
      | none ↦ heap
      | some right ↦ set (set heap i right) j left
    ]
  ]

  -- The loop of `heapify_up`, with fuel. The source computes `parent` for index 0 too, by wrapping
  -- around, but does not use it.
  unfoldable pub heapify_up_loop : ℕ → List (Node T) → ℕ → Option (List (Node T))
  heapify_up_loop zero heap idx = none
  heapify_up_loop (suc fuel) heap idx =
      let parent = (idx - 1) / 2 in
      let rest = heapify_up_loop fuel (swap heap idx parent) parent in
      if ltb 0 idx && compare_low (priority_at heap idx) (priority_at heap parent)
      then rest
      else some heap

  unfoldable pub heapify_up : List (Node T) → ℕ → Option (List (Node T))
  heapify_up heap idx = heapify_up_loop (suc idx) heap idx

  -- the child that `heapify_down` swaps with, or `idx` itself
  unfoldable pub largest_of : List (Node T) → ℕ → ℕ
  largest_of heap idx =
      let left = 2 * idx + 1 in
      let right = 2 * idx + 2 in
      let largest =
        if ltb left (length heap) && compare_low (priority_at heap left) (priority_at heap idx)
        then left
        else idx in
      if ltb right (length heap) && compare_low (priority_at heap right) (priority_at heap largest)
      then right
      else largest

  -- the loop of `heapify_down`, with fuel
  unfoldable pub heapify_down_loop : ℕ → List (Node T) → ℕ → Option (List (Node T))
  heapify_down_loop zero heap idx = none
  heapify_down_loop (suc fuel) heap idx =
      let largest = largest_of heap idx in
      let rest = heapify_down_loop fuel (swap heap idx largest) largest in
      if largest == idx then some heap else rest

  unfoldable pub heapify_down : List (Node T) → ℕ → Option (List (Node T))
  heapify_down heap idx = heapify_down_loop (suc (length heap)) heap idx

  -- `push`
  unfoldable pub push : List (Node T) → T → ℕ → Option (List (Node T))
  push heap value priority =
      let grown = heap ++ record { item = value; priority = priority } ∷ [] in
      heapify_up grown (length grown - 1)

  -- `pop`; `pop_back` drops the last node.
  unfoldable pub pop : List (Node T) → Popped T
  pop [] = out_of_range
  pop (top ∷ rest) =
      let last = length rest in
      elim (heapify_down (take last (swap (top ∷ rest) 0 last)) 0) [
        | none ↦ out_of_fuel
        | some heap ↦ popped top.item heap
      ]

  -- `try_pop`: whether a node was taken, with the node and the heap afterwards
  unfoldable pub try_pop : List (Node T) → Option (Popped T)
  try_pop heap = if length heap == 0 then none else some (pop heap)
