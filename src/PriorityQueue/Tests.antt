-- ===== src/PriorityQueue/Tests.antt =====
-- A queue of three tasks.
use mathlib.Core.List.{Perm, Mem}
use microjit.Prelude.{ℕ, ◌≤◌, ◌≡◌, refl, List, [], ◌∷◌, some, arith}
use microjit.PriorityQueue.{
  Node, popped, out_of_range, priority_at, swap, heapify_up, heapify_up_loop, heapify_down,
  heapify_down_loop, largest_of, push, pop,
}
use microjit.PriorityQueue.Order.{IsHeap}
use microjit.PriorityQueue.Correct.{push_lem, pop_lem}

abbrev task : ℕ → ℕ → Node ℕ
task value priority = record { item = value; priority = priority }

abbrev queue : List (Node ℕ)
queue = task 70 1 ∷ task 71 3 ∷ task 72 2 ∷ []

push_run : push queue 73 0 ≡ some (task 73 0 ∷ task 70 1 ∷ task 72 2 ∷ task 71 3 ∷ [])
unfolding push heapify_up heapify_up_loop priority_at swap
push_run = refl

pop_run : pop queue ≡ popped 70 (task 72 2 ∷ task 71 3 ∷ [])
unfolding pop heapify_down heapify_down_loop largest_of priority_at swap
pop_run = refl

pop_empty_run : pop {T = ℕ} [] ≡ out_of_range
unfolding pop
pop_empty_run = refl

queue-IsHeap : IsHeap queue
unfolding priority_at
queue-IsHeap = grind arith

push_lem_example :
    (grown : List (Node ℕ)) × (push queue 73 0 ≡ some grown)
    × IsHeap grown
    × Perm grown (task 73 0 ∷ queue)
push_lem_example = push_lem queue 73 0 queue-IsHeap

pop_lem_example :
    (heap : List (Node ℕ)) × (pop queue ≡ popped 70 heap)
    × IsHeap heap
    × Perm (task 70 1 ∷ heap) queue
    × ((n : Node ℕ) → Mem n queue → 1 ≤ n.priority)
pop_lem_example = pop_lem (task 70 1) (task 71 3 ∷ task 72 2 ∷ []) queue-IsHeap
