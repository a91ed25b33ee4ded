-- ===== src/PriorityQueue/Correct.antt =====
-- What `push` and `pop` promise.
use mathlib.Core.Logic.Or
use mathlib.Core.List.{Perm, Mem, mem-cons, not-mem-nil, perm_append_comm}
use mathlib.Core.List.Perm
use native.Mathlib.Bridge.{le_prop}
use microjit.Prelude.{
  ℕ, suc, ◌-◌, ◌≤◌, ◌<◌, ◌≡◌, refl, List, [], ◌∷◌, ◌++◌, some, arith, length, take,
}
use microjit.PriorityQueue.{Node, popped, priority_at, swap, push, pop}
use microjit.PriorityQueue.Order.{parent, IsHeap, UpInv, DownInv, root_least}
use microjit.PriorityQueue.Arrays.{
  length-swap, priority_at-swap, swap-perm, get_elem?-swap, priority_at-append, priority_at-take,
  take_last-perm, length-take, length-append_one,
}
use microjit.PriorityQueue.Sift.{heapify_up_lem, heapify_down_lem}

module _ {ℓ} {T : Type ℓ} where
  append-UpInv :
      (h : List (Node T)) (n : Node T) → IsHeap h → UpInv (h ++ n ∷ []) (length (h ++ n ∷ []) - 1)
  append-UpInv h n o =
      let size = length-append_one h n in
      record {
        inside = omega arith;
        edges = λ c p l e.
            ground (
              arith,
              o c,
              priority_at-append h (n ∷ []) c,
              priority_at-append h (n ∷ []) (parent c),
            );
        bridged = λ c p l e b. absurd (omega arith);
      }

  -- Pushing onto a heap returns a heap of the nodes that were there and the new one.
  pub push_lem :
      (heap : List (Node T)) (value : T) (priority : ℕ)
      → IsHeap heap
      → (grown : List (Node T)) × (push heap value priority ≡ some grown)
        × IsHeap grown
        × Perm grown (record { item = value; priority = priority } ∷ heap)
  unfolding push
  push_lem heap value priority o =
      let n : Node T = record { item = value; priority = priority } in
      let (g, e, v, p) = heapify_up_lem (heap ++ n ∷ []) _ (append-UpInv heap n o) in
      (g, e, v, Perm.trans p (perm_append_comm heap (n ∷ [])))

  le_of_mem :
      (b : ℕ) (h : List (Node T))
      → ((i : ℕ) → i < length h → b ≤ priority_at h i)
      → (n : Node T) → Mem n h
      → b ≤ n.priority
  unfolding priority_at
  le_of_mem b [] f n m = absurd (not-mem-nil m)
  le_of_mem b (x ∷ h) f n m =
      Or.elim le_prop (mem-cons.0 m) (λ e. rw e (f 0 (omega arith)))
        (le_of_mem b h (λ i l. f (suc i) (omega arith)) n)

  -- Popping a heap that is not empty returns the value of its first node, which has the lowest
  -- priority value of all the nodes, and leaves a heap of the other nodes.
  pub pop_lem :
      (top : Node T) (rest : List (Node T))
      → IsHeap (top ∷ rest)
      → (heap : List (Node T)) × (pop (top ∷ rest) ≡ popped top.item heap)
        × IsHeap heap
        × Perm (top ∷ heap) (top ∷ rest)
        × ((n : Node T) → Mem n (top ∷ rest) → top.priority ≤ n.priority)
  unfolding pop priority_at
  pop_lem top rest o =
      let h = top ∷ rest in
      let last = length rest in
      let swapped = swap h 0 last in
      let cut = take last swapped in
      let size = length-swap h 0 last (omega arith) (omega arith) in
      let cut_size = length-take last swapped (omega arith) in
      let at = priority_at-swap h 0 last (omega arith) (omega arith) in
      let kept = priority_at-take last swapped in
      let ready : DownInv cut 0 = record {
        edges = λ c p l e. ground (arith, o c, kept c, kept (parent c), at c, at (parent c));
        bridged = λ c p l e b. absurd (omega arith);
      } in
      let (g, e, v, p) = heapify_down_lem cut ready in
      let others =
        take_last-perm last swapped top size
          (get_elem?-swap h 0 last (omega arith) (omega arith) top refl) in
      (
        g,
        rw (e, pop) refl,
        v,
        Perm.trans (Perm.cons top p)
            (Perm.trans others (swap-perm h 0 last (omega arith) (omega arith))),
        le_of_mem top.priority h (λ i l. root_least h i o l),
      )
