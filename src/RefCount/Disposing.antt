-- ===== src/RefCount/Disposing.antt =====
-- `SafeRefCount` of src/microjit/safe_refcount.h, from `init` on.
use mathlib.Core.Path.{subst}
use microjit.Prelude.{
  ℕ, zero, suc, ◌+◌, ◌^◌, ◌<◌, ◌≡◌, refl, ap, ◌∙◌, List, ◌∷◌, Option, none, some, arith, ◌==◌,
  if◌then◌else◌, length, replicate,
}
use microjit.RefCount.Atomic.{Thread, outside, Counter, Action, run_schedule}
use microjit.RefCount.Disposal.{total, NonZero, AllNonZero, IsDisposedOnce, Ends, run_schedule-Ends}

-- after `init()`: one thread holds the object, and `others` do not
abbrev pub initial : Counter
initial = record { value = 1; disposals = 0 }

abbrev pub first_holder : ℕ → List Thread
first_holder others =
    record { holds = 1; point = outside } ∷ replicate others (record { holds = 0; point = outside })

total-others : (n : ℕ) → total (replicate n (record { holds = 0; point = outside })) ≡ 0
unfolding total
total-others zero = refl
total-others (suc n) = let rest = total-others n in omega arith

others-AllNonZero : (n : ℕ) → AllNonZero (replicate n (record { holds = 0; point = outside }))
unfolding NonZero
others-AllNonZero zero = tt
others-AllNonZero (suc n) = (tt, others-AllNonZero n)

initial-IsDisposedOnce : (others : ℕ) → IsDisposedOnce 1 initial (first_holder others)
unfolding total NonZero
initial-IsDisposedOnce others =
    let rest = total-others others in
    record {
      balanced = record { counted = omega arith; disposed = refl; below = omega arith };
      all_non_zero = (tt, others-AllNonZero others);
    }

counts_after :
    (bound : ℕ) (r : Option (Counter × List Thread)) (d : Counter) (after : List Thread)
    → r ≡ some (d, after)
    → Ends bound r
    → (d.value ≡ total after) × (d.disposals ≡ (if total after == 0 then 1 else 0))
counts_after bound none d after e h = cc
counts_after bound (some (c, threads)) d after e h =
    let pair : Counter × List Thread = (c, threads) in
    let same : pair ≡ (d, after) = cc in
    let counted = h.balanced.counted in
    let disposed : c.disposals ≡ (if total threads == 0 then 1 else 0) =
      h.balanced.disposed ∙ ap (λ n. if n == 0 then 1 else 0) counted in
    subst (λ r. (r.0.value ≡ total r.1) × (r.0.disposals ≡ (if total r.1 == 0 then 1 else 0))) same
      (counted, disposed)

-- In every interleaving of fewer than 2 ^ 32 - 1 actions of threads that share the counter, each giving back only
-- what it has been given, the counter is the number of holds, and `unref` has told a caller to dispose of
-- the object once if nobody holds it, and never if somebody does.
pub run_schedule-disposals :
    (schedule : List (ℕ × Action)) (others : ℕ) (d : Counter) (after : List Thread)
    → 1 + length schedule < 2 ^ 32
    → run_schedule schedule initial (first_holder others) ≡ some (d, after)
    → (d.value ≡ total after) × (d.disposals ≡ (if total after == 0 then 1 else 0))
run_schedule-disposals schedule others d after small e =
    counts_after (1 + length schedule) _ d after e (
      run_schedule-Ends schedule 1 initial (first_holder others) small
        (initial-IsDisposedOnce others))
