-- ===== src/RefCount/Tests/Threads.antt =====
-- Two threads that share an object.
use microjit.Prelude.{ℕ, ◌≡◌, refl, false, List, [], ◌∷◌, some, arith, ◌==◌, if◌then◌else◌}
use microjit.RefCount.Atomic.{
  Thread, outside, Counter, Action, call_ref, load, call_unref, exchange, after_load,
  after_exchange, unref_counter, act, step_of, run_schedule,
}
use microjit.RefCount.Disposal.{total}
use microjit.RefCount.Disposing.{initial, first_holder, run_schedule-disposals}

-- The second thread loads the count, the first one calls `ref` too and gets it; the exchange of the second thread
-- fails, the loop begins again, and in the end all is given back.
abbrev schedule : List (ℕ × Action)
schedule =
    (1, call_ref)
    ∷ (1, load)
    ∷ (0, call_ref)
    ∷ (0, load)
    ∷ (0, exchange false)
    ∷ (1, exchange false)
    ∷ (1, load)
    ∷ (1, exchange false)
    ∷ (0, call_unref)
    ∷ (0, call_unref)
    ∷ (1, call_unref)
    ∷ []

abbrev gone : Counter
gone = record { value = 0; disposals = 1 }

abbrev empty_handed : Thread
empty_handed = record { holds = 0; point = outside }

schedule-eq :
    run_schedule schedule initial (first_holder 1) ≡ some (gone, empty_handed ∷ empty_handed ∷ [])
unfolding run_schedule step_of act after_load after_exchange unref_counter
schedule-eq = refl

run_schedule-disposals_example :
    (gone.value ≡ total (empty_handed ∷ empty_handed ∷ []))
    × (gone.disposals ≡ (if total (empty_handed ∷ empty_handed ∷ []) == 0 then 1 else 0))
run_schedule-disposals_example =
    run_schedule-disposals schedule 1 gone (empty_handed ∷ empty_handed ∷ []) (omega arith)
      schedule-eq
