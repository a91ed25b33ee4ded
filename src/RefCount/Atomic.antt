-- ===== src/RefCount/Atomic.antt =====
-- `SafeRefCount` of src/microjit/safe_refcount.h, with `conditional_increment` and `decrement` of `SafeNumeric`:
-- threads that share one counter, whose atomic operations interleave.
use microjit.Prelude.{
  ℕ, suc, ◌+◌, ◌-◌, ◌%◌, ◌^◌, Bool, not, ◌&&◌, List, [], ◌∷◌, Option, none, some, ◌==◌,
  if◌then◌else◌, get_elem?, set,
}

-- where a thread is: outside of the operations, at the load of `conditional_increment`, or at its exchange
-- with the value that it has loaded
pub data Point : Type 0 where
  outside at_load : Point
  at_exchange : (loaded : ℕ) → Point

-- `holds`: how often the thread has been given the object and has not given it back
pub record Thread : Type 0 where
  pub holds : ℕ
  pub point : Point

-- `disposals`: how often `unref` has told its caller to dispose of the object
pub record Counter : Type 0 where
  pub value : ℕ
  pub disposals : ℕ

pub data Action : Type 0 where
  call_ref load call_unref : Action
  exchange : (spurious : Bool) → Action

-- the load: a count of 0 ends the call, which fails
unfoldable pub after_load : ℕ → Point
after_load value = if value == 0 then outside else at_exchange value

-- the exchange, which may also fail for no reason; if it fails, the loop begins again
unfoldable pub after_exchange : (spurious : Bool) → (loaded : ℕ) → Counter → ℕ → Counter × Thread
after_exchange spurious loaded c holds =
    if not spurious && c.value == loaded
    then (record c { value = (loaded + 1) % 2 ^ 32 }, record { holds = holds + 1; point = outside })
    else (c, record { holds = holds; point = at_load })

-- `decrement() == 0`
unfoldable pub unref_counter : Counter → Counter
unref_counter c =
    let value : ℕ = (c.value + (2 ^ 32 - 1)) % 2 ^ 32 in
    record { value = value; disposals = if value == 0 then c.disposals + 1 else c.disposals }

-- One atomic operation of a thread. A thread gives back only what it has been given; the actions that are not
-- possible where it is are `none`.
unfoldable pub act : Action → Counter → (holds : ℕ) → Point → Option (Counter × Thread)
act call_ref c holds outside = some (c, record { holds = holds; point = at_load })
act load c holds at_load = some (c, record { holds = holds; point = after_load c.value })
act (exchange spurious) c holds (at_exchange loaded) = some (after_exchange spurious loaded c holds)
act call_unref c (suc holds) outside =
    some (unref_counter c, record { holds = holds; point = outside })
act _ c holds point = none

unfoldable pub step_of :
    Counter → List Thread → ℕ → Action → Option Thread → Option (Counter × List Thread)
step_of c threads i action none = none
step_of c threads i action (some t) = elim (act action c t.holds t.point) [
  | none ↦ none
  | some r ↦ some (r.0, set threads i r.1)
]

-- a schedule: which thread takes which action
unfoldable pub run_schedule :
    List (ℕ × Action) → Counter → List Thread → Option (Counter × List Thread)
run_schedule [] c threads = some (c, threads)
run_schedule ((i, action) ∷ rest) c threads =
    elim (step_of c threads i action (get_elem? threads i)) [
      | none ↦ none
      | some r ↦ run_schedule rest r.0 r.1
    ]
