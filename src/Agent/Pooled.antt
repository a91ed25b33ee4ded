-- ===== src/Agent/Pooled.antt =====
-- `ThreadPoolCompilationHandler` of src/microjit/runtime_agent.cpp, as a machine whose threads take
-- turns. An action is one thread's next section under the lock, or a step outside of it; each worker
-- of the pool has its own compiler, whose answer is part of the action. `remove_function` runs in the
-- thread that calls it, in one section under the same lock; the caller is no thread of the pool.
use microjit.Prelude.{ℕ, List, [], ◌∷◌, Option, none, some, get_elem?, set}
use microjit.Prelude.Dict

-- where a thread stands: it has nothing to do, or it is in `get_or_create_internal` before the loop
-- has found anything, in `compile` for a placeholder of its own, or in `compile` for `recompile`
pub data PoolThread : Type 0 where
  idle : PoolThread
  looking : (host : ℕ) → PoolThread
  compiling : (host : ℕ) → PoolThread
  recompiling : (host : ℕ) → PoolThread
  returned : (host : ℕ) → Option ℕ → PoolThread

-- a host without an entry, with the null placeholder, or with its code; and what has been released to
-- the runtime, the newest first
pub record Pool : Type 0 where
  pub function_map : List (ℕ × Option ℕ)
  pub threads : List PoolThread
  pub released : List (Option ℕ)

-- Thread `i` is given a task, looks at the map, or gets the answer of its compiler; or somebody removes
-- a host.
pub data Action : Type 0 where
  get_or_create recompile : (i host : ℕ) → Action
  look : (i : ℕ) → Action
  answer : (i : ℕ) → Option ℕ → Action
  remove : (host : ℕ) → Action

abbrev goto : Pool → ℕ → PoolThread → Pool
goto s i t = record s { threads = set s.threads i t }

-- one round of the loop in `get_or_create_internal`, by what `find` gives under the write lock
unfoldable pub look_found : Pool → ℕ → ℕ → Option (Option ℕ) → Pool
look_found s i host none = record s {
  function_map = Dict.insert host none s.function_map;
  threads = set s.threads i (compiling host);
}
look_found s i host (some none) = s
look_found s i host (some (some re)) = goto s i (returned host (some re))

-- the end of `recompile_internal`, after `compile`
unfoldable pub finish : Pool → ℕ → ℕ → Option ℕ → Pool
finish s i host none = goto s i (returned host none)
finish s i host (some ret) = record s {
  function_map = Dict.insert host (some ret) s.function_map;
  threads = set s.threads i (returned host (some ret));
}

-- `remove_function_internal`, by what `find` gives under the write lock: also a placeholder goes.
unfoldable pub remove_function_internal : Pool → ℕ → Option (Option ℕ) → Pool
remove_function_internal s host none = s
remove_function_internal s host (some cb) = record s {
  function_map = Dict.erase host s.function_map;
  released = cb ∷ s.released;
}

-- What an action does in a thread that stands where `Option PoolThread` says. A thread that has
-- returned is free for the next task.
unfoldable pub step_at : Pool → Action → Option PoolThread → Pool
step_at s (remove host) t = remove_function_internal s host (Dict.lookup host s.function_map)
step_at s (get_or_create i host) (some idle) = goto s i (looking host)
step_at s (get_or_create i host) (some (returned g r)) = goto s i (looking host)
step_at s (recompile i host) (some idle) = goto s i (recompiling host)
step_at s (recompile i host) (some (returned g r)) = goto s i (recompiling host)
step_at s (look i) (some (looking host)) = look_found s i host (Dict.lookup host s.function_map)
step_at s (answer i r) (some (compiling host)) = finish s i host r
step_at s (answer i r) (some (recompiling host)) = finish s i host r
step_at s _ _ = s

-- the thread of the pool that takes the action; a removal asks for none
abbrev pub actor : Action → ℕ
actor (get_or_create i host) = i
actor (recompile i host) = i
actor (look i) = i
actor (answer i r) = i
actor (remove host) = 0

unfoldable pub step : Pool → Action → Pool
step s a = step_at s a (get_elem? s.threads (actor a))

unfoldable pub steps : Pool → List Action → Pool
steps s [] = s
steps s (a ∷ rest) = steps (step s a) rest
