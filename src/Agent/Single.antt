-- ===== src/Agent/Single.antt =====
-- `SingleUnsafeCompilationHandler` of src/microjit/runtime_agent.cpp.
use microjit.Prelude.{ℕ, Bool, true, false, not, ◌&&◌, ◌∷◌, Option, none, some}
use microjit.Prelude.Dict
use microjit.Agent.{compiled, failed, released, forgotten, Compiler, Handler}

-- whether a `find` found something
abbrev pub is_some : Option ℕ → Bool
is_some none = false
is_some (some x) = true

unfoldable pub function_compiled : Handler → ℕ → Bool
function_compiled h host = is_some (Dict.lookup host h.function_map)

-- what `recompile` does with the answer of the compiler
unfoldable pub store_result : Handler → ℕ → Option ℕ → Option ℕ × Handler
store_result h host none = (none, record h { history = failed host ∷ h.history })
store_result h host (some cb) = (
  some cb,
  record {
    function_map = Dict.insert host cb h.function_map;
    history = compiled host cb ∷ h.history;
  },
)

unfoldable pub recompile : Compiler → Handler → ℕ → Option ℕ × Handler
recompile compile h host = store_result h host (compile h.history host)

-- the choice of `get_or_create`, by what `find` gives
unfoldable pub get_or_recompile : Compiler → Handler → ℕ → Option ℕ → Option ℕ × Handler
get_or_recompile compile h host none = recompile compile h host
get_or_recompile compile h host (some cb) = (some cb, h)

unfoldable pub get_or_create : Compiler → Handler → ℕ → Option ℕ × Handler
get_or_create compile h host = get_or_recompile compile h host (Dict.lookup host h.function_map)

-- `remove_function` of a function, by whether it refuses
unfoldable pub erase_unless : Bool → Handler → ℕ → Bool × Handler
erase_unless true h host = (false, h)
erase_unless false h host = (
  true,
  record { function_map = Dict.erase host h.function_map; history = forgotten host ∷ h.history },
)

-- `debug_enabled` is the preprocessor's DEBUG_ENABLED.
unfoldable pub remove_function : Bool → Handler → ℕ → Bool × Handler
remove_function debug_enabled h host =
    erase_unless (debug_enabled && not (function_compiled h host)) h host

-- `remove_function` of a host, by what `find` gives
unfoldable pub release_found : Handler → ℕ → Option ℕ → Bool × Handler
release_found h host none = (false, h)
release_found h host (some cb) = (
  true,
  record { function_map = Dict.erase host h.function_map; history = released host cb ∷ h.history },
)

unfoldable pub remove_host : Handler → ℕ → Bool × Handler
remove_host h host = release_found h host (Dict.lookup host h.function_map)
