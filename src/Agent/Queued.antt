-- ===== src/Agent/Queued.antt =====
-- `CommandQueueCompilationHandler` of src/microjit/runtime_agent.cpp. Every method is handed to the
-- server of the queue by `CommandQueue::sync_method` (src/microjit/command_queue.h), which waits for
-- the result and passes on what is thrown.
use microjit.Prelude.{ℕ, Bool, true, not, Option, none, some}
use microjit.Prelude.Dict
use microjit.Raise.{Result, ok, guard, ◌>>◌, sync_from_server}
use microjit.Agent.{Compiler, Handler}
use microjit.Agent.Single.{store_result, release_found, is_some}

-- `sync_method`: a task that the server runs, unless the caller is the server.
unfoldable pub sync_method : {A : Type 0} → (on_server : Bool) → Result A → Result A
sync_method on_server task = do guard (not on_server) sync_from_server; task

unfoldable pub function_compiled_internal : Handler → ℕ → Bool
function_compiled_internal h host = is_some (Dict.lookup host h.function_map)

unfoldable pub function_compiled : Bool → Handler → ℕ → Result Bool
function_compiled on_server h host = sync_method on_server (ok (function_compiled_internal h host))

unfoldable pub recompile_internal : Compiler → Handler → ℕ → Option ℕ × Handler
recompile_internal compile h host = store_result h host (compile h.history host)

unfoldable pub recompile : Bool → Compiler → Handler → ℕ → Result (Option ℕ × Handler)
recompile on_server compile h host = sync_method on_server (ok (recompile_internal compile h host))

-- by what `find` gives; the server runs it.
unfoldable pub get_or_recompile : Compiler → Handler → ℕ → Option ℕ → Result (Option ℕ × Handler)
get_or_recompile compile h host none = recompile true compile h host
get_or_recompile compile h host (some cb) = ok (some cb, h)

unfoldable pub get_or_create_internal : Compiler → Handler → ℕ → Result (Option ℕ × Handler)
get_or_create_internal compile h host =
    get_or_recompile compile h host (Dict.lookup host h.function_map)

unfoldable pub get_or_create : Bool → Compiler → Handler → ℕ → Result (Option ℕ × Handler)
get_or_create on_server compile h host =
    sync_method on_server (get_or_create_internal compile h host)

unfoldable pub remove_function_internal : Handler → ℕ → Bool × Handler
remove_function_internal h host = release_found h host (Dict.lookup host h.function_map)

unfoldable pub remove_function : Bool → Handler → ℕ → Result (Bool × Handler)
remove_function on_server h host = sync_method on_server (ok (remove_function_internal h host))
