-- ===== src/Agent/Memo.antt =====
-- The handlers that one thread uses: `function_map` is the function of the history that `newest`
-- computes.
use microjit.Prelude.{
  ℕ, ◌≡◌, refl, sym, ap, ◌∙◌, Bool, true, false, List, [], ◌∷◌, Option, none, some, arith,
  Option-cases, ◌⊎◌, inl, inr, not, ◌&&◌,
}
use microjit.Prelude.Dict.{lookup, lookup-insert, lookup-erase}
use microjit.Raise.{ok, raise, sync_from_server}
use microjit.Agent.{released, Compiler, Handler, newest}
use microjit.Agent.Single
use microjit.Agent.Single.{
  store_result, get_or_recompile, release_found, erase_unless, function_compiled,
}
use microjit.Agent.Queued
use microjit.Agent.Instance
use microjit.Agent.Instance.{FunctionInstance, attached, compile_internal, compile_unless}

-- the operations of `SingleUnsafeCompilationHandler`
pub data Operation : Type 0 where
  get recompile_of remove_by_host : (host : ℕ) → Operation
  remove_by_function : (debug_enabled : Bool) → (host : ℕ) → Operation

unfoldable pub run : Compiler → Handler → List Operation → Handler
run compile h [] = h
run compile h (get host ∷ rest) = run compile (Single.get_or_create compile h host).1 rest
run compile h (recompile_of host ∷ rest) = run compile (Single.recompile compile h host).1 rest
run compile h (remove_by_host host ∷ rest) = run compile (Single.remove_host h host).1 rest
run compile h (remove_by_function debug host ∷ rest) =
    run compile (Single.remove_function debug h host).1 rest

abbrev pub IsMemo : Handler → Type 0
IsMemo h = (host : ℕ) → lookup host h.function_map ≡ newest host h.history

store_result-IsMemo :
    (h : Handler) (host : ℕ) (r : Option ℕ) → IsMemo h → IsMemo (store_result h host r).1
unfolding store_result newest
store_result-IsMemo h host none v j = v j
store_result-IsMemo h host (some cb) v j =
    ground (arith, lookup-insert host j cb h.function_map, v j)

release_found-IsMemo :
    (h : Handler) (host : ℕ) (r : Option ℕ) → IsMemo h → IsMemo (release_found h host r).1
unfolding release_found newest
release_found-IsMemo h host none v j = v j
release_found-IsMemo h host (some cb) v j = ground (arith, lookup-erase host j h.function_map, v j)

get_or_recompile-IsMemo :
    (compile : Compiler) (h : Handler) (host : ℕ) (r : Option ℕ)
    → IsMemo h
    → IsMemo (get_or_recompile compile h host r).1
unfolding get_or_recompile Single.recompile
get_or_recompile-IsMemo compile h host none v =
    store_result-IsMemo h host (compile h.history host) v
get_or_recompile-IsMemo compile h host (some cb) v = v

erase_unless-IsMemo :
    (refused : Bool) (h : Handler) (host : ℕ) → IsMemo h → IsMemo (erase_unless refused h host).1
unfolding erase_unless newest
erase_unless-IsMemo true h host v j = v j
erase_unless-IsMemo false h host v j = ground (arith, lookup-erase host j h.function_map, v j)

-- After any sequence of operations on a new handler, with any compiler, the map holds for each host
-- exactly the code of its last compilation that succeeded, unless the host was removed since.
pub run-IsMemo :
    (compile : Compiler) (ops : List Operation) (h : Handler)
    → IsMemo h
    → IsMemo (run compile h ops)
unfolding run Single.get_or_create Single.recompile Single.remove_host Single.remove_function
run-IsMemo compile [] h v = v
run-IsMemo compile (get host ∷ rest) h v =
    run-IsMemo compile rest _
      (get_or_recompile-IsMemo compile h host (lookup host h.function_map) v)
run-IsMemo compile (recompile_of host ∷ rest) h v =
    run-IsMemo compile rest _ (store_result-IsMemo h host (compile h.history host) v)
run-IsMemo compile (remove_by_host host ∷ rest) h v =
    run-IsMemo compile rest _ (release_found-IsMemo h host (lookup host h.function_map) v)
run-IsMemo compile (remove_by_function debug host ∷ rest) h v =
    run-IsMemo compile rest _
      (erase_unless-IsMemo (debug && not (function_compiled h host)) h host v)

store_result-found :
    (h : Handler) (host cb : ℕ) (r : Option ℕ)
    → (store_result h host r).0 ≡ some cb
    → lookup host (store_result h host r).1.function_map ≡ some cb
unfolding store_result
store_result-found h host cb none e = cc
store_result-found h host cb (some x) e = ground (arith, lookup-insert host host x h.function_map)

get_or_recompile-found :
    (compile : Compiler) (h : Handler) (host cb : ℕ) (r : Option ℕ)
    → lookup host h.function_map ≡ r
    → (get_or_recompile compile h host r).0 ≡ some cb
    → lookup host (get_or_recompile compile h host r).1.function_map ≡ some cb
unfolding get_or_recompile Single.recompile
get_or_recompile-found compile h host cb none l e =
    store_result-found h host cb (compile h.history host) e
get_or_recompile-found compile h host cb (some x) l e = l ∙ e

-- A host that `get_or_create` has returned code for is not compiled again: the next call returns
-- the same code and changes nothing.
pub get_or_create-get_or_create :
    (compile : Compiler) (h : Handler) (host cb : ℕ)
    → (Single.get_or_create compile h host).0 ≡ some cb
    → Single.get_or_create compile (Single.get_or_create compile h host).1 host
      ≡ Single.get_or_create compile h host
unfolding Single.get_or_create get_or_recompile
get_or_create-get_or_create compile h host cb e =
    let once : Option ℕ × Handler = Single.get_or_create compile h host in
    let found = get_or_recompile-found compile h host cb (lookup host h.function_map) refl e in
    ap (get_or_recompile compile once.1 host) found
    ∙ ap (λ (c : Option ℕ). let r : Option ℕ × Handler = (c, once.1) in r) (sym e)

-- In the handler with the command queue, `get_or_create` returns the code of a host that is
-- compiled, and raises for every other: the server waits for itself. It never compiles.
pub get_or_create-cases :
    (compile : Compiler) (h : Handler) (host : ℕ)
    → (Queued.get_or_create false compile h host ≡ raise sync_from_server)
        × (lookup host h.function_map ≡ none)
      ⊎ ((cb : ℕ) × (Queued.get_or_create false compile h host ≡ ok (some cb, h))
          × (lookup host h.function_map ≡ some cb))
unfolding Queued.get_or_create Queued.get_or_create_internal Queued.get_or_recompile
    Queued.recompile Queued.sync_method
get_or_create-cases compile h host = elim (Option-cases (lookup host h.function_map)) [
  | inl absent ↦ inl (rw absent refl, absent)
  | inr (cb, found) ↦ inr (cb, rw found refl, found)
]

-- An instance whose code is in the handler keeps it over `recompile`, which asks the compiler for
-- nothing.
pub recompile-unchanged :
    (compile : Compiler) (h : Handler) (host cb : ℕ)
    → lookup host h.function_map ≡ some cb
    → Instance.recompile compile (attached host cb) h ≡ ok (attached host cb, h)
unfolding Instance.recompile compile_internal compile_unless Single.get_or_create get_or_recompile
recompile-unchanged compile h host cb e = rw e refl

-- An instance that is detached jumps, when it is called again, to the code that `detach` released.
pub call-detach :
    (compile : Compiler) (h : Handler) (host cb : ℕ)
    → lookup host h.function_map ≡ some cb
    → (self : FunctionInstance) × (h' : Handler) × (Instance.detach (attached host cb) h
        ≡ ok (self, h'))
      × (Instance.call compile self h' ≡ ok (cb, self, h'))
      × (h'.history ≡ released host cb ∷ h.history)
unfolding Instance.detach Instance.call compile_internal compile_unless Single.remove_host
    release_found
call-detach compile h host cb e = (
  record (attached host cb) { has_parent = false },
  (release_found h host (some cb)).1,
  rw e refl,
  refl,
  refl,
)
