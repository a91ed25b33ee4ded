-- ===== src/Agent/Tests.antt =====
-- The theorems about the handlers at a few operations and threads.
use microjit.Prelude.{
  ℕ, ◌≡◌, ◌≢◌, refl, ◌⊎◌, false, List, [], ◌∷◌, none, some, length, ◌+◌, ◌==◌, if◌then◌else◌,
  get_elem?, zero, suc, All, arith,
}
use microjit.Prelude.Dict
use microjit.Prelude.Dict.{lookup}
use microjit.Raise.{ok, raise, sync_from_server}
use microjit.Agent.{compiled, released, Compiler, Handler, newest}
use microjit.Agent.Single
use microjit.Agent.Single.{store_result, get_or_recompile, release_found}
use microjit.Agent.Queued
use microjit.Agent.Instance
use microjit.Agent.Instance.{FunctionInstance, attached}
use microjit.Agent.Memo.{
  get, recompile_of, remove_by_host, run, IsMemo, run-IsMemo, get_or_create-get_or_create,
  get_or_create-cases, recompile-unchanged, call-detach,
}
use microjit.Agent.Pooled.{
  idle, looking, compiling, recompiling, Pool, Action, get_or_create, look, answer, remove,
  remove_function_internal, step, steps, step_at, look_found,
}
use microjit.Agent.Exclusion.{Compiling, IsExclusive, Keeps, steps-IsExclusive}
use microjit.Agent.Stuck.{answer-looking}
use microjit.Agent.Removal.{remove-Compiling}

-- code at 500 and above, and an error for host 9
abbrev counting : Compiler
counting history host = if host == 9 then none else some (500 + length history)

abbrev fresh : Handler
fresh = record { function_map = []; history = [] }

abbrev filled : Handler
filled = record { function_map = (7, 500) ∷ []; history = compiled 7 500 ∷ [] }

fresh-IsMemo : IsMemo fresh
unfolding lookup newest
fresh-IsMemo host = refl

run-IsMemo_example :
    IsMemo (run counting fresh (get 7 ∷ get 9 ∷ recompile_of 7 ∷ remove_by_host 7 ∷ get 8 ∷ []))
run-IsMemo_example =
    run-IsMemo counting (get 7 ∷ get 9 ∷ recompile_of 7 ∷ remove_by_host 7 ∷ get 8 ∷ []) fresh
      fresh-IsMemo

first_get : (Single.get_or_create counting fresh 7).0 ≡ some 500
unfolding Single.get_or_create get_or_recompile Single.recompile store_result lookup
first_get = refl

get_or_create-get_or_create_example :
    Single.get_or_create counting (Single.get_or_create counting fresh 7).1 7
    ≡ Single.get_or_create counting fresh 7
get_or_create-get_or_create_example = get_or_create-get_or_create counting fresh 7 500 first_get

get_or_create-cases_example :
    (Queued.get_or_create false counting fresh 7 ≡ raise sync_from_server)
      × (lookup 7 fresh.function_map ≡ none)
    ⊎ ((cb : ℕ) × (Queued.get_or_create false counting fresh 7 ≡ ok (some cb, fresh))
        × (lookup 7 fresh.function_map ≡ some cb))
get_or_create-cases_example = get_or_create-cases counting fresh 7

found : lookup 7 filled.function_map ≡ some 500
unfolding lookup
found = refl

recompile-unchanged_example :
    Instance.recompile counting (attached 7 500) filled ≡ ok (attached 7 500, filled)
recompile-unchanged_example = recompile-unchanged counting filled 7 500 found

call-detach_example :
    (self : FunctionInstance) × (h : Handler) × (Instance.detach (attached 7 500) filled
      ≡ ok (self, h))
    × (Instance.call counting self h ≡ ok (500, self, h))
    × (h.history ≡ released 7 500 ∷ filled.history)
call-detach_example = call-detach counting filled 7 500 found

abbrev two_threads : Pool
two_threads = record { function_map = []; threads = idle ∷ idle ∷ []; released = [] }

two_threads-IsExclusive : (host : ℕ) → IsExclusive host two_threads
two_threads-IsExclusive host = record { present = at_none; alone = at_one }
  where
    at_none :
        (i : ℕ)
        → get_elem? two_threads.threads i ≡ some (compiling host)
        → lookup host two_threads.function_map ≢ none
    at_none zero e = cc
    at_none (suc zero) e = cc
    at_none (suc (suc i)) e = cc

    at_one :
        (i j : ℕ)
        → get_elem? two_threads.threads i ≡ some (compiling host)
        → get_elem? two_threads.threads j ≡ some (compiling host)
        → i ≡ j
    at_one zero j e = cc
    at_one (suc zero) j e = cc
    at_one (suc (suc i)) j e = cc

abbrev race : List Action
race = get_or_create 0 9 ∷ get_or_create 1 9 ∷ look 0 ∷ remove 8 ∷ look 1 ∷ []

race-Keeps : All (Keeps 9) race
race-Keeps = (tt, (tt, (tt, ((λ e. absurd (omega (arith, e))), (tt, tt)))))

steps-IsExclusive_example : IsExclusive 9 (steps two_threads race)
steps-IsExclusive_example =
    steps-IsExclusive 9 race two_threads race-Keeps (two_threads-IsExclusive 9)

-- thread 0 compiles host 9 and thread 1 looks for it
abbrev raced : Pool
raced = record {
  function_map = (9, none) ∷ [];
  threads = compiling 9 ∷ looking 9 ∷ [];
  released = [];
}

race-eq : steps two_threads race ≡ raced
unfolding steps step step_at look_found remove_function_internal lookup Dict.insert
race-eq = refl

raced-IsExclusive : IsExclusive 9 raced
raced-IsExclusive =
    mathlib.Core.Path.subst (IsExclusive 9) race-eq
      (steps-IsExclusive 9 race two_threads race-Keeps (two_threads-IsExclusive 9))

race_alone : (k : ℕ) → get_elem? raced.threads k ≢ some (recompiling 9)
race_alone zero e = cc
race_alone (suc zero) e = cc
race_alone (suc (suc k)) e = cc

raced-placeholder : lookup 9 raced.function_map ≡ some none
unfolding lookup
raced-placeholder = refl

answer-looking_example :
    get_elem? (steps raced (answer 0 none ∷ look 1 ∷ look 1 ∷ [])).threads 1 ≡ some (looking 9)
answer-looking_example =
    answer-looking raced 0 1 9 (look 1 ∷ look 1 ∷ []) raced-IsExclusive refl raced-placeholder
      race_alone refl (tt, (tt, tt))

remove-Compiling_example :
    Compiling (steps raced (remove 9 ∷ look 1 ∷ [])) 0 9
    × Compiling (steps raced (remove 9 ∷ look 1 ∷ [])) 1 9
remove-Compiling_example = remove-Compiling raced 0 1 9 refl refl
