-- ===== src/Agent/Exclusion.antt =====
-- The pool compiles a host in one thread at a time, as long as nobody removes the host.
use microjit.Prelude.{
  ℕ, ◌≡◌, ◌≢◌, refl, sym, ◌∙◌, ◌⊎◌, inl, inr, List, [], ◌∷◌, Option, none, some, get_elem?, set,
  All, get_elem?-set, arith,
}
use native.Mathlib.Decide.{ℕ_discrete}
use microjit.Prelude.Dict.{lookup, lookup-insert, lookup-erase}
use microjit.Agent.Pooled.{
  PoolThread, idle, looking, compiling, recompiling, returned, Pool, Action, get_or_create,
  recompile, look, answer, remove, look_found, finish, remove_function_internal, step_at, step,
  steps, actor,
}

-- Thread `i` is in `compile` for the placeholder of `host`.
abbrev pub Compiling : Pool → ℕ → ℕ → Type 0
Compiling s i host = get_elem? s.threads i ≡ some (compiling host)

-- Who compiles the host has an entry for it, and is the only one.
pub record IsExclusive (host : ℕ) (s : Pool) : Type 0 where
  pub present : (i : ℕ) → Compiling s i host → lookup host s.function_map ≢ none
  pub alone : (i j : ℕ) → Compiling s i host → Compiling s j host → i ≡ j

-- The action does not remove `host`.
abbrev pub Keeps : ℕ → Action → Type 0
Keeps host (remove g) = g ≢ host
Keeps host _ = Unit

-- what a write to a list of threads leaves at a place
pub set-cases :
    (xs : List PoolThread) (i j : ℕ) (t old u : PoolThread)
    → get_elem? xs i ≡ some old
    → get_elem? (set xs i t) j ≡ some u
    → ((i ≡ j) × (t ≡ u)) ⊎ (get_elem? xs j ≡ some u)
set-cases xs i j t old u e h = elim (ℕ_discrete i j) [
  | yes same ↦ inl (same, ground (arith, get_elem?-set xs i j t old e))
  | no other ↦ inr (ground (arith, get_elem?-set xs i j t old e))
]

-- A thread goes where it does not compile the host, and the entry of the host is not lost.
leave-IsExclusive :
    (host : ℕ) (s : Pool) (i : ℕ) (t old : PoolThread) (m : List (ℕ × Option ℕ))
    → get_elem? s.threads i ≡ some old
    → t ≢ compiling host
    → (lookup host s.function_map ≢ none → lookup host m ≢ none)
    → IsExclusive host s
    → IsExclusive host (record s { function_map = m; threads = set s.threads i t })
leave-IsExclusive host s i t old m e other keep v =
    let before : (j : ℕ)
        → get_elem? (set s.threads i t) j ≡ some (compiling host)
        → Compiling s j host =
      λ j h. elim (set-cases s.threads i j t old (compiling host) e h) [
        | inl same ↦ absurd (other same.1)
        | inr at ↦ at
      ] in
    record {
      present = λ j h. keep (v.present j (before j h));
      alone = λ j k h g. v.alone j k (before j h) (before k g);
    }

-- A thread that finds no entry of the host makes one, and compiles.
enter-IsExclusive :
    (s : Pool) (i host : ℕ) (old : PoolThread)
    → get_elem? s.threads i ≡ some old
    → lookup host s.function_map ≡ none
    → IsExclusive host s
    → IsExclusive host (look_found s i host none)
unfolding look_found
enter-IsExclusive s i host old e absent v =
    let before : (j : ℕ)
        → get_elem? (set s.threads i (compiling host)) j ≡ some (compiling host)
        → i ≡ j =
      λ j h. elim (set-cases s.threads i j (compiling host) old (compiling host) e h) [
        | inl same ↦ same.0
        | inr at ↦ absurd (v.present j at absent)
      ] in
    record {
      present = λ j h n. ground (arith, lookup-insert host host none s.function_map);
      alone = λ j k h l. sym (before j h) ∙ before k l;
    }

look_found-IsExclusive :
    (host : ℕ) (s : Pool) (i g : ℕ) (old : PoolThread) (r : Option (Option ℕ))
    → get_elem? s.threads i ≡ some old
    → lookup g s.function_map ≡ r
    → IsExclusive host s
    → IsExclusive host (look_found s i g r)
unfolding look_found
look_found-IsExclusive host s i g old none e l v = elim (ℕ_discrete g host) [
  | yes same ↦
      mathlib.Core.Path.subst (λ k. IsExclusive host (look_found s i k none)) (sym same)
        (enter-IsExclusive s i host old e (ground arith) v)
  | no other ↦
      leave-IsExclusive host s i (compiling g) old _ e (λ n. other cc)
        (λ h n. h (ground (arith, lookup-insert g host none s.function_map))) v
]
look_found-IsExclusive host s i g old (some none) e l v = v
look_found-IsExclusive host s i g old (some (some re)) e l v =
    leave-IsExclusive host s i _ old s.function_map e (λ h. cc) (λ h. h) v

finish-IsExclusive :
    (host : ℕ) (s : Pool) (i g : ℕ) (old : PoolThread) (r : Option ℕ)
    → get_elem? s.threads i ≡ some old
    → IsExclusive host s
    → IsExclusive host (finish s i g r)
unfolding finish
finish-IsExclusive host s i g old none e v =
    leave-IsExclusive host s i _ old s.function_map e (λ h. cc) (λ h. h) v
finish-IsExclusive host s i g old (some ret) e v =
    leave-IsExclusive host s i _ old _ e (λ h. cc)
      (λ h n. h (ground (arith, lookup-insert g host (some ret) s.function_map))) v

remove-IsExclusive :
    (host : ℕ) (s : Pool) (g : ℕ) (r : Option (Option ℕ))
    → g ≢ host
    → IsExclusive host s
    → IsExclusive host (remove_function_internal s g r)
unfolding remove_function_internal
remove-IsExclusive host s g none other v = v
remove-IsExclusive host s g (some cb) other v = record {
  present = λ j h n. v.present j h (ground (arith, lookup-erase g host s.function_map));
  alone = v.alone;
}

step_at-IsExclusive :
    (host : ℕ) (s : Pool) (a : Action) (t : Option PoolThread)
    → get_elem? s.threads (actor a) ≡ t
    → Keeps host a
    → IsExclusive host s
    → IsExclusive host (step_at s a t)
unfolding step_at
step_at-IsExclusive host s (remove g) t e q v =
    remove-IsExclusive host s g (lookup g s.function_map) q v
step_at-IsExclusive host s (get_or_create i g) (some idle) e q v =
    leave-IsExclusive host s i _ idle s.function_map e (λ h. cc) (λ h. h) v
step_at-IsExclusive host s (get_or_create i g) (some (returned k r)) e q v =
    leave-IsExclusive host s i _ (returned k r) s.function_map e (λ h. cc) (λ h. h) v
step_at-IsExclusive host s (recompile i g) (some idle) e q v =
    leave-IsExclusive host s i _ idle s.function_map e (λ h. cc) (λ h. h) v
step_at-IsExclusive host s (recompile i g) (some (returned k r)) e q v =
    leave-IsExclusive host s i _ (returned k r) s.function_map e (λ h. cc) (λ h. h) v
step_at-IsExclusive host s (look i) (some (looking g)) e q v =
    look_found-IsExclusive host s i g (looking g) (lookup g s.function_map) e refl v
step_at-IsExclusive host s (answer i r) (some (compiling g)) e q v =
    finish-IsExclusive host s i g (compiling g) r e v
step_at-IsExclusive host s (answer i r) (some (recompiling g)) e q v =
    finish-IsExclusive host s i g (recompiling g) r e v
step_at-IsExclusive host s _ _ e q v = v

-- For each host: as long as nobody removes the host, whatever the threads are told and whatever the
-- compilers answer, in every order of their steps and of the removals of other hosts at most one
-- thread compiles the host for `get_or_create`, and then the host has an entry.
pub steps-IsExclusive :
    (host : ℕ) (actions : List Action) (s : Pool)
    → All (Keeps host) actions
    → IsExclusive host s
    → IsExclusive host (steps s actions)
unfolding steps step
steps-IsExclusive host [] s q v = v
steps-IsExclusive host (a ∷ rest) s q v =
    steps-IsExclusive host rest (step s a) q.1
      (step_at-IsExclusive host s a (get_elem? s.threads (actor a)) refl q.0 v)
