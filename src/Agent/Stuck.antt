-- ===== src/Agent/Stuck.antt =====
-- What the pool does with a host that it could not compile.
use microjit.Prelude.{
  ℕ, ◌≡◌, ◌≢◌, refl, ap, ◌∙◌, inl, inr, List, [], ◌∷◌, Option, none, some, get_elem?, set, All,
  get_elem?-set, arith,
}
use native.Mathlib.Decide.{ℕ_discrete}
use microjit.Prelude.Dict.{lookup, lookup-insert, lookup-erase}
use microjit.Agent.Pooled.{
  PoolThread, idle, looking, compiling, recompiling, returned, Pool, Action, get_or_create,
  recompile, look, answer, remove, look_found, finish, remove_function_internal, step_at, step,
  steps, actor,
}
use microjit.Agent.Exclusion.{Compiling, IsExclusive, set-cases}

-- The thread does nothing that could give `host` code.
abbrev Harmless : ℕ → PoolThread → Type 0
Harmless host t = (t ≢ compiling host) × (t ≢ recompiling host)

-- The placeholder of `host` stands in the map, and no thread will replace it.
pub record IsStuck (host : ℕ) (s : Pool) : Type 0 where
  pub placeholder : lookup host s.function_map ≡ some none
  pub harmless : (i : ℕ) (t : PoolThread) → get_elem? s.threads i ≡ some t → Harmless host t

-- The action does not ask for a new compilation of `host`, and does not remove it.
abbrev pub Quiet : ℕ → Action → Type 0
Quiet host (recompile i g) = g ≢ host
Quiet host (remove g) = g ≢ host
Quiet host _ = Unit

leave-IsStuck :
    (host : ℕ) (s : Pool) (i : ℕ) (t old : PoolThread) (m : List (ℕ × Option ℕ))
    → get_elem? s.threads i ≡ some old
    → Harmless host t
    → lookup host m ≡ some none
    → IsStuck host s
    → IsStuck host (record s { function_map = m; threads = set s.threads i t })
leave-IsStuck host s i t old m e ok l v = record {
  placeholder = l;
  harmless = λ j u h. elim (set-cases s.threads i j t old u e h) [
    | inl same ↦ (λ n. ok.0 (same.1 ∙ n), λ n. ok.1 (same.1 ∙ n))
    | inr at ↦ v.harmless j u at
  ];
}

look_found-IsStuck :
    (host : ℕ) (s : Pool) (i g : ℕ) (old : PoolThread) (r : Option (Option ℕ))
    → get_elem? s.threads i ≡ some old
    → lookup g s.function_map ≡ r
    → IsStuck host s
    → IsStuck host (look_found s i g r)
unfolding look_found
look_found-IsStuck host s i g old none e l v =
    let other : g ≢ host = λ same. ground (arith, v.placeholder) in
    leave-IsStuck host s i (compiling g) old _ e ((λ n. other cc), λ n. cc)
      (ground (arith, lookup-insert g host none s.function_map, v.placeholder)) v
look_found-IsStuck host s i g old (some none) e l v = v
look_found-IsStuck host s i g old (some (some re)) e l v =
    leave-IsStuck host s i _ old s.function_map e ((λ n. cc), λ n. cc) v.placeholder v

finish-IsStuck :
    (host : ℕ) (s : Pool) (i g : ℕ) (old : PoolThread) (r : Option ℕ)
    → get_elem? s.threads i ≡ some old
    → g ≢ host
    → IsStuck host s
    → IsStuck host (finish s i g r)
unfolding finish
finish-IsStuck host s i g old none e other v =
    leave-IsStuck host s i _ old s.function_map e ((λ n. cc), λ n. cc) v.placeholder v
finish-IsStuck host s i g old (some ret) e other v =
    leave-IsStuck host s i _ old _ e ((λ n. cc), λ n. cc)
      (ground (arith, lookup-insert g host (some ret) s.function_map, v.placeholder)) v

remove-IsStuck :
    (host : ℕ) (s : Pool) (g : ℕ) (r : Option (Option ℕ))
    → g ≢ host
    → IsStuck host s
    → IsStuck host (remove_function_internal s g r)
unfolding remove_function_internal
remove-IsStuck host s g none other v = v
remove-IsStuck host s g (some cb) other v = record {
  placeholder = ground (arith, lookup-erase g host s.function_map, v.placeholder);
  harmless = v.harmless;
}

remove_function_internal-threads :
    (s : Pool) (g : ℕ) (r : Option (Option ℕ))
    → (remove_function_internal s g r).threads ≡ s.threads
unfolding remove_function_internal
remove_function_internal-threads s g none = refl
remove_function_internal-threads s g (some cb) = refl

step_at-IsStuck :
    (host : ℕ) (s : Pool) (a : Action) (t : Option PoolThread)
    → get_elem? s.threads (actor a) ≡ t
    → Quiet host a
    → IsStuck host s
    → IsStuck host (step_at s a t)
unfolding step_at
step_at-IsStuck host s (get_or_create i g) (some idle) e q v =
    leave-IsStuck host s i _ idle s.function_map e ((λ n. cc), λ n. cc) v.placeholder v
step_at-IsStuck host s (recompile i g) (some idle) e q v =
    leave-IsStuck host s i _ idle s.function_map e ((λ n. cc), λ n. q cc) v.placeholder v
step_at-IsStuck host s (get_or_create i g) (some (returned k r)) e q v =
    leave-IsStuck host s i _ (returned k r) s.function_map e ((λ n. cc), λ n. cc) v.placeholder v
step_at-IsStuck host s (recompile i g) (some (returned k r)) e q v =
    leave-IsStuck host s i _ (returned k r) s.function_map e ((λ n. cc), λ n. q cc) v.placeholder v
step_at-IsStuck host s (remove g) t e q v = remove-IsStuck host s g (lookup g s.function_map) q v
step_at-IsStuck host s (look i) (some (looking g)) e q v =
    look_found-IsStuck host s i g (looking g) (lookup g s.function_map) e refl v
step_at-IsStuck host s (answer i r) (some (compiling g)) e q v =
    finish-IsStuck host s i g (compiling g) r e (λ same. (v.harmless i _ e).0 cc) v
step_at-IsStuck host s (answer i r) (some (recompiling g)) e q v =
    finish-IsStuck host s i g (recompiling g) r e (λ same. (v.harmless i _ e).1 cc) v
step_at-IsStuck host s _ _ e q v = v

-- A write elsewhere leaves a thread that looks for `host` where it is.
stay-looking :
    (xs : List PoolThread) (host i j : ℕ) (t old : PoolThread)
    → get_elem? xs i ≡ some old
    → old ≢ looking host
    → get_elem? xs j ≡ some (looking host)
    → get_elem? (set xs i t) j ≡ some (looking host)
stay-looking xs host i j t old e other at = elim (ℕ_discrete i j) [
  | yes same ↦ absurd (other (ground arith))
  | no apart ↦ ground (arith, get_elem?-set xs i j t old e)
]

look_found-looking :
    (host : ℕ) (s : Pool) (i j g : ℕ) (r : Option (Option ℕ))
    → get_elem? s.threads i ≡ some (looking g)
    → lookup g s.function_map ≡ r
    → lookup host s.function_map ≡ some none
    → get_elem? s.threads j ≡ some (looking host)
    → get_elem? (look_found s i g r).threads j ≡ some (looking host)
unfolding look_found
look_found-looking host s i j g none e l p at =
    stay-looking s.threads host i j (compiling g) _ e
      (λ n. let same : g ≡ host = cc in ground arith) at
look_found-looking host s i j g (some none) e l p at = at
look_found-looking host s i j g (some (some re)) e l p at =
    stay-looking s.threads host i j _ _ e (λ n. let same : g ≡ host = cc in ground arith) at

finish-looking :
    (host : ℕ) (s : Pool) (i j g : ℕ) (old : PoolThread) (r : Option ℕ)
    → get_elem? s.threads i ≡ some old
    → old ≢ looking host
    → get_elem? s.threads j ≡ some (looking host)
    → get_elem? (finish s i g r).threads j ≡ some (looking host)
unfolding finish
finish-looking host s i j g old none e other at = stay-looking s.threads host i j _ old e other at
finish-looking host s i j g old (some ret) e other at =
    stay-looking s.threads host i j _ old e other at

-- A thread that looks for the host of a stuck pool looks for it after the step as well.
step_at-looking :
    (host : ℕ) (s : Pool) (a : Action) (t : Option PoolThread) (j : ℕ)
    → get_elem? s.threads (actor a) ≡ t
    → lookup host s.function_map ≡ some none
    → get_elem? s.threads j ≡ some (looking host)
    → get_elem? (step_at s a t).threads j ≡ some (looking host)
unfolding step_at
step_at-looking host s (get_or_create i g) (some idle) j e l at =
    stay-looking s.threads host i j _ idle e (λ n. cc) at
step_at-looking host s (recompile i g) (some idle) j e l at =
    stay-looking s.threads host i j _ idle e (λ n. cc) at
step_at-looking host s (get_or_create i g) (some (returned k r)) j e l at =
    stay-looking s.threads host i j _ (returned k r) e (λ n. cc) at
step_at-looking host s (recompile i g) (some (returned k r)) j e l at =
    stay-looking s.threads host i j _ (returned k r) e (λ n. cc) at
step_at-looking host s (remove g) t j e l at =
    ap (λ ts. get_elem? ts j) (remove_function_internal-threads s g (lookup g s.function_map)) ∙ at
step_at-looking host s (look i) (some (looking g)) j e l at =
    look_found-looking host s i j g (lookup g s.function_map) e refl l at
step_at-looking host s (answer i r) (some (compiling g)) j e l at =
    finish-looking host s i j g (compiling g) r e (λ n. cc) at
step_at-looking host s (answer i r) (some (recompiling g)) j e l at =
    finish-looking host s i j g (recompiling g) r e (λ n. cc) at
step_at-looking host s _ _ j e l at = at

steps-looking :
    (actions : List Action) (host : ℕ) (s : Pool) (j : ℕ)
    → IsStuck host s
    → All (Quiet host) actions
    → get_elem? s.threads j ≡ some (looking host)
    → get_elem? (steps s actions).threads j ≡ some (looking host)
unfolding steps step
steps-looking [] host s j v q at = at
steps-looking (a ∷ rest) host s j v q at =
    steps-looking rest host (step s a) j
      (step_at-IsStuck host s a (get_elem? s.threads (actor a)) refl q.0 v) q.1
      (step_at-looking host s a (get_elem? s.threads (actor a)) j refl v.placeholder at)

-- The error of the only thread that compiles a host leaves the pool stuck.
answer-IsStuck :
    (s : Pool) (i host : ℕ)
    → IsExclusive host s
    → Compiling s i host
    → lookup host s.function_map ≡ some none
    → ((k : ℕ) → get_elem? s.threads k ≢ some (recompiling host))
    → IsStuck host (step s (answer i none))
unfolding step step_at finish
answer-IsStuck s i host v at l alone = rw at (record {
  placeholder = l;
  harmless = λ k u h. (
    λ n. elim (set-cases s.threads i k (returned host none) (compiling host) u at h) [
      | inl same ↦ cc
      | inr other ↦
          let one : i ≡ k = v.alone i k at (other ∙ ap some n) in
          ground (arith, get_elem?-set s.threads i k (returned host none) (compiling host) at)
    ],
    λ n. elim (set-cases s.threads i k (returned host none) (compiling host) u at h) [
      | inl same ↦ cc
      | inr other ↦ alone k (ground arith)
    ],
  );
})

-- After the compilation of a host for `get_or_create` has failed in a pool where one thread compiled it
-- and nobody recompiles it, a thread that looks for the host goes on looking for it after any further
-- actions, as long as none of them asks to recompile the host or removes it: until then it does not
-- return.
pub answer-looking :
    (s : Pool) (i j host : ℕ) (actions : List Action)
    → IsExclusive host s
    → Compiling s i host
    → lookup host s.function_map ≡ some none
    → ((k : ℕ) → get_elem? s.threads k ≢ some (recompiling host))
    → get_elem? s.threads j ≡ some (looking host)
    → All (Quiet host) actions
    → get_elem? (steps s (answer i none ∷ actions)).threads j ≡ some (looking host)
unfolding steps step
answer-looking s i j host actions v at l alone here q =
    steps-looking actions host (step s (answer i none)) j (answer-IsStuck s i host v at l alone) q
      (step_at-looking host s (answer i none) (get_elem? s.threads i) j refl l here)
