-- ===== src/Agent/Removal.antt =====
-- `remove_function` of the pool while the host is being compiled.
use microjit.Prelude.{
  ℕ, ◌≡◌, ◌≢◌, refl, sym, ap, ◌∙◌, [], ◌∷◌, Option, none, some, get_elem?, get_elem?-set, arith,
}
use microjit.Prelude.Dict.{lookup, lookup-erase}
use microjit.Agent.Pooled.{
  looking, compiling, Pool, look, remove, look_found, remove_function_internal, step_at, step,
  steps,
}
use microjit.Agent.Exclusion.{Compiling}

-- whatever stood there, the host has no entry afterwards
removed-none :
    (s : Pool) (host : ℕ) (r : Option (Option ℕ))
    → lookup host s.function_map ≡ r
    → lookup host (remove_function_internal s host r).function_map ≡ none
unfolding remove_function_internal
removed-none s host none e = e
removed-none s host (some cb) e = lookup-erase host host s.function_map ∙ ground arith

removed-threads :
    (s : Pool) (host : ℕ) (r : Option (Option ℕ))
    → (remove_function_internal s host r).threads ≡ s.threads
unfolding remove_function_internal
removed-threads s host none = refl
removed-threads s host (some cb) = refl

look-both :
    (s : Pool) (i j host : ℕ)
    → Compiling s i host
    → get_elem? s.threads j ≡ some (looking host)
    → lookup host s.function_map ≡ none
    → Compiling (step s (look j)) i host × Compiling (step s (look j)) j host
unfolding step step_at look_found
look-both s i j host at here absent =
    let apart : j ≢ i = λ same.
      (let both : some (looking host) ≡ some (compiling host) =
          sym here ∙ ap (get_elem? s.threads) same ∙ at in
        cc) in
    rw here (
      rw absent (
        ground (arith, get_elem?-set s.threads j i (compiling host) (looking host) here),
        ground (arith, get_elem?-set s.threads j j (compiling host) (looking host) here),
      ))

-- If a host is removed while a thread compiles it for `get_or_create`, a thread that looks for the host
-- next compiles it as well: both do at the same time.
pub remove-Compiling :
    (s : Pool) (i j host : ℕ)
    → Compiling s i host
    → get_elem? s.threads j ≡ some (looking host)
    → Compiling (steps s (remove host ∷ look j ∷ [])) i host
      × Compiling (steps s (remove host ∷ look j ∷ [])) j host
unfolding steps step step_at
remove-Compiling s i j host at here =
    let found = lookup host s.function_map in
    let after : Pool = remove_function_internal s host found in
    let same : after.threads ≡ s.threads = removed-threads s host found in
    look-both after i j host (ap (λ ts. get_elem? ts i) same ∙ at)
      (ap (λ ts. get_elem? ts j) same ∙ here) (removed-none s host found refl)
