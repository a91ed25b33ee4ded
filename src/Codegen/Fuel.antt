-- ===== src/Codegen/Fuel.antt =====
-- How many rounds the loops of `compile_internal` and `create_branches_report` in
-- src/microjit/jit_x86_64.cpp take.
use microjit.Prelude.{
  ℕ, zero, suc, ◌+◌, ◌*◌, ◌≤◌, ◌<◌, ◌≡◌, refl, List, [], ◌∷◌, ◌++◌, Option, none, some, arith,
}
use microjit.Prelude.Dict
use microjit.Raise.{
  Result, ok, raise, Ensures, returned, raised, Ensures-any, Ensures-or_raise, Ensures-bind,
  out_of_range,
}
use microjit.Ir.{
  Branch, declare_variable, construct, copy_construct, assign, return_from, scope_create, convert,
  primitive_convert, invoke, branch, break_loop,
}
use microjit.Ir.Snapshot.{Snapshot, done, leaf, enter, scope_count}
use microjit.Codegen.Asm.{Code}
use microjit.Codegen.Branches.{
  BranchesReport, branches_of, register_branch, branches_loop, create_branches_report,
}
use microjit.Codegen.Scopes.{
  ScopeInfo, Context, Loops, emit_plain, emit_return, emit_break, emit_branch,
}
use microjit.Codegen.Compile.{
  Outcome, ended, left, entered, visit, prepend, scan, close_scope, after_scan, round, prepend_some,
  compile_scopes,
}

-- the scopes that are in the branches of the queue
abbrev queued : List (Branch × Snapshot) → ℕ
queued [] = 0
queued ((b, scope) ∷ queue) = scope_count scope + queued queue

queued-append : (xs ys : List (Branch × Snapshot)) → queued (xs ++ ys) ≡ queued xs + queued ys
queued-append [] ys = omega arith
queued-append ((b, scope) ∷ xs) ys = let rest = queued-append xs ys in omega arith

queued-branches_of : (scope : Snapshot) → queued (branches_of scope) < scope_count scope
unfolding branches_of scope_count
queued-branches_of done = omega arith
queued-branches_of (leaf ins rest) = queued-branches_of rest
queued-branches_of (enter (branch b) child rest) = let ih = queued-branches_of rest in omega arith
queued-branches_of (enter (declare_variable v) child rest) =
    let ih = queued-branches_of rest in omega arith
queued-branches_of (enter (construct v ctor) child rest) =
    let ih = queued-branches_of rest in omega arith
queued-branches_of (enter (copy_construct v x ctor) child rest) =
    let ih = queued-branches_of rest in omega arith
queued-branches_of (enter (assign v x ctor) child rest) =
    let ih = queued-branches_of rest in omega arith
queued-branches_of (enter (return_from v) child rest) =
    let ih = queued-branches_of rest in omega arith
queued-branches_of (enter (scope_create scope) child rest) =
    let ih = queued-branches_of rest in omega arith
queued-branches_of (enter (convert v w f) child rest) =
    let ih = queued-branches_of rest in omega arith
queued-branches_of (enter (primitive_convert v w f) child rest) =
    let ih = queued-branches_of rest in omega arith
queued-branches_of (enter (invoke ins) child rest) = let ih = queued-branches_of rest in omega arith
queued-branches_of (enter break_loop child rest) = let ih = queued-branches_of rest in omega arith

-- what a loop ends with that had enough fuel
pub data IsSome {ℓ} {A : Type ℓ} : Option A → Type ℓ where
  is_some : {a : A} → IsSome (some a)

branches_loop-ends :
    (fuel : ℕ) (queue : List (Branch × Snapshot)) (report : BranchesReport)
    → queued queue < fuel
    → Ensures IsSome (branches_loop fuel queue report)
unfolding branches_loop
branches_loop-ends zero queue report h = absurd (omega arith)
branches_loop-ends (suc fuel) [] report h = returned is_some
branches_loop-ends (suc fuel) ((b, scope) ∷ queue) report h =
    Ensures-any (register_branch b report) λ next.
      let e = queued-append queue (branches_of scope) in
      let g = queued-branches_of scope in
      branches_loop-ends fuel (queue ++ branches_of scope) next (omega arith)

pub create_branches_report-ends :
    (fuel : ℕ) (scope : Snapshot)
    → scope_count scope ≤ fuel
    → Ensures IsSome (create_branches_report fuel scope)
unfolding create_branches_report
create_branches_report-ends fuel scope h =
    let g = queued-branches_of scope in branches_loop-ends fuel (branches_of scope) _ (omega arith)

-- the rounds that the rest of a scope takes: one to its end, and one more with each scope that is
-- entered
unfoldable pub weight : Snapshot → ℕ
weight done = 1
weight (leaf ins rest) = weight rest
weight (enter ins child rest) = 1 + weight child + weight rest

pub weight_lem : (scope : Snapshot) → weight scope + 1 ≡ 2 * scope_count scope
unfolding weight scope_count
weight_lem done = refl
weight_lem (leaf ins rest) = weight_lem rest
weight_lem (enter ins child rest) =
    let first = weight_lem child in let second = weight_lem rest in omega arith

weight-positive : (scope : Snapshot) → 0 < weight scope
weight-positive scope = let e = weight_lem scope in let g = queued-branches_of scope in omega arith

abbrev pub rounds_left : List ScopeInfo → ℕ
rounds_left [] = 0
rounds_left (s ∷ stack) = weight s.rest + rounds_left stack

-- less remains to be done than the bound says
abbrev Shorter : ℕ → Code × Outcome → Type 0
Shorter n (code, ended s loops) = Unit
Shorter n (code, left loops) = Unit
Shorter n (code, entered s child loops) = weight s.rest + weight child.rest < n

prepend-Shorter :
    (n : ℕ) (code : Code) (m : Result (Code × Outcome))
    → Ensures (Shorter n) m
    → Ensures (Shorter n) (prepend code m)
prepend-Shorter n code (ok (xs, ended s loops)) (returned h) = returned h
prepend-Shorter n code (ok (xs, left loops)) (returned h) = returned h
prepend-Shorter n code (ok (xs, entered s child loops)) (returned h) = returned h
prepend-Shorter n code (raise e) h = raised

scan-Shorter :
    (c : Context) (s : ScopeInfo) (stack : List ScopeInfo) (loops : Loops) (scope : Snapshot)
    → Ensures (Shorter (weight scope)) (scan c s stack loops scope)
unfolding scan weight
scan-Shorter c s stack loops done = returned tt
scan-Shorter c s stack loops (leaf (return_from v) rest) =
    Ensures-any (emit_return c (visit s) stack v) λ code. returned tt
scan-Shorter c s stack loops (leaf break_loop rest) =
    Ensures-any (emit_break c (visit s) loops)
      λ code. prepend-Shorter _ _ _ (scan-Shorter c (visit s) stack loops rest)
scan-Shorter c s stack loops (leaf (declare_variable v) rest) =
    Ensures-any (emit_plain c (declare_variable v))
      λ code. prepend-Shorter _ _ _ (scan-Shorter c (visit s) stack loops rest)
scan-Shorter c s stack loops (leaf (construct v ctor) rest) =
    Ensures-any (emit_plain c (construct v ctor))
      λ code. prepend-Shorter _ _ _ (scan-Shorter c (visit s) stack loops rest)
scan-Shorter c s stack loops (leaf (copy_construct v x ctor) rest) =
    Ensures-any (emit_plain c (copy_construct v x ctor))
      λ code. prepend-Shorter _ _ _ (scan-Shorter c (visit s) stack loops rest)
scan-Shorter c s stack loops (leaf (assign v x ctor) rest) =
    Ensures-any (emit_plain c (assign v x ctor))
      λ code. prepend-Shorter _ _ _ (scan-Shorter c (visit s) stack loops rest)
scan-Shorter c s stack loops (leaf (scope_create scope) rest) =
    Ensures-any (emit_plain c (scope_create scope))
      λ code. prepend-Shorter _ _ _ (scan-Shorter c (visit s) stack loops rest)
scan-Shorter c s stack loops (leaf (convert v w f) rest) =
    Ensures-any (emit_plain c (convert v w f))
      λ code. prepend-Shorter _ _ _ (scan-Shorter c (visit s) stack loops rest)
scan-Shorter c s stack loops (leaf (primitive_convert v w f) rest) =
    Ensures-any (emit_plain c (primitive_convert v w f))
      λ code. prepend-Shorter _ _ _ (scan-Shorter c (visit s) stack loops rest)
scan-Shorter c s stack loops (leaf (invoke ins) rest) =
    Ensures-any (emit_plain c (invoke ins))
      λ code. prepend-Shorter _ _ _ (scan-Shorter c (visit s) stack loops rest)
scan-Shorter c s stack loops (leaf (branch b) rest) =
    Ensures-any (emit_plain c (branch b))
      λ code. prepend-Shorter _ _ _ (scan-Shorter c (visit s) stack loops rest)
scan-Shorter c s stack loops (enter (branch b) child rest) =
    Ensures-or_raise (Dict.lookup b.address c.branches) out_of_range
      λ info _. Ensures-any (emit_branch c b.branch_type info loops) λ r. returned (omega arith)
scan-Shorter c s stack loops (enter (declare_variable v) child rest) = returned (omega arith)
scan-Shorter c s stack loops (enter (construct v ctor) child rest) = returned (omega arith)
scan-Shorter c s stack loops (enter (copy_construct v x ctor) child rest) = returned (omega arith)
scan-Shorter c s stack loops (enter (assign v x ctor) child rest) = returned (omega arith)
scan-Shorter c s stack loops (enter (return_from v) child rest) = returned (omega arith)
scan-Shorter c s stack loops (enter (scope_create scope) child rest) = returned (omega arith)
scan-Shorter c s stack loops (enter (convert v w f) child rest) = returned (omega arith)
scan-Shorter c s stack loops (enter (primitive_convert v w f) child rest) = returned (omega arith)
scan-Shorter c s stack loops (enter (invoke ins) child rest) = returned (omega arith)
scan-Shorter c s stack loops (enter break_loop child rest) = returned (omega arith)

-- what a round leaves on the stack
abbrev FewerRounds : ℕ → Code × (List ScopeInfo × Loops) → Type 0
FewerRounds n r = rounds_left r.1.0 < n

after_scan-FewerRounds :
    (c : Context) (n : ℕ) (stack : List ScopeInfo) (r : Code × Outcome)
    → 0 < n
    → Shorter n r
    → Ensures (FewerRounds (n + rounds_left stack)) (after_scan c stack r)
unfolding after_scan
after_scan-FewerRounds c n stack (code, ended s loops) p h =
    Ensures-any (close_scope c s loops) λ r. returned (omega arith)
after_scan-FewerRounds c n stack (code, left loops) p h = returned (omega arith)
after_scan-FewerRounds c n stack (code, entered s child loops) p h = returned (omega arith)

round-FewerRounds :
    (c : Context) (s : ScopeInfo) (stack : List ScopeInfo) (loops : Loops)
    → Ensures (FewerRounds (rounds_left (s ∷ stack))) (round c s stack loops)
unfolding round
round-FewerRounds c s stack loops =
    Ensures-bind (scan-Shorter c s stack loops s.rest)
      λ r h. after_scan-FewerRounds c (weight s.rest) stack r (weight-positive s.rest) h

prepend_some-IsSome :
    (code : Code) (rest : Option Code) → IsSome rest → IsSome (prepend_some code rest)
prepend_some-IsSome code none h = elim h [ ]
prepend_some-IsSome code (some rest) is_some = is_some

pub compile_scopes-ends :
    (fuel : ℕ) (c : Context) (stack : List ScopeInfo) (loops : Loops)
    → rounds_left stack < fuel
    → Ensures IsSome (compile_scopes fuel c stack loops)
unfolding compile_scopes
compile_scopes-ends zero c stack loops h = absurd (omega arith)
compile_scopes-ends (suc fuel) c [] loops h = returned is_some
compile_scopes-ends (suc fuel) c (s ∷ stack) loops h =
    Ensures-bind (round-FewerRounds c s stack loops) λ r g.
      Ensures-bind (compile_scopes-ends fuel c r.1.0 r.1.1 (omega arith))
        λ rest k. returned (prepend_some-IsSome r.0 rest k)
