-- ===== src/Codegen/Unregistered.antt =====
-- `compile_internal` of src/microjit/jit_x86_64.cpp on a branch in a scope that `create_scope` has made.
use microjit.Prelude.{ℕ, zero, suc, ◌≤◌, ◌<◌, ◌≡◌, [], ◌∷◌, Option, none, some, arith}
use microjit.Prelude.Dict
use microjit.Raise.{Result, Ensures, raised, Ensures-bind}
use microjit.Ir.{Branch, scope_create, branch}
use microjit.Ir.Snapshot.{Snapshot, done, leaf, enter, scope_count}
use microjit.Frame.{StackFrameInfo}
use microjit.Codegen.Calls.{Compiled}
use microjit.Codegen.Branches.{BranchesReport}
use microjit.Codegen.Scopes.{Context}
use microjit.Codegen.Compile.{
  fresh, scan, after_scan, round, compile_scopes, compile_with, compile_internal,
}
use microjit.Codegen.Fuel.{IsSome, create_branches_report-ends}
use microjit.Codegen.Whole.{both}
use microjit.Codegen.Registration.{IsUnregistered, Misses, create_branches_report-Misses}

-- nothing is returned
abbrev pub Throws : {A : Type 0} → Result A → Type 0
Throws = Ensures (λ a. ⊥)

compile_scopes-Throws :
    (fuel : ℕ) (c : Context) (k : ℕ) (b : Branch) (child rest after : Snapshot)
    → Dict.lookup b.address c.branches ≡ none
    → 2 ≤ fuel
    → Throws (
        compile_scopes fuel c
          (fresh (enter (scope_create k) (enter (branch b) child rest) after) none ∷ [])
          [])
unfolding compile_scopes round scan after_scan
compile_scopes-Throws zero c k b child rest after h g = absurd (omega arith)
compile_scopes-Throws (suc zero) c k b child rest after h g = absurd (omega arith)
compile_scopes-Throws (suc (suc fuel)) c k b child rest after h g = rw h raised

compile_with-Throws :
    (fuel : ℕ) (caller_of : ℕ → ℕ) (frame : StackFrameInfo) (func : Compiled) (k : ℕ) (b : Branch)
    (child rest after : Snapshot) (report : Option BranchesReport)
    → 2 ≤ fuel
    → IsSome report × Misses b.address report
    → Throws (
        compile_with fuel caller_of frame func
          (enter (scope_create k) (enter (branch b) child rest) after)
          report)
unfolding compile_with Misses
compile_with-Throws fuel caller_of frame func k b child rest after none h g = elim g.0 [ ]
compile_with-Throws fuel caller_of frame func k b child rest after (some report) h g =
    Ensures-bind (compile_scopes-Throws fuel _ k b child rest after g.1 h)
      λ code never. elim never [ ]

scope_count-positive : (scope : Snapshot) → 0 < scope_count scope
unfolding scope_count
scope_count-positive done = omega arith
scope_count-positive (leaf ins rest) = scope_count-positive rest
scope_count-positive (enter ins child rest) = let h = scope_count-positive rest in omega arith

-- A function whose first instruction opens a scope by `create_scope` that begins with a branch is never
-- compiled, unless what follows the scope has that same branch: given rounds for the number of scopes,
-- `compile_internal` throws.
pub compile_internal-Throws :
    (fuel : ℕ) (caller_of : ℕ → ℕ) (frame : StackFrameInfo) (func : Compiled) (k : ℕ) (b : Branch)
    (child rest after : Snapshot)
    → scope_count (enter (scope_create k) (enter (branch b) child rest) after) ≤ fuel
    → IsUnregistered b.address after
    → Throws (
        compile_internal fuel caller_of frame func
          (enter (scope_create k) (enter (branch b) child rest) after))
unfolding compile_internal IsUnregistered scope_count
compile_internal-Throws fuel caller_of frame func k b child rest after h g =
    let p = scope_count-positive child in
    let q = scope_count-positive rest in
    let r = scope_count-positive after in
    let main_scope : Snapshot = enter (scope_create k) (enter (branch b) child rest) after in
    Ensures-bind
      (both _ (create_branches_report-ends fuel main_scope h)
        (create_branches_report-Misses b.address fuel main_scope g))
      λ report e.
        compile_with-Throws fuel caller_of frame func k b child rest after report (omega arith) e
