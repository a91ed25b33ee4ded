-- ===== src/Codegen/Whole.antt =====
-- The function that `compile_internal` of src/microjit/jit_x86_64.cpp emits, from its first instruction to
-- its last.
use microjit.Prelude.{ℕ, ◌*◌, ◌≤◌, ◌≡◌, refl, [], ◌∷◌, ◌++◌, Option, none, some, arith}
use microjit.Raise.{Result, ok, raise, Ensures, returned, raised, Ensures-bind}
use microjit.Ir.Snapshot.{Snapshot, scope_count}
use microjit.Frame.{StackFrameInfo}
use microjit.Codegen.Asm.{Code}
use microjit.Codegen.Calls.{Compiled}
use microjit.Codegen.Branches.{BranchesReport}
use microjit.Codegen.Scopes.{Context}
use microjit.Codegen.Compile.{fresh, prologue, epilogue, wrap, compile_with, compile_internal}
use microjit.Codegen.Balance.{Neutral}
use microjit.Codegen.Level.Rounds.{EndsNeutral, compile_scopes-Neutral}
use microjit.Codegen.Fuel.{IsSome, weight_lem, compile_scopes-ends, create_branches_report-ends}

-- the code of a function: between the prologue and the epilogue, a body that is neutral
pub IsFunction : StackFrameInfo → Option Code → Type 0
IsFunction frame code =
    (body : Code) × (exit_label : ℕ) × (code ≡ some (prologue frame ++ body ++ epilogue exit_label))
    × Neutral body

pub both :
    {A : Type 0} {P Q : A → Type 0} (m : Result A)
    → Ensures P m
    → Ensures Q m
    → Ensures (λ a. P a × Q a) m
both (ok a) (returned p) (returned q) = returned (p, q)
both (raise e) h g = raised

wrap-IsFunction :
    (frame : StackFrameInfo) (exit_label : ℕ) (code : Option Code)
    → IsSome code
    → EndsNeutral code
    → IsFunction frame (wrap frame exit_label code)
unfolding IsFunction
wrap-IsFunction frame exit_label none h g = elim h [ ]
wrap-IsFunction frame exit_label (some code) h g = (code, exit_label, refl, g)

compile_with-IsFunction :
    (fuel : ℕ) (caller_of : ℕ → ℕ) (frame : StackFrameInfo) (func : Compiled)
    (main_scope : Snapshot) (report : Option BranchesReport)
    → 2 * scope_count main_scope ≤ fuel
    → IsSome report
    → Ensures (IsFunction frame) (compile_with fuel caller_of frame func main_scope report)
unfolding compile_with
compile_with-IsFunction fuel caller_of frame func main_scope none h g = elim g [ ]
compile_with-IsFunction fuel caller_of frame func main_scope (some report) h g =
    let context : Context = record {
      frame = frame;
      branches = report.branch_map;
      func = func;
      exit_label = report.next_label;
      caller_of = caller_of;
    } in
    let e = weight_lem main_scope in
    Ensures-bind
      (both _ (compile_scopes-ends fuel context (fresh main_scope none ∷ []) [] (omega arith))
        (compile_scopes-Neutral fuel context (fresh main_scope none ∷ []) []))
      λ code k. returned (wrap-IsFunction frame report.next_label code k.0 k.1)

-- With fuel for twice the number of scopes, compiling ends, with an exception or with the code of a
-- function: its prologue, a body, and its epilogue. The body gives back what it takes from the stack,
-- takes back no more than it has, writes the stack pointer in no other way, and at each of its jumps
-- and labels the stack pointer is where the prologue has left it.
pub compile_internal-IsFunction :
    (fuel : ℕ) (caller_of : ℕ → ℕ) (frame : StackFrameInfo) (func : Compiled)
    (main_scope : Snapshot)
    → 2 * scope_count main_scope ≤ fuel
    → Ensures (IsFunction frame) (compile_internal fuel caller_of frame func main_scope)
unfolding compile_internal
compile_internal-IsFunction fuel caller_of frame func main_scope h =
    Ensures-bind (create_branches_report-ends fuel main_scope (omega arith))
      λ report g. compile_with-IsFunction fuel caller_of frame func main_scope report h g
