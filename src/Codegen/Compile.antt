-- ===== src/Codegen/Compile.antt =====
-- The loops of `MicroJITCompiler_x86_64::compile_internal` in src/microjit/jit_x86_64.cpp: the inner
-- one over the instructions of a scope, the outer one over the stack of scopes, and the function.
use microjit.Prelude.{ℕ, zero, suc, ◌+◌, true, false, List, [], ◌∷◌, ◌++◌, Option, none, some}
use microjit.Prelude.Dict
use microjit.Raise.{Result, ok, raise, or_raise, ◌>>=◌, out_of_range}
use microjit.Ir.{Branch, return_from, branch, break_loop}
use microjit.Ir.Snapshot.{Snapshot, done, leaf, enter, variables}
use microjit.Frame.{StackFrameInfo}
use microjit.Codegen.Asm.{
  rdi, rbp, rsp, imm, mov, sub, push, bind, leave, ret, Code, r64, load_args_space,
}
use microjit.Codegen.Copies.{single_scope_destructor_call}
use microjit.Codegen.Calls.{Compiled}
use microjit.Codegen.Branches.{BranchInfo, BranchesReport, create_branches_report}
use microjit.Codegen.Scopes.{
  ScopeInfo, Context, Loops, bind_begin, leave_loop, emit_plain, emit_return, emit_break,
  emit_branch, close_branch,
}

-- how the inner loop ends: at the end of the scope, after a return, or at a scope that is entered
pub data Outcome : Type 0 where
  ended : ScopeInfo → Loops → Outcome
  left : Loops → Outcome
  entered : (current child : ScopeInfo) → Loops → Outcome

-- `ScopeInfo{ scope, -1, branch, info, false }`
abbrev pub fresh : Snapshot → Option (Branch × BranchInfo) → ScopeInfo
fresh scope b = record {
  whole = scope;
  rest = scope;
  next = 0;
  branch_instruction = b;
  registered_begin = false;
}

-- the scope at its next instruction, and at the one after it
abbrev pub visit : ScopeInfo → ScopeInfo
visit s = record s { next = s.next + 1; registered_begin = true }

-- code in front of what a call emits
abbrev pub prepend {ℓ} : {A : Type ℓ} → Code → Result (Code × A) → Result (Code × A)
prepend code (raise what) = raise what
prepend code (ok r) = ok (code ++ r.0, r.1)

-- the `for` loop over the instructions
unfoldable pub scan :
    Context → ScopeInfo → List ScopeInfo → Loops → Snapshot → Result (Code × Outcome)
scan c s stack loops done = ok ([], ended (record s { next = s.next + 1 }) loops)
scan c s stack loops (leaf (return_from v) rest) =
    emit_return c (visit s) stack v >>= λ code. ok (bind_begin s ++ code, left (leave_loop s loops))
scan c s stack loops (leaf break_loop rest) = emit_break c (visit s) loops >>= λ code.
    prepend (bind_begin s ++ code) (scan c (visit s) stack loops rest)
scan c s stack loops (leaf ins rest) =
    emit_plain c ins >>= λ code. prepend (bind_begin s ++ code) (scan c (visit s) stack loops rest)
scan c s stack loops (enter (branch b) child rest) =
    or_raise (Dict.lookup b.address c.branches) out_of_range >>= λ info.
    emit_branch c b.branch_type info loops >>= λ r. ok (
      bind_begin s ++ r.0,
      entered (record (visit s) { rest = rest }) (fresh child (some (b, info))) r.1,
    )
scan c s stack loops (enter _ child rest) =
    ok (bind_begin s, entered (record (visit s) { rest = rest }) (fresh child none) loops)

-- `// If exited naturally`
unfoldable pub close_branch_of :
    Context → Option (Branch × BranchInfo) → Loops → Result (Code × Loops)
close_branch_of c none loops = ok ([], loops)
close_branch_of c (some (b, info)) loops =
    prepend (bind info.end_of_scope ∷ []) (close_branch c b.branch_type info loops)

unfoldable pub close_scope : Context → ScopeInfo → Loops → Result (Code × Loops)
close_scope c s loops = single_scope_destructor_call c.frame s.next (variables s.whole) >>= λ code.
    prepend code (close_branch_of c s.branch_instruction loops)

-- what remains to be done after one round, with its code
unfoldable pub after_scan :
    Context → List ScopeInfo → Code × Outcome → Result (Code × (List ScopeInfo × Loops))
after_scan c stack (code, ended s loops) =
    close_scope c s loops >>= λ r. ok (code ++ r.0, (stack, r.1))
after_scan c stack (code, left loops) = ok (code, (stack, loops))
after_scan c stack (code, entered s child loops) = ok (code, (child ∷ s ∷ stack, loops))

-- one round of the `while` loop: the scope on top
unfoldable pub round :
    Context → ScopeInfo → List ScopeInfo → Loops → Result (Code × (List ScopeInfo × Loops))
round c s stack loops = scan c s stack loops s.rest >>= after_scan c stack

-- the code in front, if there is an end
abbrev pub prepend_some : Code → Option Code → Option Code
prepend_some code none = none
prepend_some code (some rest) = some (code ++ rest)

-- the `while` loop, with fuel; `none` in place of code: the fuel ran out
unfoldable pub compile_scopes : ℕ → Context → List ScopeInfo → Loops → Result (Option Code)
compile_scopes zero c stack loops = ok none
compile_scopes (suc fuel) c [] loops = ok (some [])
compile_scopes (suc fuel) c (s ∷ stack) loops = round c s stack loops >>= λ r.
    compile_scopes fuel c r.1.0 r.1.1 >>= λ rest. ok (prepend_some r.0 rest)

unfoldable pub prologue : StackFrameInfo → Code
prologue frame =
    push (r64 rbp)
    ∷ mov (r64 rbp) (r64 rsp)
    ∷ sub (r64 rsp) (imm frame.max_frame_size)
    ∷ mov load_args_space (r64 rdi)
    ∷ []

unfoldable pub epilogue : (exit_label : ℕ) → Code
epilogue exit_label = bind exit_label ∷ leave ∷ ret ∷ []

abbrev pub wrap : StackFrameInfo → ℕ → Option Code → Option Code
wrap frame exit_label none = none
wrap frame exit_label (some code) = some (prologue frame ++ code ++ epilogue exit_label)

-- the body of `compile_internal`, with the reports
unfoldable pub compile_with :
    ℕ
    → (ℕ → ℕ)
    → StackFrameInfo
    → Compiled
    → Snapshot
    → Option BranchesReport
    → Result (Option Code)
compile_with fuel caller_of frame func main_scope none = ok none
compile_with fuel caller_of frame func main_scope (some report) =
    compile_scopes fuel
      (record {
        frame = frame;
        branches = report.branch_map;
        func = func;
        exit_label = report.next_label;
        caller_of = caller_of;
      })
      (fresh main_scope none ∷ []) []
    >>= λ code. ok (wrap frame report.next_label code)

-- `compile_internal`, up to the encoding of the code, given the frame report
unfoldable pub compile_internal :
    ℕ → (ℕ → ℕ) → StackFrameInfo → Compiled → Snapshot → Result (Option Code)
compile_internal fuel caller_of frame func main_scope =
    create_branches_report fuel main_scope >>= compile_with fuel caller_of frame func main_scope
