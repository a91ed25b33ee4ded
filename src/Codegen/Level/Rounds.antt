-- ===== src/Codegen/Level/Rounds.antt =====
-- The code of the rounds of the two loops: wherever a jump leaves and wherever a label is bound, the
-- stack pointer is where the prologue has left it.
use microjit.Prelude.{ℕ, zero, suc, List, [], ◌∷◌, ◌++◌, Option, none, some}
use microjit.Prelude.Dict
use microjit.Raise.{◌>>=◌, Ensures, returned, Ensures-or_raise, Ensures-bind, out_of_range}
use microjit.Ir.{
  Instruction, declare_variable, construct, copy_construct, assign, return_from, scope_create,
  convert, primitive_convert, invoke, branch, break_loop,
}
use microjit.Ir.Snapshot.{Snapshot, done, leaf, enter}
use microjit.Codegen.Asm.{Code}
use microjit.Codegen.Scopes.{ScopeInfo, Context, Loops, emit_plain, bind_begin}
use microjit.Codegen.Compile.{
  Outcome, ended, left, entered, visit, prepend, scan, after_scan, round, prepend_some,
  compile_scopes,
}
use microjit.Codegen.Balance.{Neutral, Neutral-append}
use microjit.Codegen.Level.Instructions.{emit_plain-Level}
use microjit.Codegen.Level.Scopes.{
  Starts, nothing-Neutral, bind_begin-Neutral, Ensures-prepend, emit_return-Neutral,
  emit_break-Neutral, emit_branch-Neutral, close_scope-Neutral,
}

-- an instruction that neither opens nor leaves a scope, given what follows it
plain-Neutral :
    (c : Context) (s : ScopeInfo) (stack : List ScopeInfo) (loops : Loops) (ins : Instruction)
    (rest : Snapshot)
    → Ensures Starts (scan c (visit s) stack loops rest)
    → Ensures Starts (
        emit_plain c ins >>= λ code.
        prepend (bind_begin s ++ code) (scan c (visit s) stack loops rest))
plain-Neutral c s stack loops ins rest h = Ensures-bind (emit_plain-Level c ins) λ code g.
    Ensures-prepend (bind_begin s ++ code) _
      (Neutral-append (bind_begin s) code (bind_begin-Neutral s) (g 0)) h

pub scan-Neutral :
    (c : Context) (s : ScopeInfo) (stack : List ScopeInfo) (loops : Loops) (scope : Snapshot)
    → Ensures Starts (scan c s stack loops scope)
unfolding scan
scan-Neutral c s stack loops done = returned nothing-Neutral
scan-Neutral c s stack loops (leaf (return_from v) rest) =
    Ensures-bind (emit_return-Neutral c (visit s) stack v)
      λ code g. returned (Neutral-append (bind_begin s) code (bind_begin-Neutral s) g)
scan-Neutral c s stack loops (leaf break_loop rest) =
    Ensures-bind (emit_break-Neutral c (visit s) loops) λ code g.
      Ensures-prepend (bind_begin s ++ code) _
        (Neutral-append (bind_begin s) code (bind_begin-Neutral s) g)
        (scan-Neutral c (visit s) stack loops rest)
scan-Neutral c s stack loops (leaf (declare_variable v) rest) =
    plain-Neutral c s stack loops (declare_variable v) rest
      (scan-Neutral c (visit s) stack loops rest)
scan-Neutral c s stack loops (leaf (construct v ctor) rest) =
    plain-Neutral c s stack loops (construct v ctor) rest
      (scan-Neutral c (visit s) stack loops rest)
scan-Neutral c s stack loops (leaf (copy_construct v x ctor) rest) =
    plain-Neutral c s stack loops (copy_construct v x ctor) rest
      (scan-Neutral c (visit s) stack loops rest)
scan-Neutral c s stack loops (leaf (assign v x ctor) rest) =
    plain-Neutral c s stack loops (assign v x ctor) rest (scan-Neutral c (visit s) stack loops rest)
scan-Neutral c s stack loops (leaf (scope_create scope) rest) =
    plain-Neutral c s stack loops (scope_create scope) rest
      (scan-Neutral c (visit s) stack loops rest)
scan-Neutral c s stack loops (leaf (convert v w f) rest) =
    plain-Neutral c s stack loops (convert v w f) rest (scan-Neutral c (visit s) stack loops rest)
scan-Neutral c s stack loops (leaf (primitive_convert v w f) rest) =
    plain-Neutral c s stack loops (primitive_convert v w f) rest
      (scan-Neutral c (visit s) stack loops rest)
scan-Neutral c s stack loops (leaf (invoke ins) rest) =
    plain-Neutral c s stack loops (invoke ins) rest (scan-Neutral c (visit s) stack loops rest)
scan-Neutral c s stack loops (leaf (branch b) rest) =
    plain-Neutral c s stack loops (branch b) rest (scan-Neutral c (visit s) stack loops rest)
scan-Neutral c s stack loops (enter (branch b) child rest) =
    Ensures-or_raise (Dict.lookup b.address c.branches) out_of_range λ info _.
      Ensures-bind (emit_branch-Neutral c b.branch_type info loops)
        λ r g. returned (Neutral-append (bind_begin s) r.0 (bind_begin-Neutral s) g)
scan-Neutral c s stack loops (enter (declare_variable v) child rest) =
    returned (bind_begin-Neutral s)
scan-Neutral c s stack loops (enter (construct v ctor) child rest) = returned (bind_begin-Neutral s)
scan-Neutral c s stack loops (enter (copy_construct v x ctor) child rest) =
    returned (bind_begin-Neutral s)
scan-Neutral c s stack loops (enter (assign v x ctor) child rest) = returned (bind_begin-Neutral s)
scan-Neutral c s stack loops (enter (return_from v) child rest) = returned (bind_begin-Neutral s)
scan-Neutral c s stack loops (enter (scope_create scope) child rest) =
    returned (bind_begin-Neutral s)
scan-Neutral c s stack loops (enter (convert v w f) child rest) = returned (bind_begin-Neutral s)
scan-Neutral c s stack loops (enter (primitive_convert v w f) child rest) =
    returned (bind_begin-Neutral s)
scan-Neutral c s stack loops (enter (invoke ins) child rest) = returned (bind_begin-Neutral s)
scan-Neutral c s stack loops (enter break_loop child rest) = returned (bind_begin-Neutral s)

after_scan-Neutral :
    (c : Context) (stack : List ScopeInfo) (r : Code × Outcome)
    → Starts r
    → Ensures Starts (after_scan c stack r)
unfolding after_scan
after_scan-Neutral c stack (code, ended s loops) h =
    Ensures-bind (close_scope-Neutral c s loops) λ r g. returned (Neutral-append code r.0 h g)
after_scan-Neutral c stack (code, left loops) h = returned h
after_scan-Neutral c stack (code, entered s child loops) h = returned h

pub round-Neutral :
    (c : Context) (s : ScopeInfo) (stack : List ScopeInfo) (loops : Loops)
    → Ensures Starts (round c s stack loops)
unfolding round
round-Neutral c s stack loops =
    Ensures-bind (scan-Neutral c s stack loops s.rest) (after_scan-Neutral c stack)

-- the code of all rounds, if there is an end
abbrev pub EndsNeutral : Option Code → Type 0
EndsNeutral none = Unit
EndsNeutral (some code) = Neutral code

prepend_some-Neutral :
    (code : Code) (rest : Option Code)
    → Neutral code
    → EndsNeutral rest
    → EndsNeutral (prepend_some code rest)
prepend_some-Neutral code none h g = tt
prepend_some-Neutral code (some rest) h g = Neutral-append code rest h g

pub compile_scopes-Neutral :
    (fuel : ℕ) (c : Context) (stack : List ScopeInfo) (loops : Loops)
    → Ensures EndsNeutral (compile_scopes fuel c stack loops)
unfolding compile_scopes
compile_scopes-Neutral zero c stack loops = returned tt
compile_scopes-Neutral (suc fuel) c [] loops = returned nothing-Neutral
compile_scopes-Neutral (suc fuel) c (s ∷ stack) loops =
    Ensures-bind (round-Neutral c s stack loops) λ r h.
      Ensures-bind (compile_scopes-Neutral fuel c r.1.0 r.1.1)
        λ rest g. returned (prepend_some-Neutral r.0 rest h g)
