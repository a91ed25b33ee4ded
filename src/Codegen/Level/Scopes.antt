-- ===== src/Codegen/Level/Scopes.antt =====
-- The code around scopes jumps, and binds labels, only where nothing is on the stack.
use microjit.Prelude.{
  ℕ, refl, Bool, true, false, List, [], ◌∷◌, ◌++◌, Option, none, some, if◌then◌else◌,
}
use microjit.Prelude.Dict
use microjit.Raise.{
  Result, ok, raise, or_raise, ◌>>=◌, Ensures, returned, raised, Ensures-any, Ensures-or_raise,
  Ensures-bind, out_of_range,
}
use microjit.Ir.{Variable, Branch, BranchType, branch_if, branch_else, branch_while}
use microjit.Codegen.Asm.{byte, ra, reg, imm, cmp, jmp, je, jne, bind, Code}
use microjit.Codegen.Branches.{BranchInfo}
use microjit.Codegen.Scopes.{
  ScopeInfo, Context, Loops, bind_begin, emit_return, emit_break, false_target, emit_branch,
  close_branch,
}
use microjit.Codegen.Compile.{prepend, close_branch_of, close_scope}
use microjit.Codegen.Balance.{
  effect, depth_after, Neutral, Neutral-append, Level, then-Neutral, Ensures-Neutral,
}
use microjit.Codegen.Level.Copies.{
  single_scope_destructor_call-Level, iterative_destructor_call-Level,
}
use microjit.Codegen.Level.Expressions.{branch_eval-Level}
use microjit.Codegen.Level.Instructions.{emit_result-Level}

abbrev pub Starts : {A : Type 0} → Code × A → Type 0
Starts r = Neutral r.0

pub nothing-Neutral : Neutral []
unfolding depth_after
nothing-Neutral = refl

begin_of-Neutral :
    (b : Option (Branch × BranchInfo)) (t : Bool)
    → Neutral
        (elim b [ none ↦ [] | some (x, info) ↦ if t then [] else bind info.begin_of_scope ∷ [] ])
unfolding depth_after effect
begin_of-Neutral none t = refl
begin_of-Neutral (some (x, info)) true = refl
begin_of-Neutral (some (x, info)) false = refl

pub bind_begin-Neutral : (s : ScopeInfo) → Neutral (bind_begin s)
bind_begin-Neutral s = begin_of-Neutral s.branch_instruction s.registered_begin

end_of-Neutral :
    (b : Option (Branch × BranchInfo))
    → Neutral (elim b [ none ↦ [] | some (x, info) ↦ bind info.end_of_scope ∷ [] ])
unfolding depth_after effect
end_of-Neutral none = refl
end_of-Neutral (some (x, info)) = refl

-- code in front of a jump or a label, and of what follows
pub Ensures-prepend :
    {A : Type 0} (code : Code) (m : Result (Code × A))
    → Neutral code
    → Ensures Starts m
    → Ensures Starts (prepend code m)
Ensures-prepend code (ok r) h (returned g) = returned (Neutral-append code r.0 h g)
Ensures-prepend code (raise e) h g = raised

jump-Neutral : (label : ℕ) (code : Code) → Neutral code → Neutral (jmp label ∷ code)
unfolding depth_after effect
jump-Neutral label code h = h

pub emit_return-Neutral :
    (c : Context) (s : ScopeInfo) (stack : List ScopeInfo) (v : Option Variable)
    → Ensures Neutral (emit_return c s stack v)
unfolding emit_return
emit_return-Neutral c s stack v = then-Neutral _ _ (Ensures-Neutral _ (emit_result-Level c v _)) (
    then-Neutral _ _ (Ensures-Neutral _ (iterative_destructor_call-Level c.frame _))
      (returned (jump-Neutral c.exit_label _ (end_of-Neutral s.branch_instruction))))

pub emit_break-Neutral :
    (c : Context) (s : ScopeInfo) (loops : Loops) → Ensures Neutral (emit_break c s loops)
unfolding emit_break
emit_break-Neutral c s [] = returned nothing-Neutral
emit_break-Neutral c s (top ∷ loops) =
    then-Neutral _ _ (Ensures-Neutral _ (single_scope_destructor_call-Level c.frame s.next _))
      (returned (jump-Neutral top.loop_end_of_scope [] nothing-Neutral))

-- a condition, with the jump that follows it
if_jump-Neutral :
    (label : ℕ) (code : Code)
    → Level code
    → Neutral (code ++ cmp (reg byte ra) (imm 0) ∷ je label ∷ [])
unfolding depth_after effect
if_jump-Neutral label code h =
    Neutral-append code (cmp (reg byte ra) (imm 0) ∷ je label ∷ []) (h 0) refl

while_jump-Neutral :
    (label end_label : ℕ) (code : Code)
    → Level code
    → Neutral (code ++ cmp (reg byte ra) (imm 0) ∷ jne label ∷ bind end_label ∷ [])
unfolding depth_after effect
while_jump-Neutral label end_label code h =
    Neutral-append code (cmp (reg byte ra) (imm 0) ∷ jne label ∷ bind end_label ∷ []) (h 0) refl

pub emit_branch-Neutral :
    (c : Context) (t : BranchType) (info : BranchInfo) (loops : Loops)
    → Ensures Starts (emit_branch c t info loops)
unfolding emit_branch
emit_branch-Neutral c (branch_if condition) info loops =
    Ensures-bind (branch_eval-Level c.frame condition)
      λ code h. Ensures-any (false_target c info) λ target. returned (if_jump-Neutral target code h)
emit_branch-Neutral c branch_else info loops = returned nothing-Neutral
emit_branch-Neutral c (branch_while condition) info loops =
    returned (jump-Neutral info.end_of_scope [] nothing-Neutral)

after_if-Neutral :
    (c : Context) (else_branch : Option ℕ) (loops : Loops)
    → Ensures Starts (elim else_branch [
      | none ↦ ok ([], loops)
      | some else_address ↦
          or_raise (Dict.lookup else_address c.branches) out_of_range >>= λ else_info.
          ok (jmp else_info.end_of_scope ∷ [], loops)
    ])
after_if-Neutral c none loops = returned nothing-Neutral
after_if-Neutral c (some address) loops =
    Ensures-or_raise (Dict.lookup address c.branches) out_of_range
      λ else_info _. returned (jump-Neutral else_info.end_of_scope [] nothing-Neutral)

close_branch-Neutral :
    (c : Context) (t : BranchType) (info : BranchInfo) (loops : Loops)
    → Ensures Starts (close_branch c t info loops)
unfolding close_branch
close_branch-Neutral c (branch_if condition) info loops = after_if-Neutral c info.else_branch loops
close_branch-Neutral c branch_else info loops = returned nothing-Neutral
close_branch-Neutral c (branch_while condition) info [] = raised
close_branch-Neutral c (branch_while condition) info (top ∷ loops) =
    Ensures-bind (branch_eval-Level c.frame condition)
      λ code h. returned (while_jump-Neutral info.begin_of_scope info.loop_end_of_scope code h)

close_branch_of-Neutral :
    (c : Context) (b : Option (Branch × BranchInfo)) (loops : Loops)
    → Ensures Starts (close_branch_of c b loops)
unfolding close_branch_of
close_branch_of-Neutral c none loops = returned nothing-Neutral
close_branch_of-Neutral c (some (b, info)) loops =
    Ensures-prepend _ _ (end_of-Neutral (some (b, info)))
      (close_branch-Neutral c b.branch_type info loops)

pub close_scope-Neutral :
    (c : Context) (s : ScopeInfo) (loops : Loops) → Ensures Starts (close_scope c s loops)
unfolding close_scope
close_scope-Neutral c s loops =
    Ensures-bind (single_scope_destructor_call-Level c.frame s.next _)
      λ code h. Ensures-prepend code _ (h 0) (close_branch_of-Neutral c s.branch_instruction loops)
