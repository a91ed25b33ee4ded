-- ===== src/Codegen/Scopes.antt =====
-- `MicroJITCompiler_x86_64::compile_internal` of src/microjit/jit_x86_64.cpp: the code
-- of single instructions, and what stands around a scope.
use microjit.Prelude.{
  ℕ, Bool, true, false, List, [], ◌∷◌, ◌++◌, Option, none, some, ltb, ◌==◌, if◌then◌else◌, map,
}
use microjit.Prelude.Dict
use microjit.Prelude.Int.{pos}
use microjit.Types.{CxxType}
use microjit.Raise.{
  Result, ok, raise, or_raise, ◌>>=◌, out_of_range, undefined, primitive_conversion_unsupported,
}
use microjit.Ir.{
  Variable, Value, immediate, argument, variable, expression, Branch, BranchType, branch_if,
  branch_else, branch_while, Instruction, construct, copy_construct, assign, convert,
  primitive_convert, invoke,
}
use microjit.Ir.Snapshot.{Snapshot, variables}
use microjit.Frame.{StackFrameInfo}
use microjit.Codegen.Asm.{
  byte, ra, rb, rc, rdi, rsi, reg, imm, mov, lea, cmp, call, jmp, je, jne, bind, Code, r64,
  in_frame, load_args_space, ◌>+>◌,
}
use microjit.Codegen.Copies.{
  offset_of, var_copy, copy_immediate_primitive, copy_immediate, stack_base_ptr,
  virtual_stack_base_ptr, copy_construct_variable, single_scope_destructor_call,
  iterative_destructor_call,
}
use microjit.Codegen.Expressions.{assign_atomic_expression, branch_eval}
use microjit.Codegen.Calls.{Compiled, invoke_function}
use microjit.Codegen.Branches.{BranchInfo}

-- `ScopeInfo`: `whole` is the scope, `rest` what of it comes next, and `next` one more than
-- `iterating`.
pub record ScopeInfo : Type 0 where
  pub whole : Snapshot
  pub rest : Snapshot
  pub next : ℕ
  pub branch_instruction : Option (Branch × BranchInfo)
  pub registered_begin : Bool

-- what does not change while a function is compiled: the two reports, the label of the exit, and
-- the callers of the trampolines
pub record Context : Type 0 where
  pub frame : StackFrameInfo
  pub branches : List (ℕ × BranchInfo)
  pub func : Compiled
  pub exit_label : ℕ
  pub caller_of : ℕ → ℕ

-- `args_map[...]`, which makes an entry of 0 where there is none
abbrev pub argument_place : Context → ℕ → ℕ
argument_place c idx = elim (Dict.lookup idx c.frame.args_map) [ none ↦ 0 | some place ↦ place ]

-- the immediate, to where `rdi` points
abbrev pub store_immediate : CxxType → (value : ℕ) → CxxType → (ctor : ℕ) → Result Code
store_immediate target value t ctor =
    if target.is_primitive
    then copy_immediate_primitive value t
    else ok (copy_immediate value t ctor)

-- the cases `IT_COPY_CONSTRUCT` and `IT_ASSIGN`, which emit the same code
unfoldable pub emit_copy : Context → Variable → Value → (ctor : ℕ) → Result Code
emit_copy c target x ctor = offset_of c.frame target >>= λ offset. elim x [
  | immediate value t ↦
      ok (lea (r64 rdi) (in_frame offset) ∷ []) >+> store_immediate target.type_of value t ctor
  | argument idx ↦
      copy_construct_variable target.type_of ctor (stack_base_ptr offset)
        (virtual_stack_base_ptr (pos (argument_place c idx)))
  | variable v ↦ offset_of c.frame v >>= λ from.
      copy_construct_variable target.type_of ctor (stack_base_ptr offset) (stack_base_ptr from)
  | expression op is_primitive l r ↦
      assign_atomic_expression c.frame target (expression op is_primitive l r)
]

-- the value that a function returns
unfoldable pub emit_result : Context → Option Variable → (has_result : Bool) → Result Code
emit_result c v false = ok []
emit_result c none true = raise undefined
emit_result c (some w) true = offset_of c.frame w >>= λ offset.
    ok (mov (r64 rb) load_args_space ∷ lea (r64 rc) (in_frame offset) ∷ [])
    >+> var_copy w.type_of.size w.type_of.is_primitive w.type_of.copy_constructor

-- the code of an instruction that neither opens nor leaves a scope
unfoldable pub emit_plain : Context → Instruction → Result Code
emit_plain c (construct v ctor) =
    offset_of c.frame v >>= λ offset. ok (lea (r64 rdi) (in_frame offset) ∷ call ctor ∷ [])
emit_plain c (copy_construct v x ctor) = emit_copy c v x ctor
emit_plain c (assign v x ctor) = emit_copy c v x ctor
emit_plain c (convert v w converter) = offset_of c.frame v >>= λ from. offset_of c.frame w >>= λ to.
    ok (lea (r64 rdi) (in_frame from) ∷ lea (r64 rsi) (in_frame to) ∷ call converter ∷ [])
emit_plain c (primitive_convert v w converter) = raise primitive_conversion_unsupported
emit_plain c (invoke ins) = invoke_function (c.caller_of ins.target_trampoline) c.frame c.func ins
emit_plain c _ = ok []

-- `bind(begin_of_scope)` at the first instruction of a branch
abbrev pub bind_begin : ScopeInfo → Code
bind_begin s = elim s.branch_instruction [
  | none ↦ []
  | some (b, info) ↦ if s.registered_begin then [] else bind info.begin_of_scope ∷ []
]

abbrev pub bind_end : ScopeInfo → Code
bind_end s = elim s.branch_instruction [ none ↦ [] | some (b, info) ↦ bind info.end_of_scope ∷ [] ]

-- `loop_stack`, the innermost loop at the head, told by the label of its begin
abbrev pub Loops : Type 0
Loops = List BranchInfo

-- `if (!loop_stack.empty() && (loop_stack.top() == current.branch_info)) loop_stack.pop();`
unfoldable pub leave_loop : ScopeInfo → Loops → Loops
leave_loop s [] = []
leave_loop s (top ∷ loops) = elim s.branch_instruction [
  | none ↦ top ∷ loops
  | some (b, info) ↦ if top.begin_of_scope == info.begin_of_scope then loops else top ∷ loops
]

-- the scopes that `iterative_destructor_call` visits
abbrev pub open_scopes : List ScopeInfo → List (ℕ × List Variable)
open_scopes stack = map (λ s. (s.next, variables s.whole)) stack

-- the case `IT_RETURN`
unfoldable pub emit_return : Context → ScopeInfo → List ScopeInfo → Option Variable → Result Code
emit_return c s stack v =
    emit_result c v (ltb 0 c.func.return_type.size)
    >+> iterative_destructor_call c.frame (open_scopes (s ∷ stack))
    >+> ok (jmp c.exit_label ∷ bind_end s)

-- the case `IT_BREAK`: outside of a loop it does nothing.
unfoldable pub emit_break : Context → ScopeInfo → Loops → Result Code
emit_break c s [] = ok []
emit_break c s (top ∷ loops) =
    single_scope_destructor_call c.frame s.next (variables s.whole)
    >+> ok (jmp top.loop_end_of_scope ∷ [])

-- where the false branch of an if begins
unfoldable pub false_target : Context → BranchInfo → Result ℕ
false_target c info = elim info.else_branch [
  | none ↦ ok info.end_of_scope
  | some else_address ↦ or_raise (Dict.lookup else_address c.branches) out_of_range >>= λ else_info.
      ok else_info.begin_of_scope
]

-- what stands before a branch, with the loops inside of it
unfoldable pub emit_branch : Context → BranchType → BranchInfo → Loops → Result (Code × Loops)
emit_branch c (branch_if condition) info loops = branch_eval c.frame condition >>= λ code.
    false_target c info >>= λ target. ok (code ++ cmp (reg byte ra) (imm 0) ∷ je target ∷ [], loops)
emit_branch c branch_else info loops = ok ([], loops)
emit_branch c (branch_while condition) info loops = ok (jmp info.end_of_scope ∷ [], info ∷ loops)

-- what stands after the last instruction of a branch
unfoldable pub close_branch : Context → BranchType → BranchInfo → Loops → Result (Code × Loops)
close_branch c (branch_if condition) info loops = elim info.else_branch [
  | none ↦ ok ([], loops)
  | some else_address ↦ or_raise (Dict.lookup else_address c.branches) out_of_range >>= λ else_info.
      ok (jmp else_info.end_of_scope ∷ [], loops)
]
close_branch c branch_else info loops = ok ([], loops)
close_branch c (branch_while condition) info [] = raise undefined
close_branch c (branch_while condition) info (top ∷ loops) =
    branch_eval c.frame condition >>= λ code. ok (
      code
          ++ cmp (reg byte ra) (imm 0) ∷ jne info.begin_of_scope ∷ bind info.loop_end_of_scope ∷ [],
      loops,
    )
