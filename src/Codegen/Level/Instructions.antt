-- ===== src/Codegen/Level/Instructions.antt =====
-- Single instructions leave the stack pointer where it was.
use microjit.Prelude.{ℕ, refl, Bool, true, false, [], ◌∷◌, Option, none, some}
use microjit.Prelude.Int.{pos}
use microjit.Types.{CxxType}
use microjit.Raise.{ok, returned, raised, Ensures-any}
use microjit.Ir.{
  Variable, Value, immediate, argument, variable, expression, Instruction, declare_variable,
  construct, copy_construct, assign, return_from, scope_create, convert, primitive_convert, invoke,
  branch, break_loop,
}
use microjit.Codegen.Asm.{rb, rc, rdi, mov, lea, r64, in_frame, load_args_space}
use microjit.Codegen.Copies.{offset_of, stack_base_ptr, virtual_stack_base_ptr}
use microjit.Codegen.Scopes.{
  Context, store_immediate, argument_place, emit_copy, emit_result, emit_plain,
}
use microjit.Codegen.Balance.{effect, depth_after, Ensures-then}
use microjit.Codegen.Level.Copies.{
  IsLevel, var_copy-Level, copy_immediate_primitive-Level, copy_immediate-Level, Ensures-if,
  copy_construct_variable-Level,
}
use microjit.Codegen.Level.Expressions.{assign_atomic_expression-Level}
use microjit.Codegen.Level.Calls.{invoke_function-Level}

store_immediate-Level :
    (target : CxxType) (value : ℕ) (t : CxxType) (ctor : ℕ)
    → IsLevel (store_immediate target value t ctor)
store_immediate-Level target value t ctor =
    Ensures-if target.is_primitive _ _ (copy_immediate_primitive-Level value t)
      (returned (copy_immediate-Level value t ctor))

emit_copy-Level :
    (c : Context) (target : Variable) (x : Value) (ctor : ℕ) → IsLevel (emit_copy c target x ctor)
unfolding emit_copy depth_after effect
emit_copy-Level c target (immediate value t) ctor = Ensures-any (offset_of c.frame target) λ offset.
    Ensures-then (ok (lea (r64 rdi) (in_frame offset) ∷ [])) _ (returned λ n. refl)
      (store_immediate-Level target.type_of value t ctor)
emit_copy-Level c target (argument idx) ctor = Ensures-any (offset_of c.frame target) λ offset.
    copy_construct_variable-Level target.type_of ctor (stack_base_ptr offset)
      (virtual_stack_base_ptr (pos (argument_place c idx)))
emit_copy-Level c target (variable v) ctor = Ensures-any (offset_of c.frame target) λ offset.
    Ensures-any (offset_of c.frame v) λ from.
      copy_construct_variable-Level target.type_of ctor (stack_base_ptr offset)
        (stack_base_ptr from)
emit_copy-Level c target (expression op p l r) ctor =
    Ensures-any (offset_of c.frame target)
      λ offset. assign_atomic_expression-Level c.frame target (expression op p l r)

pub emit_plain-Level : (c : Context) (ins : Instruction) → IsLevel (emit_plain c ins)
unfolding emit_plain depth_after effect
emit_plain-Level c (construct v ctor) =
    Ensures-any (offset_of c.frame v) λ offset. returned λ n. refl
emit_plain-Level c (copy_construct v x ctor) = emit_copy-Level c v x ctor
emit_plain-Level c (assign v x ctor) = emit_copy-Level c v x ctor
emit_plain-Level c (convert v w converter) =
    Ensures-any (offset_of c.frame v)
      λ from. Ensures-any (offset_of c.frame w) λ to. returned λ n. refl
emit_plain-Level c (primitive_convert v w converter) = raised
emit_plain-Level c (invoke ins) =
    invoke_function-Level (c.caller_of ins.target_trampoline) c.frame c.func ins
emit_plain-Level c (declare_variable v) = returned λ n. refl
emit_plain-Level c (return_from v) = returned λ n. refl
emit_plain-Level c (scope_create s) = returned λ n. refl
emit_plain-Level c (branch b) = returned λ n. refl
emit_plain-Level c break_loop = returned λ n. refl

pub emit_result-Level : (c : Context) (v : Option Variable) (t : Bool) → IsLevel (emit_result c v t)
unfolding emit_result depth_after effect
emit_result-Level c v false = returned λ n. refl
emit_result-Level c none true = raised
emit_result-Level c (some w) true = Ensures-any (offset_of c.frame w) λ offset.
    Ensures-then (ok (mov (r64 rb) load_args_space ∷ lea (r64 rc) (in_frame offset) ∷ [])) _
      (returned λ n. refl)
      (var_copy-Level w.type_of.size w.type_of.is_primitive w.type_of.copy_constructor)
