-- ===== src/Codegen/Expressions.antt =====
-- Expressions: the macro `MOVE_PRIMITIVE_OPERAND`, `assign_primitive_binary_atomic_expression`,
-- `branch_eval_primitive_binary_atomic_expression` and the functions that lead to them, in
-- src/microjit/jit_x86_64.cpp.
use microjit.Prelude.{ℕ, Bool, true, false, [], ◌∷◌, ◌==◌, if◌then◌else◌}
use microjit.Types.{CxxType, is_floating_point}
use microjit.Types.Typeid
use microjit.Raise.{
  Result, ok, raise, guard, ◌>>=◌, ◌>>◌, unsupported_operand, unsupported_operation,
  unsupported_unary, unsupported_non_primitive, undefined,
}
use microjit.Ir.{
  OperationType, Variable, Value, immediate, variable, expression, is_binary, operation_return_same,
  operation_return_bool, binary_not_equal,
}
use microjit.Frame.{StackFrameInfo}
use microjit.Codegen.Asm.{
  byte, dword, qword, Gp, ra, rb, rc, rsp, r10, reg, imm, xmm, ss, sd, mov, lea, xorps, push, pop,
  Code, r64, at_reg, in_frame, low, by_width, ◌>+>◌,
}
use microjit.Codegen.Copies.{offset_of}
use microjit.Codegen.Operations.{
  integer_arithmetic, integer_comparison, integer_save, fp_load, floating_point_arithmetic,
  floating_point_comparison, floating_point_save,
}

-- the two places for an operand: the number of the `xmm` register, and the general register
pub record Place : Type 0 where
  pub float : ℕ
  pub integer : Gp

abbrev pub left_place : Place
left_place = record { float = 1; integer = ra }

abbrev pub right_place : Place
right_place = record { float = 2; integer = rb }

-- `is_fp32`
abbrev pub is_fp32 : CxxType → Bool
is_fp32 t = t.type_info == Typeid.float

-- the first half of `MOVE_PRIMITIVE_OPERAND`
unfoldable pub move_floating_point : StackFrameInfo → CxxType → Place → Value → Result Code
move_floating_point frame t place (immediate value _) = ok (
    if is_fp32 t
    then push (imm (low dword value))
      ∷ lea (r64 rc) (at_reg dword rsp)
      ∷ fp_load ss place.float rc
      ∷ pop (reg dword ra)
      ∷ []
    else push (imm (low qword value))
      ∷ lea (r64 rc) (at_reg qword rsp)
      ∷ fp_load sd place.float rc
      ∷ pop (r64 rc)
      ∷ [])
move_floating_point frame t place (variable v) = offset_of frame v >>= λ offset. ok (
    lea (r64 r10) (in_frame offset)
    ∷ (if is_fp32 t
        then lea (r64 ra) (at_reg dword r10) ∷ fp_load ss place.float ra ∷ []
        else lea (r64 ra) (at_reg qword r10) ∷ fp_load sd place.float ra ∷ []))
move_floating_point frame t place _ = raise unsupported_operand

-- the second half
unfoldable pub move_integer : StackFrameInfo → CxxType → Place → Value → Result Code
move_integer frame t place (immediate value _) =
    by_width t.size λ w. mov (reg w place.integer) (imm (low w value)) ∷ []
move_integer frame t place (variable v) =
    (offset_of frame v >>= λ offset. ok (lea (r64 r10) (in_frame offset) ∷ []))
    >+> by_width t.size λ w. mov (reg w place.integer) (at_reg w r10) ∷ []
move_integer frame t place _ = raise unsupported_operand

-- `MOVE_PRIMITIVE_OPERAND`
unfoldable pub move_primitive_operand :
    StackFrameInfo → CxxType → (is_float : Bool) → Place → Value → Result Code
move_primitive_operand frame t true place x = move_floating_point frame t place x
move_primitive_operand frame t false place x = move_integer frame t place x

-- the `switch` that both functions start with: the type of the left operand
unfoldable pub operand_type : Value → Result CxxType
operand_type (immediate _ t) = ok t
operand_type (variable v) = ok v.type_of
operand_type _ = raise unsupported_operand

-- both operands, in their places
unfoldable pub move_operands : StackFrameInfo → CxxType → Value → Value → Result Code
move_operands frame t left right =
    move_primitive_operand frame t (is_floating_point t) left_place left
    >+> move_primitive_operand frame t (is_floating_point t) right_place right

-- by what `operation_return_same` and `operation_return_bool` say
unfoldable pub calculate_and_save :
    OperationType → CxxType → (same returns_bool is_float : Bool) → Result Code
calculate_and_save op t true returns_bool true =
    floating_point_arithmetic op t.size >+> floating_point_save t.size
calculate_and_save op t true returns_bool false = integer_arithmetic op t >+> integer_save t.size
calculate_and_save op t false true true =
    floating_point_comparison op t.size >+> ok (mov (at_reg byte rc) (reg byte ra) ∷ [])
calculate_and_save op t false true false =
    integer_comparison op t >+> ok (mov (at_reg byte rc) (reg byte ra) ∷ [])
calculate_and_save op t false false is_float = raise unsupported_operation

-- `assign_primitive_binary_atomic_expression`
unfoldable pub assign_primitive :
    StackFrameInfo → Variable → OperationType → Value → Value → Result Code
assign_primitive frame target op left right = operand_type left >>= λ t.
    move_operands frame t left right
    >+> (offset_of frame target >>= λ offset. ok (lea (r64 rc) (in_frame offset) ∷ []))
    >+> calculate_and_save op t (operation_return_same op) (operation_return_bool op)
        (is_floating_point t)

-- `assign_binary_atomic_expression`
unfoldable pub assign_binary :
    StackFrameInfo → Variable → OperationType → (is_primitive : Bool) → Value → Value → Result Code
assign_binary frame target op true left right = assign_primitive frame target op left right
assign_binary frame target op false left right = raise unsupported_non_primitive

-- `assign_atomic_expression` and `copy_construct_atomic_expression`, which do the same; a value
-- that is not an expression is read as one.
unfoldable pub assign_atomic_expression : StackFrameInfo → Variable → Value → Result Code
assign_atomic_expression frame target (expression op is_primitive left right) = do
  guard (is_binary op) unsupported_unary
  assign_binary frame target op is_primitive left right
assign_atomic_expression frame target _ = raise undefined

-- The condition of a branch goes to `al`; after arithmetic on integers that is what `a` holds.
unfoldable pub calculate_condition :
    OperationType → CxxType → (same returns_bool is_float : Bool) → Result Code
calculate_condition op t true returns_bool true =
    floating_point_arithmetic op t.size
    >+> ok (xorps (xmm 2) (xmm 2) ∷ [])
    >+> floating_point_comparison binary_not_equal t.size
calculate_condition op t true returns_bool false = integer_arithmetic op t
calculate_condition op t false true true = floating_point_comparison op t.size
calculate_condition op t false true false = integer_comparison op t
calculate_condition op t false false is_float = raise unsupported_operation

-- `branch_eval_primitive_binary_atomic_expression`
unfoldable pub branch_eval_primitive : StackFrameInfo → OperationType → Value → Value → Result Code
branch_eval_primitive frame op left right = operand_type left >>= λ t.
    move_operands frame t left right
    >+> calculate_condition op t (operation_return_same op) (operation_return_bool op)
        (is_floating_point t)

-- `branch_eval_binary_atomic_expression`, after the check that its callers make
unfoldable pub branch_eval : StackFrameInfo → Value → Result Code
branch_eval frame (expression op true left right) = do
  guard (is_binary op) unsupported_unary
  branch_eval_primitive frame op left right
branch_eval frame (expression op false left right) = do
  guard (is_binary op) unsupported_unary
  raise unsupported_non_primitive
branch_eval frame _ = raise undefined
