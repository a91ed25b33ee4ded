-- ===== src/Builder/Parser.antt =====
-- `PrimitiveAtomicBinaryExpressionParser` of src/microjit/instructions.h and instructions.cpp.
use microjit.Prelude.{ℕ, true, not, ◌&&◌, if◌then◌else◌}
use microjit.Types.{CxxType, create_void, create_bool, type_ne, is_floating_point}
use microjit.Raise.{
  Result, ok, raise, guard, ◌>>◌, not_a_binary_operation, host_does_not_own_variable,
  mismatched_type, operands_not_primitive, not_floating_point_capable, undefined,
}
use microjit.Ir.{
  OperationType, Value, immediate, variable, expression, is_binary,
  is_operation_floating_point_capable, operation_return_same, operation_return_bool,
}
use microjit.Builder.{Store, has_variable_in_all_scope}

-- `ParseResult`; the expression is a primitive binary operation.
pub record ParseResult : Type 0 where
  pub operation : OperationType
  pub expression_of : Value
  pub return_type : CxxType
  pub host : ℕ

-- the type of an expression with operands of type `type_of`
unfoldable pub expression_type : OperationType → CxxType → CxxType
expression_type op type_of =
    if operation_return_same op
    then type_of
    else if operation_return_bool op
    then create_bool
    else create_void

-- `PABEP_FINALIZE`
unfoldable pub finalize : ℕ → OperationType → Value → Value → CxxType → Result ParseResult
finalize host op left right type_of = do
  guard (not (is_floating_point type_of && not (is_operation_floating_point_capable op)))
      not_floating_point_capable
  ok (record {
    operation = op;
    expression_of = expression op true left right;
    return_type = expression_type op type_of;
    host = host;
  })

-- the checks on the two types that the four versions of `parse` share, and `PABEP_FINALIZE`
unfoldable pub check_types :
    ℕ → OperationType → Value → Value → CxxType → CxxType → Result ParseResult
check_types host op left right left_type right_type = do
  guard (not (type_ne left_type right_type)) mismatched_type
  guard left_type.is_primitive operands_not_primitive
  finalize host op left right left_type

-- The four versions of `parse`. An operand of another kind fits none of them.
unfoldable pub parse : Store → ℕ → OperationType → Value → Value → Result ParseResult
parse b host op (immediate x t) (immediate y u) = do
  guard (is_binary op) not_a_binary_operation
  check_types host op (immediate x t) (immediate y u) t u
parse b host op (immediate x t) (variable v) = do
  guard (is_binary op) not_a_binary_operation
  guard (has_variable_in_all_scope b host v) host_does_not_own_variable
  check_types host op (immediate x t) (variable v) t v.type_of
parse b host op (variable v) (immediate x t) = do
  guard (is_binary op) not_a_binary_operation
  guard (has_variable_in_all_scope b host v) host_does_not_own_variable
  check_types host op (variable v) (immediate x t) v.type_of t
parse b host op (variable v) (variable w) = do
  guard (is_binary op) not_a_binary_operation
  guard (has_variable_in_all_scope b host v && has_variable_in_all_scope b host w)
      host_does_not_own_variable
  check_types host op (variable v) (variable w) v.type_of w.type_of
parse b host op _ _ = raise undefined
