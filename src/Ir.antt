-- ===== src/Ir.antt =====
-- src/microjit/instructions.h: operations, values, variables and instructions. An object that is
-- told by its address (a variable, a branch, a scope) carries a number for it.
pub mod Snapshot
use Prim.Native.Nat.{bit_and}
use microjit.Prelude.{ℕ, ◌+◌, ◌≡◌, Bool, true, false, not, List, Option, ltb, ◌==◌}
use microjit.Types.{CxxType}

-- `AbstractOperation::OperationType`. `OP_END` is the length of `operation_masks`.
pub data OperationType : Type 0 where
  binary_add binary_sub binary_mul binary_div binary_mod : OperationType
  binary_equal binary_not_equal binary_greater binary_greater_or_equal : OperationType
  binary_lesser binary_lesser_or_equal : OperationType
  binary_end : OperationType

-- the numbers of the enumeration
abbrev pub operation_code : OperationType → ℕ
operation_code binary_add = 0
operation_code binary_sub = 1
operation_code binary_mul = 2
operation_code binary_div = 3
operation_code binary_mod = 4
operation_code binary_equal = 5
operation_code binary_not_equal = 6
operation_code binary_greater = 7
operation_code binary_greater_or_equal = 8
operation_code binary_lesser = 9
operation_code binary_lesser_or_equal = 10
operation_code binary_end = 11

-- `OperationMask`
abbrev pub ret_same_type : ℕ
ret_same_type = 1

abbrev pub ret_boolean : ℕ
ret_boolean = 2

abbrev pub ret_none : ℕ
ret_none = 4

abbrev pub read_only : ℕ
read_only = 8

abbrev pub floating_point_capable : ℕ
floating_point_capable = 16

-- `operation_masks`; the flags of a row are different bits, so their `|` is their sum.
abbrev pub operation_masks : OperationType → ℕ
operation_masks binary_add = ret_same_type + read_only + floating_point_capable
operation_masks binary_sub = ret_same_type + read_only + floating_point_capable
operation_masks binary_mul = ret_same_type + read_only + floating_point_capable
operation_masks binary_div = ret_same_type + read_only + floating_point_capable
operation_masks binary_mod = ret_same_type + read_only
operation_masks binary_end = 0
operation_masks _ = ret_boolean + read_only + floating_point_capable

abbrev has_flag : OperationType → ℕ → Bool
has_flag op flag = not (bit_and (operation_masks op) flag == 0)

unfoldable pub is_binary : OperationType → Bool
is_binary op = ltb (operation_code op) (operation_code binary_end)

unfoldable pub is_operation_read_only : OperationType → Bool
is_operation_read_only op = has_flag op read_only

unfoldable pub is_operation_floating_point_capable : OperationType → Bool
is_operation_floating_point_capable op = has_flag op floating_point_capable

unfoldable pub operation_does_return : OperationType → Bool
operation_does_return op = not (has_flag op ret_none)

unfoldable pub operation_return_same : OperationType → Bool
operation_return_same op = has_flag op ret_same_type

unfoldable pub operation_return_bool : OperationType → Bool
operation_return_bool op = has_flag op ret_boolean

-- `VariableInstruction`: its address, the scope that declares it, and its place there
pub record Variable : Type 0 where
  pub address : ℕ
  pub parent_scope : ℕ
  pub type_of : CxxType
  pub properties : ℕ
  pub scope_offset : ℕ

-- `Value` and its subclasses. An immediate holds its bytes, read as a little-endian number; an
-- expression is a `BinaryOperation`, the only subclass of `AbstractOperation`.
pub data Value : Type 0 where
  immediate : ℕ → CxxType → Value
  argument : ℕ → Value
  variable : Variable → Value
  expression : OperationType → (is_primitive : Bool) → Value → Value → Value

-- `BranchInstruction::BranchType`, with the condition of the branch
pub data BranchType : Type 0 where
  branch_if : Value → BranchType
  branch_else : BranchType
  branch_while : Value → BranchType

-- `BranchInstruction` and its subclasses
pub record Branch : Type 0 where
  pub address : ℕ
  pub scope_offset : ℕ
  pub branch_type : BranchType
  pub sub_scope : ℕ

-- `InvocationInstruction`
pub record Invocation : Type 0 where
  pub target_trampoline : ℕ
  pub target_return_type : CxxType
  pub return_variable : Option Variable
  pub passed_arguments : List Value
  pub arguments_total_size : ℕ
  pub is_jit : Bool

-- `Instruction` and its subclasses; nothing makes an instruction of type `IT_NONE`.
pub data Instruction : Type 0 where
  declare_variable : Variable → Instruction
  construct : Variable → (ctor : ℕ) → Instruction
  copy_construct : Variable → Value → (ctor : ℕ) → Instruction
  assign : Variable → Value → (ctor : ℕ) → Instruction
  return_from : Option Variable → Instruction
  scope_create : (scope : ℕ) → Instruction
  convert : (from_var to_var : Variable) → (converter : ℕ) → Instruction
  primitive_convert : (from_var to_var : Variable) → (converter : ℕ) → Instruction
  invoke : Invocation → Instruction
  branch : Branch → Instruction
  break_loop : Instruction
