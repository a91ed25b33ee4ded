-- ===== src/Builder/Calls.antt =====
-- The methods of `RectifiedScope` that check the types of what they are given, as data: a program
-- that builds a function is a list of calls, each on one scope. An expression is parsed in the call
-- that takes it.
use microjit.Prelude.{ℕ, Bool, List, [], ◌∷◌, Option}
use microjit.Types.{CxxType}
use microjit.Raise.{Result, ok, ◌>>=◌}
use microjit.Ir.{OperationType, Variable, Value}
use microjit.Builder.{Store, create_variable}
use microjit.Builder.Parser.{parse}
use microjit.Builder.Assignments.{
  default_construct, construct_from_immediate, construct_from_argument, construct_from_variable,
  construct_from_primitive_atomic_expression, assign_from_primitive_atomic_expression,
  assign_from_immediate, assign_from_argument, assign_from_variable, convert_variable,
  primitive_convert_variable,
}
use microjit.Builder.Control.{push_break, function_return}
use microjit.Builder.Invocations.{Callee, push_invocation}
use microjit.Builder.Facade.{create_child_scope, if_child, else_child, while_child}

pub data Call : Type 0 where
  new_variable : CxxType → (properties : ℕ) → Call
  construct_default : CxxType → Variable → (ctor : ℕ) → Call
  construct_immediate : Variable → CxxType → (bytes : ℕ) → Call
  construct_argument : Variable → ℕ → Call
  construct_variable : Variable → Variable → Call
  construct_expression : Variable → OperationType → Value → Value → Call
  assign_expression : Variable → OperationType → Value → Value → Call
  assign_immediate : CxxType → Variable → (bytes assign_fn : ℕ) → Call
  assign_argument : CxxType → Variable → ℕ → (assign_fn : ℕ) → Call
  assign_variable : CxxType → Variable → Variable → (assign_fn : ℕ) → Call
  convert_value primitive_convert_value :
      CxxType → CxxType → Variable → Variable → (converter : ℕ) → Call
  open_scope open_else : Call
  open_if open_while : OperationType → Value → Value → Call
  break_out : Call
  return_value : CxxType → Option Variable → Call
  invoke_function : (is_jit : Bool) → Callee → Option (List Value) → Option Variable → Call

-- one call on the scope `this`
unfoldable pub apply : Store → ℕ → Call → Result Store
apply b this (new_variable t properties) = create_variable b this t properties >>= λ made. ok made.0
apply b this (construct_default t v ctor) = default_construct b this t v ctor
apply b this (construct_immediate v t bytes) = construct_from_immediate b this v t bytes
apply b this (construct_argument v idx) = construct_from_argument b this v idx
apply b this (construct_variable v w) = construct_from_variable b this v w
apply b this (construct_expression v op l r) =
    parse b this op l r >>= construct_from_primitive_atomic_expression b this v
apply b this (assign_expression v op l r) =
    parse b this op l r >>= assign_from_primitive_atomic_expression b this v
apply b this (assign_immediate t v bytes f) = assign_from_immediate b this v t bytes f
apply b this (assign_argument t v idx f) = assign_from_argument b this t v idx f
apply b this (assign_variable t v w f) = assign_from_variable b this t v w f
apply b this (convert_value f t v w c) = convert_variable b this f t v w c
apply b this (primitive_convert_value f t v w c) = primitive_convert_variable b this f t v w c
apply b this open_scope = create_child_scope b this >>= λ made. ok made.0
apply b this open_else = else_child b this >>= λ made. ok made.0
apply b this (open_if op l r) =
    parse b this op l r >>= λ parsed. if_child b this parsed >>= λ made. ok made.0
apply b this (open_while op l r) =
    parse b this op l r >>= λ parsed. while_child b this parsed >>= λ made. ok made.0
apply b this break_out = push_break b this
apply b this (return_value t v) = function_return b this t v
apply b this (invoke_function is_jit callee args ret) =
    push_invocation is_jit b this callee args ret

-- a program, as calls on the scopes that they name
unfoldable pub apply_all : Store → List (ℕ × Call) → Result Store
apply_all b [] = ok b
apply_all b ((this, call) ∷ rest) = apply b this call >>= λ next. apply_all next rest
