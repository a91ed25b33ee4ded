-- ===== src/Builder/Invocations.antt =====
-- `InvocationInstruction::create` in its two versions, `invoke_jit` and `invoke_native`
-- (src/microjit/instructions.h and instructions.cpp).
use microjit.Prelude.{
  ℕ, ◌+◌, Bool, true, false, not, ◌&&◌, List, [], ◌∷◌, Option, none, some, length, get_elem?, ◌==◌,
}
use microjit.Types.{CxxType, type_ne}
use microjit.Raise.{
  Result, ok, raise, guard, or_raise, ◌>>=◌, ◌>>◌, undefined, no_trampoline,
  mismatched_arguments_size, mismatched_argument_type, mismatched_return_type,
  expression_as_argument, argument_as_argument,
}
use microjit.Ir.{Variable, Value, immediate, argument, variable, expression, Invocation, invoke}
use microjit.Builder.{Store, scope_at}
use microjit.Builder.Assignments.{push}

-- the parts of a `RectifiedFunction` or of a native trampoline that the checks read
pub record Callee : Type 0 where
  pub trampoline : Option ℕ
  pub argument_types : List CxxType
  pub return_type : CxxType

-- the `switch` on one argument: the size of the value, which has the type `target`
unfoldable pub check_value : (is_jit : Bool) → List CxxType → CxxType → Value → Result ℕ
check_value is_jit parent_types target (immediate _ t) = do
  guard (not (type_ne t target)) mismatched_argument_type
  ok t.size
check_value true parent_types target (argument idx) = do
  t ← or_raise (get_elem? parent_types idx) undefined
  guard (not (type_ne t target)) mismatched_argument_type
  ok t.size
check_value false parent_types target (argument _) = raise argument_as_argument
check_value is_jit parent_types target (variable v) = do
  guard (not (type_ne v.type_of target)) mismatched_argument_type
  ok v.type_of.size
check_value is_jit parent_types target (expression _ _ _ _) = raise expression_as_argument

-- the `for` loop over the arguments, which adds up `total_size`
unfoldable pub check_values : Bool → List CxxType → List CxxType → List Value → ℕ → Result ℕ
check_values is_jit parent_types (t ∷ ts) (x ∷ xs) total_size =
    check_value is_jit parent_types t x >>= λ size.
    check_values is_jit parent_types ts xs (total_size + size)
check_values is_jit parent_types _ _ total_size = ok total_size

-- `if (p_ret_var.is_valid()) if (p_ret_var->type != return_type) MJ_RAISE(...)`
abbrev check_return : Option Variable → CxxType → Result (Unit {0})
check_return none return_type = ok tt
check_return (some v) return_type =
    guard (not (type_ne v.type_of return_type)) mismatched_return_type

-- `InvocationInstruction::create`
unfoldable pub create_invocation :
    Bool → List CxxType → Callee → ℕ → List Value → Option Variable → Result Invocation
create_invocation is_jit parent_types callee trampoline args ret_var = do
  check_return ret_var callee.return_type
  guard
      ((length parent_types == length callee.argument_types)
        && (length callee.argument_types == length args))
      mismatched_arguments_size
  total_size ← check_values is_jit parent_types callee.argument_types args 0
  ok (record {
    target_trampoline = trampoline;
    target_return_type = callee.return_type;
    return_variable = ret_var;
    passed_arguments = args;
    arguments_total_size = total_size;
    is_jit = is_jit;
  })

-- a null vector of arguments stands for no arguments
abbrev pub arguments_or_empty : Option (List Value) → List Value
arguments_or_empty none = []
arguments_or_empty (some args) = args

-- `invoke_jit` (`is_jit`) and `invoke_native`, whose trampoline is made on the spot and never null
unfoldable pub push_invocation :
    Bool → Store → ℕ → Callee → Option (List Value) → Option Variable → Result Store
push_invocation is_jit b this callee args ret_var = do
  trampoline ← or_raise callee.trampoline no_trampoline
  s ← scope_at b this
  ins ← create_invocation is_jit s.arguments callee trampoline (arguments_or_empty args) ret_var
  push b this (invoke ins)

unfoldable pub invoke_jit :
    Store → ℕ → Callee → Option (List Value) → Option Variable → Result Store
invoke_jit b this = push_invocation true b this

unfoldable pub invoke_native :
    Store → ℕ → Callee → Option (List Value) → Option Variable → Result Store
invoke_native b this = push_invocation false b this
