-- ===== src/Builder/Assignments.antt =====
-- The methods of `RectifiedScope` that construct, assign and convert variables
-- (src/microjit/instructions.h and instructions.cpp).
use microjit.Prelude.{ℕ, not, ◌&&◌, get_elem?, ◌==◌}
use microjit.Types.{CxxType, type_ne, empty_copy_ctor}
use microjit.Raise.{
  Result, ok, guard, or_raise, ◌>>=◌, ◌>>◌, does_not_own_variable, does_not_own_assignment_target,
  does_not_own_copy_target, same_target, mismatched_type, invalid_argument_index,
  does_not_own_expression, mismatched_return_type, not_a_primitive_result, does_not_own_target,
  mismatched_from_type, mismatched_to_type,
}
use microjit.Ir.{
  Variable, immediate, argument, variable, Instruction, construct, copy_construct, assign, convert,
  primitive_convert,
}
use microjit.Builder.{
  Store, scope_at, update, push_instruction, has_variable, has_variable_in_all_scope,
}
use microjit.Builder.Parser.{ParseResult}

-- `push_instruction` on `this`
unfoldable pub push : Store → ℕ → Instruction → Result Store
push b this ins = do s ← scope_at b this; ok (update b this (push_instruction s ins))

-- `if (!has_variable(p_var)) MJ_RAISE("Does not own variable")`
unfoldable pub own : Store → ℕ → Variable → Result (Unit {0})
own b this v = do s ← scope_at b this; guard (has_variable s this v) does_not_own_variable

-- the type of argument `idx`, as `create_arg` checks it against the target
unfoldable pub check_argument : Store → ℕ → Variable → ℕ → Result (Unit {0})
check_argument b this target idx = do
  s ← scope_at b this
  t ← or_raise (get_elem? s.arguments idx) invalid_argument_index
  guard (not (type_ne t target.type_of)) mismatched_type

-- `default_construct_unsafe<T>`, which does not check the type
unfoldable pub default_construct_unsafe : Store → ℕ → Variable → (ctor : ℕ) → Result Store
default_construct_unsafe b this v ctor = do own b this v; push b this (construct v ctor)

-- `default_construct<T>`
unfoldable pub default_construct : Store → ℕ → CxxType → Variable → (ctor : ℕ) → Result Store
default_construct b this t v ctor = do
  own b this v
  guard (not (type_ne t v.type_of)) mismatched_type
  push b this (construct v ctor)

-- `construct_from_immediate<T>`
unfoldable pub construct_from_immediate : Store → ℕ → Variable → CxxType → ℕ → Result Store
construct_from_immediate b this v t bytes = do
  own b this v
  guard (not (type_ne t v.type_of)) mismatched_type
  push b this (copy_construct v (immediate bytes t) v.type_of.copy_constructor)

-- `construct_from_argument`
unfoldable pub construct_from_argument : Store → ℕ → Variable → ℕ → Result Store
construct_from_argument b this v idx = do
  own b this v
  check_argument b this v idx
  push b this (copy_construct v (argument idx) v.type_of.copy_constructor)

-- `construct_from_variable`
unfoldable pub construct_from_variable : Store → ℕ → Variable → Variable → Result Store
construct_from_variable b this v copy_target = do
  s ← scope_at b this
  guard (has_variable s this v) does_not_own_assignment_target
  guard (has_variable_in_all_scope b this copy_target) does_not_own_copy_target
  guard (not (v.address == copy_target.address)) same_target
  guard (not (type_ne v.type_of copy_target.type_of)) mismatched_type
  push b this (copy_construct v (variable copy_target) v.type_of.copy_constructor)

-- the checks of the two methods below
unfoldable pub check_expression : Store → ℕ → Variable → ParseResult → Result (Unit {0})
check_expression b this v parsed = do
  guard (has_variable_in_all_scope b this v) does_not_own_assignment_target
  guard (parsed.host == this) does_not_own_expression
  guard (not (type_ne v.type_of parsed.return_type)) mismatched_return_type
  guard parsed.return_type.is_primitive not_a_primitive_result

-- `construct_from_primitive_atomic_expression`
unfoldable pub construct_from_primitive_atomic_expression :
    Store → ℕ → Variable → ParseResult → Result Store
construct_from_primitive_atomic_expression b this v parsed = do
  check_expression b this v parsed
  push b this (copy_construct v parsed.expression_of empty_copy_ctor)

-- `assign_from_primitive_atomic_expression`
unfoldable pub assign_from_primitive_atomic_expression :
    Store → ℕ → Variable → ParseResult → Result Store
assign_from_primitive_atomic_expression b this v parsed = do
  check_expression b this v parsed
  push b this (assign v parsed.expression_of empty_copy_ctor)

-- `assign_from_immediate_unsafe<T>`, which does not check the type; `assign_fn` is
-- `ObjectTools::assign<T>`.
unfoldable pub assign_from_immediate_unsafe :
    Store → ℕ → Variable → CxxType → ℕ → (assign_fn : ℕ) → Result Store
assign_from_immediate_unsafe b this v t bytes assign_fn = do
  guard (has_variable_in_all_scope b this v) does_not_own_variable
  push b this (assign v (immediate bytes t) assign_fn)

-- `assign_from_immediate<T>`
unfoldable pub assign_from_immediate :
    Store → ℕ → Variable → CxxType → ℕ → (assign_fn : ℕ) → Result Store
assign_from_immediate b this v t bytes assign_fn = do
  guard (has_variable_in_all_scope b this v) does_not_own_variable
  guard (not (type_ne t v.type_of)) mismatched_type
  push b this (assign v (immediate bytes t) assign_fn)

-- `assign_from_argument_unsafe<T>`
unfoldable pub assign_from_argument_unsafe :
    Store → ℕ → Variable → ℕ → (assign_fn : ℕ) → Result Store
assign_from_argument_unsafe b this v idx assign_fn = do
  guard (has_variable_in_all_scope b this v) does_not_own_variable
  check_argument b this v idx
  push b this (assign v (argument idx) assign_fn)

-- `assign_from_argument<T>`
unfoldable pub assign_from_argument :
    Store → ℕ → CxxType → Variable → ℕ → (assign_fn : ℕ) → Result Store
assign_from_argument b this t v idx assign_fn = do
  guard (has_variable_in_all_scope b this v) does_not_own_variable
  guard (not (type_ne t v.type_of)) mismatched_type
  check_argument b this v idx
  push b this (assign v (argument idx) assign_fn)

-- the checks that the two methods below share
unfoldable pub check_two : Store → ℕ → Variable → Variable → Result (Unit {0})
check_two b this v copy_target = do
  guard (has_variable_in_all_scope b this v) does_not_own_assignment_target
  guard (has_variable_in_all_scope b this copy_target) does_not_own_copy_target
  guard (not (v.address == copy_target.address)) same_target

-- `assign_from_variable_unsafe<T>`
unfoldable pub assign_from_variable_unsafe :
    Store → ℕ → Variable → Variable → (assign_fn : ℕ) → Result Store
assign_from_variable_unsafe b this v copy_target assign_fn = do
  check_two b this v copy_target
  guard (not (type_ne v.type_of copy_target.type_of)) mismatched_type
  push b this (assign v (variable copy_target) assign_fn)

-- `assign_from_variable<T>`
unfoldable pub assign_from_variable :
    Store → ℕ → CxxType → Variable → Variable → (assign_fn : ℕ) → Result Store
assign_from_variable b this t v copy_target assign_fn = do
  check_two b this v copy_target
  guard (not (type_ne t v.type_of)) mismatched_type
  guard (not (type_ne v.type_of copy_target.type_of)) mismatched_type
  push b this (assign v (variable copy_target) assign_fn)

-- the checks of `convert<From, To>` and `primitive_convert<From, To>`
unfoldable pub check_conversion :
    Store → ℕ → CxxType → CxxType → Variable → Variable → Result (Unit {0})
check_conversion b this f_type t_type from_var to_var = do
  guard (has_variable_in_all_scope b this from_var && has_variable_in_all_scope b this to_var)
      does_not_own_target
  guard (not (type_ne from_var.type_of f_type)) mismatched_from_type
  guard (not (type_ne to_var.type_of t_type)) mismatched_to_type

-- `convert<From, To>`; the converter is the one that `p_coerce` chooses.
unfoldable pub convert_variable :
    Store → ℕ → CxxType → CxxType → Variable → Variable → ℕ → Result Store
convert_variable b this f_type t_type from_var to_var converter = do
  check_conversion b this f_type t_type from_var to_var
  push b this (convert from_var to_var converter)

-- `primitive_convert<From, To>`
unfoldable pub primitive_convert_variable :
    Store → ℕ → CxxType → CxxType → Variable → Variable → ℕ → Result Store
primitive_convert_variable b this f_type t_type from_var to_var converter = do
  check_conversion b this f_type t_type from_var to_var
  push b this (primitive_convert from_var to_var converter)
