-- ===== src/Codegen/Tests/Accepted.antt =====
-- A difference of a variable and a number.
use microjit.Prelude.{◌≡◌, refl, true, [], ◌∷◌}
use microjit.Prelude.Int.{negsuc}
use microjit.Prelude.Dict
use microjit.Types.{is_floating_point}
use microjit.Types.Sample
use microjit.Raise.{Result, ok, raise, Ensures}
use microjit.Builder.{
  Store, make_scope, create_variable, push_instruction, has_variable, has_variable_in_all_scope,
  has_variable_up,
}
use microjit.Builder.Parser.{parse, check_types, finalize, expression_type}
use microjit.Builder.Facade.{empty_store, make_function}
use microjit.Ir.{
  Variable, operation_return_same, immediate, variable, expression, binary_sub, is_binary,
  is_operation_floating_point_capable,
}
use microjit.Codegen.Asm.{dword}
use microjit.Codegen.Expressions.{operand_type, assign_atomic_expression}
use microjit.Codegen.Progress.{Returns, IsPlaced, as_integer}
use microjit.Codegen.Parsed.{parse-Compiles}
use microjit.Codegen.Tests.{frame}

-- a function with one variable
abbrev count : Variable
count = record {
  address = 1000;
  parent_scope = 0;
  type_of = Sample.int32;
  properties = 0;
  scope_offset = 0;
}

abbrev store_of : Result (Store × Variable) → Store
store_of (ok r) = r.0
store_of (raise e) = empty_store

unfoldable with_count : Store
unfolding make_function create_variable
with_count = store_of (create_variable (make_function empty_store []).0 0 Sample.int32 0)

parse_run :
    parse with_count 0 binary_sub (variable count) (immediate 3 Sample.int32)
    ≡ ok (record {
      operation = binary_sub;
      expression_of = expression binary_sub true (variable count) (immediate 3 Sample.int32);
      return_type = Sample.int32;
      host = 0;
    })
unfolding with_count parse check_types finalize make_function create_variable make_scope
    push_instruction has_variable has_variable_in_all_scope has_variable_up is_binary
    expression_type is_floating_point is_operation_floating_point_capable operation_return_same
parse_run = refl

parse-Compiles_example :
    Ensures
      (λ r. Returns (
        assign_atomic_expression
          (record frame { variable_map = (1000, negsuc 11) ∷ [] })
          count
          r.expression_of))
      (parse with_count 0 binary_sub (variable count) (immediate 3 Sample.int32))
unfolding Dict.lookup operand_type is_floating_point IsPlaced
parse-Compiles_example =
    parse-Compiles (record frame { variable_map = (1000, negsuc 11) ∷ [] }) count (negsuc 11)
      with_count 0 binary_sub (variable count) (immediate 3 Sample.int32) Sample.int32 refl
      (negsuc 11, refl) tt refl (as_integer refl dword refl)
