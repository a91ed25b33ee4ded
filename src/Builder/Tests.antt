-- ===== src/Builder/Tests.antt =====
-- A function `int64 f(int32)` built by calls, with the theorems of the builder at it.
use microjit.Prelude.{ℕ, ◌≡◌, ◌↔◌, refl, List, [], ◌∷◌, some, true}
use microjit.Types.{is_floating_point}
use microjit.Types.Sample
use microjit.Raise.{Result, ok, raise}
use microjit.Ir.{
  expression, Variable, immediate, variable, binary_greater, is_binary, operation_does_return,
  is_operation_floating_point_capable, operation_return_same, operation_return_bool,
}
use microjit.Builder.{
  Store, make_scope, has_variable, has_variable_in_all_scope, has_variable_up, create_variable,
  push_instruction,
}
use microjit.Builder.Parser.{ParseResult, parse, check_types, finalize, expression_type}
use microjit.Builder.Assignments.{
  push, own, construct_from_argument, check_argument, assign_from_immediate,
}
use microjit.Builder.Control.{
  while_branch, push_branch, if_branch, else_branch, last_branch, function_return,
}
use microjit.Builder.Facade.{empty_store, make_function, make_child, if_child, else_child}
use microjit.Builder.Calls.{
  Call, new_variable, construct_argument, assign_immediate, open_if, open_else, return_value, apply,
  apply_all,
}
use microjit.Builder.Visibility.{IsOrdered, IsVisible, has_variable_in_all_scope_iff}
use microjit.Builder.Invariant.{IsBuiltStore}
use microjit.Builder.Elses.{else_branch-while_branch}
use microjit.Builder.Programs.{make_function-apply_all-IsBuiltStore}

-- the variable that the first call makes
abbrev count : Variable
count = record {
  address = 1000;
  parent_scope = 0;
  type_of = Sample.int32;
  properties = 0;
  scope_offset = 0;
}

abbrev body : List (ℕ × Call)
body =
    (0, new_variable Sample.int32 0)
    ∷ (0, construct_argument count 0)
    ∷ (0, open_if binary_greater (variable count) (immediate 3 Sample.int32))
    ∷ (1, assign_immediate Sample.int32 count 7 120)
    ∷ (0, open_else)
    ∷ (0, return_value Sample.int32 (some count))
    ∷ []

abbrev built : Result Store → Store
built (ok b) = b
built (raise e) = empty_store

unfoldable final : Store
unfolding apply_all apply make_function
final = built (apply_all (make_function empty_store (Sample.int32 ∷ [])).0 body)

final-eq : apply_all (make_function empty_store (Sample.int32 ∷ [])).0 body ≡ ok final
unfolding final apply_all apply make_function make_scope create_variable push_instruction own
    has_variable construct_from_argument check_argument push parse check_types finalize
    expression_type if_child else_child make_child if_branch else_branch push_branch last_branch
    has_variable_in_all_scope has_variable_up assign_from_immediate function_return
    is_floating_point is_binary operation_does_return is_operation_floating_point_capable
    operation_return_same operation_return_bool
final-eq = refl

make_function-apply_all-IsBuiltStore_example : IsBuiltStore final
make_function-apply_all-IsBuiltStore_example =
    make_function-apply_all-IsBuiltStore (Sample.int32 ∷ []) body final final-eq

two_scopes-IsOrdered : IsOrdered final.scopes
unfolding final
two_scopes-IsOrdered i p s e h =
    (make_function-apply_all-IsBuiltStore (Sample.int32 ∷ []) body final final-eq i s e).older p h

has_variable_in_all_scope_iff_example :
    (has_variable_in_all_scope final 1 count ≡ true) ↔ IsVisible final.scopes 1 count
has_variable_in_all_scope_iff_example =
    has_variable_in_all_scope_iff final 1 count two_scopes-IsOrdered

abbrev positive : ParseResult
positive = record {
  operation = binary_greater;
  expression_of = expression binary_greater true (variable count) (immediate 0 Sample.int32);
  return_type = Sample.bool;
  host = 0;
}

-- a while on the main scope of the function
unfoldable looping : Store
unfolding while_branch
looping = built (while_branch final 0 positive 1)

looping-eq : while_branch final 0 positive 1 ≡ ok looping
unfolding looping while_branch push_branch push_instruction operation_does_return final apply_all
    apply make_function make_scope create_variable own has_variable construct_from_argument
    check_argument push parse check_types finalize expression_type if_child else_child make_child
    if_branch else_branch last_branch has_variable_in_all_scope has_variable_up
    assign_from_immediate function_return is_floating_point is_binary
    is_operation_floating_point_capable operation_return_same operation_return_bool
looping-eq = refl

else_branch-while_branch_example : (d : Store) × (else_branch looping 0 2 ≡ ok d)
else_branch-while_branch_example =
    else_branch-while_branch final looping 0 positive 1 2
      (make_function-apply_all-IsBuiltStore (Sample.int32 ∷ []) body final final-eq) looping-eq
