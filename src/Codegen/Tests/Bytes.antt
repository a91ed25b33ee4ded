-- ===== src/Codegen/Tests/Bytes.antt =====
-- Running the code of expressions on two variables of one byte.
use microjit.Prelude.{◌≡◌, refl, true, none, some, arith, ◌==◌, if◌then◌else◌}
use microjit.Prelude.Int.{negsuc}
use microjit.Prelude.Dict
use microjit.Types.{CxxType, create, is_floating_point, is_signed_integer}
use microjit.Types.Typeid
use microjit.Types.Unlisted.{unlisted_char}
use microjit.Raise.{ok}
use microjit.Ir.{Variable, variable, binary_mod, binary_lesser}
use microjit.Codegen.Asm.{byte, rbp, Code}
use microjit.Codegen.Expressions.{assign_primitive, branch_eval_primitive}
use microjit.Codegen.Machine.{State, load, store, at, address}
use microjit.Codegen.Execution.{value_at, memory_after}
use microjit.Codegen.Comparison.{compare_result}
use microjit.Codegen.Conditions.{truth_after}
use microjit.Codegen.ByteRemainder.{assign_primitive-remainder}
use microjit.Codegen.Unlisted.{branch_eval_primitive-IsUnlisted}
use microjit.Codegen.Tests.{x, y, frame}

abbrev of_type : CxxType → Variable → Variable
of_type t v = record v { type_of = t }

abbrev uint8 : CxxType
uint8 = create Typeid.uint8 1 120 121 true true

abbrev char : CxxType
char = create Typeid.char 1 122 123 true true

-- 200 at 65524, where `x` is, and 7 in every other byte
abbrev start : State
start = record { registers = λ g. 65536; memory = λ a. if a == 65524 then 200 else 7; flags = none }

-- 200 % 7 is 4, and 0 is stored
assign_primitive-remainder_example :
    (code : Code) × (assign_primitive frame
        (of_type uint8 x)
        binary_mod
        (variable (of_type uint8 x))
        (variable (of_type uint8 y))
      ≡ ok code)
    × (memory_after code start ≡ some (store 1 start.memory (at rbp (negsuc 11) start) 0))
unfolding Dict.lookup is_floating_point is_signed_integer load address
assign_primitive-remainder_example =
    assign_primitive-remainder frame (of_type uint8 x) (of_type uint8 x) (of_type uint8 y)
      (negsuc 11) (negsuc 15) (negsuc 11) start refl refl refl refl refl refl (omega arith) refl

branch_eval_primitive-IsUnlisted_example :
    (code : Code) × (branch_eval_primitive frame binary_lesser
        (variable (of_type char x))
        (variable (of_type char y))
      ≡ ok code)
    × (truth_after code start ≡ some 0)
    × (compare_result binary_lesser true byte
          (value_at byte (negsuc 11) start)
          (value_at byte (negsuc 15) start)
        ≡ true)
unfolding Dict.lookup load address
branch_eval_primitive-IsUnlisted_example =
    branch_eval_primitive-IsUnlisted frame (of_type char x) (of_type char y) byte (negsuc 11)
      (negsuc 15) start refl refl refl unlisted_char (omega arith) (omega arith)
