-- ===== src/Codegen/Tests/Running.antt =====
-- Running the code of expressions on two variables of four bytes.
use microjit.Prelude.{ℕ, ◌<◌, arith, ◌%◌, ◌≡◌, refl, true, none, some}
use microjit.Prelude.Int.{negsuc}
use microjit.Prelude.Dict
use microjit.Types.{is_floating_point}
use microjit.Types.Order.{signed_32}
use microjit.Raise.{ok}
use microjit.Ir.{variable, binary_sub, binary_lesser, operation_return_bool}
use microjit.Codegen.Asm.{dword, rbp, Code}
use microjit.Codegen.Expressions.{assign_primitive, branch_eval_primitive}
use microjit.Codegen.Machine.{State, load, store, at, address, run}
use microjit.Codegen.Arithmetic.{Computes, word_result}
use microjit.Codegen.Execution.{value_at, memory_after}
use microjit.Codegen.Copies.{copy_bytes}
use microjit.Codegen.Words.{bound}
use microjit.Codegen.Immediates.{copy_bytes-load}
use microjit.Codegen.Correct.{assign_primitive-run}
use microjit.Codegen.Comparison.{compare_result}
use microjit.Codegen.Conditions.{
  as_number, truth_after, branch_eval_primitive-truth, assign_primitive-truth,
}
use microjit.Codegen.Tests.{x, y, frame}

-- all registers are 4096, and each byte holds the last digits of its address
abbrev start : State
start = record { registers = λ g. 4096; memory = λ a. a % 256; flags = none }

left_value : value_at dword (negsuc 11) start ≡ 4160157172
unfolding load address
left_value = refl

difference : word_result binary_sub dword 3 5 ≡ 4294967294
unfolding word_result
difference = refl

assign_primitive-run_example :
    (code : Code) × (assign_primitive frame x binary_sub (variable x) (variable y) ≡ ok code)
    × (memory_after code start
        ≡ some (
            store 4 start.memory (at rbp (negsuc 11) start) (
              word_result binary_sub dword
                (value_at dword (negsuc 11) start)
                (value_at dword (negsuc 15) start))))
    × (load 4
          (store 4 start.memory (at rbp (negsuc 11) start) (
            word_result binary_sub dword
              (value_at dword (negsuc 11) start)
              (value_at dword (negsuc 15) start)))
          (at rbp (negsuc 11) start)
        ≡ word_result binary_sub dword
            (value_at dword (negsuc 11) start)
            (value_at dword (negsuc 15) start))
unfolding Dict.lookup Computes is_floating_point
assign_primitive-run_example =
    assign_primitive-run frame x x y binary_sub dword (negsuc 11) (negsuc 15) (negsuc 11) start refl
      refl refl refl refl tt

branch_eval_primitive-truth_example :
    (code : Code) × (branch_eval_primitive frame binary_lesser (variable x) (variable y) ≡ ok code)
    × (truth_after code start
        ≡ some (
            as_number (
              compare_result binary_lesser true dword
                (value_at dword (negsuc 11) start)
                (value_at dword (negsuc 15) start))))
unfolding Dict.lookup operation_return_bool
branch_eval_primitive-truth_example =
    branch_eval_primitive-truth frame x y binary_lesser true dword (negsuc 11) (negsuc 15) start
      refl refl refl signed_32 refl

assign_primitive-truth_example :
    (code : Code) × (assign_primitive frame x binary_lesser (variable x) (variable y) ≡ ok code)
    × (memory_after code start
        ≡ some (
            store 1 start.memory (at rbp (negsuc 11) start) (
              as_number (
                compare_result binary_lesser true dword
                  (value_at dword (negsuc 11) start)
                  (value_at dword (negsuc 15) start)))))
unfolding Dict.lookup operation_return_bool
assign_primitive-truth_example =
    assign_primitive-truth frame x x y binary_lesser true dword (negsuc 11) (negsuc 15) (negsuc 11)
      start refl refl refl refl signed_32 refl

copy_bytes-load_example :
    (t : State) × (run (copy_bytes 66051 0 3) start ≡ some t)
    × (load 3 t.memory 4096 ≡ 66051 % bound 3)
    × ((b : ℕ) → b < 4096 → t.memory b ≡ start.memory b)
copy_bytes-load_example = copy_bytes-load 66051 3 start (omega arith)
