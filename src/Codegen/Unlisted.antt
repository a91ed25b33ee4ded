-- ===== src/Codegen/Unlisted.antt =====
-- The comparison of variables of signed types that `is_signed_integer` of src/microjit/type.h does not name, by
-- the code of `branch_eval_primitive_binary_atomic_expression` in src/microjit/jit_x86_64.cpp.
use microjit.Prelude.{
  ℕ, ◌-◌, ◌*◌, ◌^◌, ◌≤◌, ◌<◌, ◌≡◌, refl, ap, ◌∙◌, true, false, ◌++◌, some, ltb, arith,
}
use microjit.Prelude.Int.{ℤ}
use microjit.Types.Unlisted.{IsUnlisted, is_signed_integer-IsUnlisted}
use microjit.Raise.{ok}
use microjit.Ir.{Variable, variable, binary_lesser, operation_return_bool}
use microjit.Frame.{StackFrameInfo}
use microjit.Codegen.Asm.{Width, byte, word, dword, qword, Code, bytes}
use microjit.Codegen.Copies.{offset_of}
use microjit.Codegen.Expressions.{branch_eval_primitive}
use microjit.Codegen.Machine.{State}
use microjit.Codegen.Arithmetic.{loads}
use microjit.Codegen.Execution.{value_at, value-bound}
use microjit.Codegen.Comparison.{compare_result, signed_place}
use microjit.Codegen.Conditions.{
  as_number, comparison, truth_after, branch_eval_primitive-code, comparison-truth,
}

-- a negative number is less than one that is not, and its bits are not
less-negative :
    (w : Width) (a b : ℕ)
    → a < 2 ^ (8 * bytes w)
    → 2 ^ (8 * bytes w - 1) ≤ a
    → b < 2 ^ (8 * bytes w - 1)
    → (ltb (signed_place w a) (signed_place w b) ≡ true) × (ltb a b ≡ false)
less-negative byte a b u h g = (ground arith, ground arith)
less-negative word a b u h g = (ground arith, ground arith)
less-negative dword a b u h g = (ground arith, ground arith)
less-negative qword a b u h g = (ground arith, ground arith)

-- For two variables of type char or long long, the left one negative and the right one not, the code of the
-- condition `x < y` leaves 0 in `al`, although `x < y` holds of the signed numbers.
pub branch_eval_primitive-IsUnlisted :
    (frame : StackFrameInfo) (x y : Variable) (w : Width) (left right : ℤ) (s : State)
    → offset_of frame x ≡ ok left
    → offset_of frame y ≡ ok right
    → x.type_of.size ≡ bytes w
    → IsUnlisted x.type_of.type_info
    → 2 ^ (8 * bytes w - 1) ≤ value_at w left s
    → value_at w right s < 2 ^ (8 * bytes w - 1)
    → (code : Code) × (branch_eval_primitive frame binary_lesser (variable x) (variable y)
        ≡ ok code)
      × (truth_after code s ≡ some 0)
      × (compare_result binary_lesser true w (value_at w left s) (value_at w right s) ≡ true)
unfolding compare_result operation_return_bool
branch_eval_primitive-IsUnlisted frame x y w left right s ex ey h u n p =
    let kind = is_signed_integer-IsUnlisted x.type_of refl u in
    let less =
      less-negative w (value_at w left s) (value_at w right s) (value-bound w left s) n p in
    (
      loads w left right ++ comparison binary_lesser false w,
      branch_eval_primitive-code frame x y binary_lesser w left right ex ey h kind.1 refl
          ∙ ap (λ t. ok (loads w left right ++ comparison binary_lesser t w)) kind.0,
      comparison-truth binary_lesser false w left right s refl
          ∙ ap (λ t. some (as_number t)) less.1,
      less.0,
    )
