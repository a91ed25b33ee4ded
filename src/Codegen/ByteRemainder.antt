-- ===== src/Codegen/ByteRemainder.antt =====
-- The remainder of two unsigned numbers of one byte, as `assign_primitive_binary_atomic_expression` with
-- `integer_arithmetic` of src/microjit/jit_x86_64.cpp calculates it.
use microjit.Prelude.{ℕ, ◌/◌, ◌%◌, ◌^◌, ◌<◌, ◌≡◌, refl, ap, ◌∙◌, false, [], ◌∷◌, some, arith}
use native.Mathlib.Nat.{div-le_self}
use microjit.Prelude.Int.{ℤ, pos}
use microjit.Types.{CxxType, is_signed_integer, is_floating_point}
use microjit.Raise.{ok}
use microjit.Ir.{Variable, variable, binary_mod, operation_return_same}
use microjit.Frame.{StackFrameInfo}
use microjit.Codegen.Asm.{byte, qword, ra, rb, rc, rd, rbp, reg, mov, div, xor_, Code, r64, at_reg}
use microjit.Codegen.Copies.{offset_of}
use microjit.Codegen.Operations.{integer_arithmetic}
use microjit.Codegen.Expressions.{operand_type, calculate_and_save, assign_primitive}
use microjit.Codegen.Machine.{
  State, store, merge, at, get, put, put_quotient, forget_flags, dividend, step, run,
}
use microjit.Codegen.Arithmetic.{
  assignment, by_width-bytes, move_operands-variables, integer_save-bytes,
}
use microjit.Codegen.Execution.{
  value_at, value-bound, memory_after, then_memory, divide-fits, prepared, prepared_lem,
}

integer_arithmetic-byte :
    (t : CxxType)
    → t.size ≡ 1
    → is_signed_integer t ≡ false
    → integer_arithmetic binary_mod t
      ≡ ok (xor_ (r64 rd) (r64 rd) ∷ div (reg byte rb) ∷ mov (r64 ra) (r64 rd) ∷ [])
unfolding integer_arithmetic
integer_arithmetic-byte t h u =
    rw u
      (rw (by_width-bytes byte t.size (λ w. xor_ (r64 rd) (r64 rd) ∷ div (reg w rb) ∷ []) h) refl)

assign_primitive-byte :
    (frame : StackFrameInfo) (target x y : Variable) (left right to : ℤ)
    → offset_of frame x ≡ ok left
    → offset_of frame y ≡ ok right
    → offset_of frame target ≡ ok to
    → x.type_of.size ≡ 1
    → is_floating_point x.type_of ≡ false
    → is_signed_integer x.type_of ≡ false
    → assign_primitive frame target binary_mod (variable x) (variable y)
      ≡ ok (assignment binary_mod byte left right to)
unfolding assign_primitive operand_type calculate_and_save operation_return_same
assign_primitive-byte frame target x y left right to ex ey et h f u =
    let moved = move_operands-variables frame x.type_of x y byte left right ex ey h f in
    rw moved (
      rw et (
        rw f (
          rw (integer_arithmetic-byte x.type_of h u)
            (rw (integer_save-bytes byte x.type_of.size h) refl))))

-- the byte that is saved is the lowest of `d`, which was cleared
zero-saved :
    (q r : ℕ) (s : State)
    → memory_after
        (mov (r64 ra) (r64 rd) ∷ mov (at_reg byte rc) (reg byte ra) ∷ [])
        (put_quotient byte q r (put qword rd 0 s))
      ≡ some (store 1 s.memory (at rc (pos 0) s) 0)
unfolding run step merge
zero-saved q r s = ap (λ v. some (store 1 s.memory (at rc (pos 0) s) v)) (omega arith)

-- with a second byte of 0, the dividend is the first operand
dividend-byte :
    (left right to : ℤ) (s : State)
    → s.registers ra / 256 % 256 ≡ 0
    → dividend byte (put qword rd 0 (forget_flags (prepared byte left right to s)))
      ≡ value_at byte left s
unfolding merge
dividend-byte left right to s h =
    let facts = prepared_lem byte left right to s in
    let bound = value-bound byte left s in omega (arith, facts.0)

remainder-run :
    (left right to : ℤ) (s : State)
    → s.registers ra / 256 % 256 ≡ 0
    → 0 < value_at byte right s
    → memory_after (assignment binary_mod byte left right to) s
      ≡ some (store 1 s.memory (at rbp to s) 0)
unfolding run step
remainder-run left right to s h g =
    let start : State = prepared byte left right to s in
    let facts = prepared_lem byte left right to s in
    let cleared : State = put qword rd 0 (forget_flags start) in
    let small : dividend byte cleared < 2 ^ 8 =
      rw (dividend-byte left right to s h) (value-bound byte left s) in
    let b : 0 < get byte rb start = rw facts.1 g in
    let fits : dividend byte cleared / get byte rb start < 2 ^ 8 =
      let least = div-le_self (dividend byte cleared) (get byte rb start) in omega arith in
    ap (then_memory (mov (r64 ra) (r64 rd) ∷ mov (at_reg byte rc) (reg byte ra) ∷ []))
      (divide-fits byte (get byte rb start) cleared b fits)
    ∙ zero-saved _ _ (forget_flags start)
    ∙ ap (λ a. some (store 1 s.memory a 0)) facts.2

-- For unsigned variables of one byte, that is, of a type of one byte that `is_signed_integer` does not name,
-- and a divisor other than 0, `target = x % y` emits code that stores 0 in the target whatever the operands
-- are, where the second byte of `rax` is 0 when it starts, so that the division does not fault.
pub assign_primitive-remainder :
    (frame : StackFrameInfo) (target x y : Variable) (left right to : ℤ) (s : State)
    → offset_of frame x ≡ ok left
    → offset_of frame y ≡ ok right
    → offset_of frame target ≡ ok to
    → x.type_of.size ≡ 1
    → is_floating_point x.type_of ≡ false
    → is_signed_integer x.type_of ≡ false
    → 0 < value_at byte right s
    → s.registers ra / 256 % 256 ≡ 0
    → (code : Code) × (assign_primitive frame target binary_mod (variable x) (variable y) ≡ ok code)
      × (memory_after code s ≡ some (store 1 s.memory (at rbp to s) 0))
assign_primitive-remainder frame target x y left right to s ex ey et h f u g a = (
  assignment binary_mod byte left right to,
  assign_primitive-byte frame target x y left right to ex ey et h f u,
  remainder-run left right to s a g,
)
