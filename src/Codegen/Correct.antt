-- ===== src/Codegen/Correct.antt =====
-- What the code of `assign_primitive_binary_atomic_expression` in src/microjit/jit_x86_64.cpp computes on
-- two variables of an integer type.
use microjit.Prelude.{◌+◌, ◌-◌, ◌*◌, ◌/◌, ◌%◌, ◌^◌, ◌<◌, ◌≡◌, refl, ◌∙◌, Bool, false, [], ◌∷◌, some}
use native.Mathlib.Nat.{div-le_self, mod-le, mod-mod}
use microjit.Prelude.Int.{ℤ}
use microjit.Types.{is_signed_integer, is_floating_point}
use microjit.Raise.{ok}
use microjit.Ir.{
  OperationType, binary_add, binary_sub, binary_mul, binary_div, binary_mod, binary_equal,
  binary_not_equal, binary_greater, binary_greater_or_equal, binary_lesser, binary_lesser_or_equal,
  binary_end, Variable, variable,
}
use microjit.Frame.{StackFrameInfo}
use microjit.Codegen.Asm.{
  Width, byte, word, dword, qword, ra, rb, rc, rd, rbp, reg, mov, Code, r64, at_reg, bytes, low,
}
use microjit.Codegen.Copies.{offset_of}
use microjit.Codegen.Expressions.{assign_primitive}
use microjit.Codegen.Machine.{State, load, store, at, get, step, run}
use microjit.Codegen.Words.{low-store}
use microjit.Codegen.Arithmetic.{
  IsWide, Computes, word_result, assignment, assign_primitive-assignment,
}
use microjit.Codegen.Execution.{
  value_at, memory_after, get-load, saved, quotient-saved, remainder-saved, divided, value-low,
  prepared, prepared_lem,
}

add-run :
    (w : Width) (left right to : ℤ) (s : State)
    → memory_after (assignment binary_add w left right to) s
      ≡ some (
          store
            (bytes w)
            s.memory
            (at rbp to s)
            (word_result binary_add w (value_at w left s) (value_at w right s)))
unfolding run step word_result
add-run w left right to s =
    saved w s.memory _ _ (s.registers rbp) to (λ a b. a + b)
      (get-load w s.memory _ _ (s.registers rbp) left)
      (get-load w s.memory _ _ (s.registers rbp) right)

sub-run :
    (w : Width) (left right to : ℤ) (s : State)
    → memory_after (assignment binary_sub w left right to) s
      ≡ some (
          store
            (bytes w)
            s.memory
            (at rbp to s)
            (word_result binary_sub w (value_at w left s) (value_at w right s)))
unfolding run step word_result
sub-run w left right to s =
    saved w s.memory _ _ (s.registers rbp) to (λ a b. a + (2 ^ (8 * bytes w) - b))
      (get-load w s.memory _ _ (s.registers rbp) left)
      (get-load w s.memory _ _ (s.registers rbp) right)

mul-run :
    (w : Width) (left right to : ℤ) (s : State)
    → IsWide w
    → memory_after (assignment binary_mul w left right to) s
      ≡ some (
          store
            (bytes w)
            s.memory
            (at rbp to s)
            (word_result binary_mul w (value_at w left s) (value_at w right s)))
unfolding run step word_result
mul-run byte left right to s h = elim h [ ]
mul-run word left right to s h =
    saved word s.memory _ _ (s.registers rbp) to (λ a b. a * b)
      (get-load word s.memory _ _ (s.registers rbp) left)
      (get-load word s.memory _ _ (s.registers rbp) right)
mul-run dword left right to s h =
    saved dword s.memory _ _ (s.registers rbp) to (λ a b. a * b)
      (get-load dword s.memory _ _ (s.registers rbp) left)
      (get-load dword s.memory _ _ (s.registers rbp) right)
mul-run qword left right to s h =
    saved qword s.memory _ _ (s.registers rbp) to (λ a b. a * b)
      (get-load qword s.memory _ _ (s.registers rbp) left)
      (get-load qword s.memory _ _ (s.registers rbp) right)

div-run :
    (w : Width) (left right to : ℤ) (s : State)
    → IsWide w
    → 0 < value_at w right s
    → memory_after (assignment binary_div w left right to) s
      ≡ some (
          store
            (bytes w)
            s.memory
            (at rbp to s)
            (word_result binary_div w (value_at w left s) (value_at w right s)))
unfolding run step word_result
div-run w left right to s h g =
    let start : State = prepared w left right to s in
    let facts = prepared_lem w left right to s in
    let b : 0 < get w rb start = rw facts.1 g in
    let small = value-low w (value_at w left s / value_at w right s) left s (div-le_self _ _) in
    divided w start (mov (at_reg w rc) (reg w ra) ∷ []) h b
    ∙ quotient-saved w (get w ra start / get w rb start) (get w ra start % get w rb start) _ h
    ∙ (rw facts.0 (rw facts.1 (rw facts.2 (rw small refl))))

mod-run :
    (w : Width) (left right to : ℤ) (s : State)
    → IsWide w
    → 0 < value_at w right s
    → memory_after (assignment binary_mod w left right to) s
      ≡ some (
          store
            (bytes w)
            s.memory
            (at rbp to s)
            (word_result binary_mod w (value_at w left s) (value_at w right s)))
unfolding run step word_result
mod-run w left right to s h g =
    let start : State = prepared w left right to s in
    let facts = prepared_lem w left right to s in
    let b : 0 < get w rb start = rw facts.1 g in
    let small = value-low w (value_at w left s % value_at w right s) left s (mod-le _ _) in
    divided w start (mov (r64 ra) (r64 rd) ∷ mov (at_reg w rc) (reg w ra) ∷ []) h b
    ∙ remainder-saved w (get w ra start / get w rb start) (get w ra start % get w rb start) _ h
    ∙ (rw facts.0 (rw facts.1 (rw facts.2 (rw small refl))))

assignment-run :
    (op : OperationType) (w : Width) (signed : Bool) (left right to : ℤ) (s : State)
    → Computes op w signed (value_at w right s)
    → memory_after (assignment op w left right to) s
      ≡ some (
          store
            (bytes w)
            s.memory
            (at rbp to s)
            (word_result op w (value_at w left s) (value_at w right s)))
unfolding Computes
assignment-run binary_add w signed left right to s c = add-run w left right to s
assignment-run binary_sub w signed left right to s c = sub-run w left right to s
assignment-run binary_mul w signed left right to s c = mul-run w left right to s c
assignment-run binary_div w signed left right to s c = div-run w left right to s c.0 c.2
assignment-run binary_mod w signed left right to s c = mod-run w left right to s c.0 c.2
assignment-run binary_equal w signed left right to s c = elim c [ ]
assignment-run binary_not_equal w signed left right to s c = elim c [ ]
assignment-run binary_greater w signed left right to s c = elim c [ ]
assignment-run binary_greater_or_equal w signed left right to s c = elim c [ ]
assignment-run binary_lesser w signed left right to s c = elim c [ ]
assignment-run binary_lesser_or_equal w signed left right to s c = elim c [ ]
assignment-run binary_end w signed left right to s c = elim c [ ]

-- the results are of the width of the variables
word_result-low :
    (op : OperationType) (w : Width) (signed : Bool) (left right : ℤ) (s : State)
    → Computes op w signed (value_at w right s)
    → low w (word_result op w (value_at w left s) (value_at w right s))
      ≡ word_result op w (value_at w left s) (value_at w right s)
unfolding Computes word_result
word_result-low binary_add w signed left right s c = mod-mod _ _
word_result-low binary_sub w signed left right s c = mod-mod _ _
word_result-low binary_mul w signed left right s c = mod-mod _ _
word_result-low binary_div w signed left right s c = value-low w _ left s (div-le_self _ _)
word_result-low binary_mod w signed left right s c = value-low w _ left s (mod-le _ _)
word_result-low binary_equal w signed left right s c = elim c [ ]
word_result-low binary_not_equal w signed left right s c = elim c [ ]
word_result-low binary_greater w signed left right s c = elim c [ ]
word_result-low binary_greater_or_equal w signed left right s c = elim c [ ]
word_result-low binary_lesser w signed left right s c = elim c [ ]
word_result-low binary_lesser_or_equal w signed left right s c = elim c [ ]
word_result-low binary_end w signed left right s c = elim c [ ]

-- For integer variables of one type, `target = x op y` emits code that stores in the target what C++
-- computes for unsigned numbers of that width, and writes no other byte, in these cases: sums and differences
-- of 1, 2, 4 or 8 bytes, modulo the width; products of 2, 4 or 8 bytes, modulo the width; and quotients and
-- remainders of 2, 4 or 8 bytes, of types that `is_signed_integer` does not name, by a divisor other than 0.
pub assign_primitive-run :
    (frame : StackFrameInfo) (target x y : Variable) (op : OperationType) (w : Width)
    (left right to : ℤ) (s : State)
    → offset_of frame x ≡ ok left
    → offset_of frame y ≡ ok right
    → offset_of frame target ≡ ok to
    → x.type_of.size ≡ bytes w
    → is_floating_point x.type_of ≡ false
    → Computes op w (is_signed_integer x.type_of) (value_at w right s)
    → (code : Code) × (assign_primitive frame target op (variable x) (variable y) ≡ ok code)
      × (memory_after code s
          ≡ some (
              store
                (bytes w)
                s.memory
                (at rbp to s)
                (word_result op w (value_at w left s) (value_at w right s))))
      × (load
            (bytes w)
            (store
              (bytes w)
              s.memory
              (at rbp to s)
              (word_result op w (value_at w left s) (value_at w right s)))
            (at rbp to s)
          ≡ word_result op w (value_at w left s) (value_at w right s))
assign_primitive-run frame target x y op w left right to s ex ey et h f c = (
  assignment op w left right to,
  assign_primitive-assignment frame target x y op w left right to (value_at w right s) ex ey et h f
      c,
  assignment-run op w (is_signed_integer x.type_of) left right to s c,
  low-store w s.memory (at rbp to s) _
      ∙ word_result-low op w (is_signed_integer x.type_of) left right s c,
)
