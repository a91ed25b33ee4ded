-- ===== src/Codegen/Arithmetic.antt =====
-- The code of `assign_primitive_binary_atomic_expression` in src/microjit/jit_x86_64.cpp for two
-- variables of an integer type, and the result that it is for.
use microjit.Prelude.{
  ℕ, ◌+◌, ◌-◌, ◌*◌, ◌/◌, ◌%◌, ◌^◌, ◌<◌, ◌≡◌, refl, ap, ◌∙◌, Bool, true, false, [], ◌∷◌, ◌++◌,
}
use microjit.Prelude.Int.{ℤ}
use microjit.Types.{CxxType, is_signed_integer, is_floating_point}
use microjit.Raise.{ok}
use microjit.Ir.{
  OperationType, binary_add, binary_sub, binary_mul, binary_div, binary_mod, binary_equal,
  binary_not_equal, binary_greater, binary_greater_or_equal, binary_lesser, binary_lesser_or_equal,
  binary_end, Variable, variable, operation_return_same,
}
use microjit.Frame.{StackFrameInfo}
use microjit.Codegen.Asm.{
  Width, byte, word, dword, qword, ra, rb, rc, rd, r10, reg, mov, lea, add, sub, imul, div, xor_,
  Code, r64, at_reg, in_frame, bytes, by_width,
}
use microjit.Codegen.Copies.{offset_of}
use microjit.Codegen.Operations.{integer_arithmetic, integer_save}
use microjit.Codegen.Expressions.{
  left_place, right_place, move_integer, move_primitive_operand, operand_type, move_operands,
  calculate_and_save, assign_primitive,
}

pub by_width-bytes :
    (w : Width) (size : ℕ) (code : Width → Code) → size ≡ bytes w → by_width size code ≡ ok (code w)
by_width-bytes w size code h = ap (λ n. by_width n code) h ∙ at_bytes w
  where
    at_bytes : (w : Width) → by_width (bytes w) code ≡ ok (code w)
    at_bytes byte = refl
    at_bytes word = refl
    at_bytes dword = refl
    at_bytes qword = refl

-- both operands in their registers
abbrev pub loads : Width → (left right : ℤ) → Code
loads w left right =
    lea (r64 r10) (in_frame left)
    ∷ mov (reg w ra) (at_reg w r10)
    ∷ lea (r64 r10) (in_frame right)
    ∷ mov (reg w rb) (at_reg w r10)
    ∷ []

move_integer-variable :
    (frame : StackFrameInfo) (t : CxxType) (v : Variable) (w : Width) (offset : ℤ)
    → offset_of frame v ≡ ok offset
    → t.size ≡ bytes w
    → (move_integer frame t left_place (variable v)
        ≡ ok (lea (r64 r10) (in_frame offset) ∷ mov (reg w ra) (at_reg w r10) ∷ []))
      × (move_integer frame t right_place (variable v)
          ≡ ok (lea (r64 r10) (in_frame offset) ∷ mov (reg w rb) (at_reg w r10) ∷ []))
unfolding move_integer
move_integer-variable frame t v w offset e h = (
  rw e (rw (by_width-bytes w t.size (λ w. mov (reg w ra) (at_reg w r10) ∷ []) h) refl),
  rw e (rw (by_width-bytes w t.size (λ w. mov (reg w rb) (at_reg w r10) ∷ []) h) refl),
)

pub move_operands-variables :
    (frame : StackFrameInfo) (t : CxxType) (x y : Variable) (w : Width) (left right : ℤ)
    → offset_of frame x ≡ ok left
    → offset_of frame y ≡ ok right
    → t.size ≡ bytes w
    → is_floating_point t ≡ false
    → move_operands frame t (variable x) (variable y) ≡ ok (loads w left right)
unfolding move_operands move_primitive_operand
move_operands-variables frame t x y w left right ex ey h f =
    let first = move_integer-variable frame t x w left ex h in
    let second = move_integer-variable frame t y w right ey h in
    rw f (rw first.0 (rw second.1 refl))

-- the arithmetic, on registers
abbrev pub calculation : OperationType → Width → Code
calculation binary_add w = add (reg w ra) (reg w rb) ∷ []
calculation binary_sub w = sub (reg w ra) (reg w rb) ∷ []
calculation binary_mul w = imul (reg w ra) (reg w rb) ∷ []
calculation binary_div w = xor_ (r64 rd) (r64 rd) ∷ div (reg w rb) ∷ []
calculation binary_mod w = xor_ (r64 rd) (r64 rd) ∷ div (reg w rb) ∷ mov (r64 ra) (r64 rd) ∷ []
calculation _ w = []

abbrev pub IsWide : Width → Type 0
IsWide byte = ⊥
IsWide _ = Unit

-- where the code computes the result: multiplication and division not on single bytes, and division on
-- unsigned numbers by a divisor other than 0
unfoldable pub Computes : OperationType → Width → (is_signed : Bool) → (right : ℕ) → Type 0
Computes binary_add w signed b = Unit
Computes binary_sub w signed b = Unit
Computes binary_mul w signed b = IsWide w
Computes binary_div w signed b = IsWide w × (signed ≡ false) × (0 < b)
Computes binary_mod w signed b = IsWide w × (signed ≡ false) × (0 < b)
Computes _ w signed b = ⊥

-- the result, as C++ has it for unsigned numbers of that width
unfoldable pub word_result : OperationType → Width → ℕ → ℕ → ℕ
word_result binary_add w a b = (a + b) % 2 ^ (8 * bytes w)
word_result binary_sub w a b = (a + (2 ^ (8 * bytes w) - b)) % 2 ^ (8 * bytes w)
word_result binary_mul w a b = a * b % 2 ^ (8 * bytes w)
word_result binary_div w a b = a / b
word_result binary_mod w a b = a % b
word_result _ w a b = 0

pub integer_save-bytes :
    (w : Width) (size : ℕ)
    → size ≡ bytes w
    → integer_save size ≡ ok (mov (at_reg w rc) (reg w ra) ∷ [])
unfolding integer_save
integer_save-bytes w size h = by_width-bytes w size (λ w. mov (at_reg w rc) (reg w ra) ∷ []) h

integer_arithmetic-calculation :
    (op : OperationType) (t : CxxType) (w : Width) (b : ℕ)
    → t.size ≡ bytes w
    → Computes op w (is_signed_integer t) b
    → (integer_arithmetic op t ≡ ok (calculation op w)) × (operation_return_same op ≡ true)
unfolding Computes integer_arithmetic operation_return_same
integer_arithmetic-calculation binary_add t w b h c =
    (by_width-bytes w t.size (λ w. add (reg w ra) (reg w rb) ∷ []) h, refl)
integer_arithmetic-calculation binary_sub t w b h c =
    (by_width-bytes w t.size (λ w. sub (reg w ra) (reg w rb) ∷ []) h, refl)
integer_arithmetic-calculation binary_mul t w b h c =
    (by_width-bytes w t.size (λ w. imul (reg w ra) (reg w rb) ∷ []) h, refl)
integer_arithmetic-calculation binary_div t w b h c =
    (rw c.1 (by_width-bytes w t.size (λ w. xor_ (r64 rd) (r64 rd) ∷ div (reg w rb) ∷ []) h), refl)
integer_arithmetic-calculation binary_mod t w b h c = (
  rw c.1 (rw (by_width-bytes w t.size (λ w. xor_ (r64 rd) (r64 rd) ∷ div (reg w rb) ∷ []) h) refl),
  refl,
)
integer_arithmetic-calculation binary_equal t w b h c = elim c [ ]
integer_arithmetic-calculation binary_not_equal t w b h c = elim c [ ]
integer_arithmetic-calculation binary_greater t w b h c = elim c [ ]
integer_arithmetic-calculation binary_greater_or_equal t w b h c = elim c [ ]
integer_arithmetic-calculation binary_lesser t w b h c = elim c [ ]
integer_arithmetic-calculation binary_lesser_or_equal t w b h c = elim c [ ]
integer_arithmetic-calculation binary_end t w b h c = elim c [ ]

-- the whole code
abbrev pub assignment : OperationType → Width → (left right target : ℤ) → Code
assignment op w left right target =
    loads w left right
    ++ lea (r64 rc) (in_frame target) ∷ (calculation op w ++ mov (at_reg w rc) (reg w ra) ∷ [])

pub assign_primitive-assignment :
    (frame : StackFrameInfo) (target x y : Variable) (op : OperationType) (w : Width)
    (left right to : ℤ) (b : ℕ)
    → offset_of frame x ≡ ok left
    → offset_of frame y ≡ ok right
    → offset_of frame target ≡ ok to
    → x.type_of.size ≡ bytes w
    → is_floating_point x.type_of ≡ false
    → Computes op w (is_signed_integer x.type_of) b
    → assign_primitive frame target op (variable x) (variable y)
      ≡ ok (assignment op w left right to)
unfolding assign_primitive operand_type calculate_and_save
assign_primitive-assignment frame target x y op w left right to b ex ey et h f c =
    let moved = move_operands-variables frame x.type_of x y w left right ex ey h f in
    let calculated = integer_arithmetic-calculation op x.type_of w b h c in
    rw moved (
      rw et (
        rw f (rw calculated.1 (rw calculated.0 (rw (integer_save-bytes w x.type_of.size h) refl)))))
