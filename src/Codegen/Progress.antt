-- ===== src/Codegen/Progress.antt =====
-- `assign_atomic_expression` and `branch_eval_binary_atomic_expression` of src/microjit/jit_x86_64.cpp on the expressions
-- that the parser accepts.
use mathlib.Core.Path.{subst}
use microjit.Prelude.{ℕ, ◌≡◌, sym, true, false, [], ◌∷◌, some}
use microjit.Prelude.Int.{ℤ}
use microjit.Types.{CxxType, is_floating_point}
use microjit.Raise.{Result, ok, raise, or_raise, ◌>>=◌, unsupported_size}
use microjit.Ir.{
  OperationType, binary_add, binary_sub, binary_mul, binary_div, binary_mod, binary_equal,
  binary_not_equal, binary_greater, binary_greater_or_equal, binary_lesser, binary_lesser_or_equal,
  binary_end, Variable, Value, immediate, argument, variable, expression, is_binary,
  is_operation_floating_point_capable, operation_return_same, operation_return_bool,
}
use microjit.Frame.{StackFrameInfo}
use microjit.Codegen.Asm.{
  Width, Precision, Code, rc, r10, lea, r64, in_frame, width_of, by_width, ◌>+>◌,
}
use microjit.Codegen.Copies.{offset_of}
use microjit.Codegen.Operations.{
  precision_of, by_precision, integer_arithmetic, integer_comparison, integer_save,
  floating_point_arithmetic, floating_point_comparison, floating_point_save,
}
use microjit.Codegen.Expressions.{
  Place, left_place, right_place, move_floating_point, move_integer, move_primitive_operand,
  operand_type, move_operands, calculate_and_save, assign_primitive, assign_binary,
  assign_atomic_expression,
}

-- code is returned
pub data Returns : Result Code → Type 0 where
  returns : {code : Code} → Returns (ok code)

then-Returns : (m k : Result Code) → Returns m → Returns k → Returns (m >+> k)
then-Returns (ok xs) (ok ys) returns returns = returns
then-Returns (raise e) k h g = elim h [ ]
then-Returns (ok xs) (raise e) h g = elim g [ ]

by_width-Returns :
    (size : ℕ) (w : Width) (code : Width → Code)
    → width_of size ≡ some w
    → Returns (by_width size code)
by_width-Returns size w code h =
    subst (λ o. Returns (or_raise o unsupported_size >>= λ w. ok (code w))) (sym h) returns

by_precision-Returns :
    (size : ℕ) (p : Precision) (code : Precision → Code)
    → precision_of size ≡ some p
    → Returns (by_precision size code)
by_precision-Returns size p code h =
    subst (λ o. Returns (or_raise o unsupported_size >>= λ p. ok (code p))) (sym h) returns

-- an immediate, or a variable that is in the frame
unfoldable pub IsPlaced : StackFrameInfo → Value → Type 0
IsPlaced frame (immediate value t) = Unit
IsPlaced frame (variable v) = (offset : ℤ) × (offset_of frame v ≡ ok offset)
IsPlaced frame (argument idx) = ⊥
IsPlaced frame (expression op p l r) = ⊥

-- a floating point type of four or eight bytes, or another type of one, two, four or eight
pub data IsSupported (t : CxxType) : Type 0 where
  as_integer : is_floating_point t ≡ false → (w : Width) → width_of t.size ≡ some w → IsSupported t
  as_float :
      is_floating_point t ≡ true → (p : Precision) → precision_of t.size ≡ some p → IsSupported t

-- the operation is a binary one, and on floating point numbers not the remainder
unfoldable pub IsApplicable : OperationType → CxxType → Type 0
IsApplicable op t =
    (is_binary op ≡ true)
    × (is_floating_point t ≡ true → is_operation_floating_point_capable op ≡ true)

move_floating_point-Returns :
    (frame : StackFrameInfo) (t : CxxType) (place : Place) (x : Value)
    → IsPlaced frame x
    → Returns (move_floating_point frame t place x)
unfolding IsPlaced move_floating_point
move_floating_point-Returns frame t place (immediate value u) h = returns
move_floating_point-Returns frame t place (variable v) h = rw h.1 returns
move_floating_point-Returns frame t place (argument idx) h = elim h [ ]
move_floating_point-Returns frame t place (expression op p l r) h = elim h [ ]

move_integer-Returns :
    (frame : StackFrameInfo) (t : CxxType) (place : Place) (x : Value) (w : Width)
    → IsPlaced frame x
    → width_of t.size ≡ some w
    → Returns (move_integer frame t place x)
unfolding IsPlaced move_integer
move_integer-Returns frame t place (immediate value u) w h g = by_width-Returns t.size w _ g
move_integer-Returns frame t place (variable v) w h g =
    then-Returns (offset_of frame v >>= λ offset. ok (lea (r64 r10) (in_frame offset) ∷ [])) _
      (rw h.1 returns) (by_width-Returns t.size w _ g)
move_integer-Returns frame t place (argument idx) w h g = elim h [ ]
move_integer-Returns frame t place (expression op p l r) w h g = elim h [ ]

move_operands-Returns :
    (frame : StackFrameInfo) (t : CxxType) (left right : Value)
    → IsSupported t
    → IsPlaced frame left
    → IsPlaced frame right
    → Returns (move_operands frame t left right)
unfolding move_operands move_primitive_operand
move_operands-Returns frame t left right (as_integer f w g) h k = rw f (
    then-Returns _ _ (move_integer-Returns frame t left_place left w h g)
      (move_integer-Returns frame t right_place right w k g))
move_operands-Returns frame t left right (as_float f p g) h k = rw f (
    then-Returns _ _ (move_floating_point-Returns frame t left_place left h)
      (move_floating_point-Returns frame t right_place right k))

calculate_and_save-integer :
    (op : OperationType) (t : CxxType) (w : Width)
    → is_binary op ≡ true
    → width_of t.size ≡ some w
    → Returns (calculate_and_save op t (operation_return_same op) (operation_return_bool op) false)
unfolding calculate_and_save operation_return_same operation_return_bool is_binary
    integer_arithmetic integer_comparison integer_save
calculate_and_save-integer binary_add t w h g =
    then-Returns _ _ (by_width-Returns t.size w _ g) (by_width-Returns t.size w _ g)
calculate_and_save-integer binary_sub t w h g =
    then-Returns _ _ (by_width-Returns t.size w _ g) (by_width-Returns t.size w _ g)
calculate_and_save-integer binary_mul t w h g =
    then-Returns _ _ (by_width-Returns t.size w _ g) (by_width-Returns t.size w _ g)
calculate_and_save-integer binary_div t w h g =
    then-Returns _ _ (by_width-Returns t.size w _ g) (by_width-Returns t.size w _ g)
calculate_and_save-integer binary_mod t w h g =
    then-Returns _ _ (then-Returns _ _ (by_width-Returns t.size w _ g) returns)
      (by_width-Returns t.size w _ g)
calculate_and_save-integer binary_equal t w h g =
    then-Returns _ _ (by_width-Returns t.size w _ g) returns
calculate_and_save-integer binary_not_equal t w h g =
    then-Returns _ _ (by_width-Returns t.size w _ g) returns
calculate_and_save-integer binary_greater t w h g =
    then-Returns _ _ (by_width-Returns t.size w _ g) returns
calculate_and_save-integer binary_greater_or_equal t w h g =
    then-Returns _ _ (by_width-Returns t.size w _ g) returns
calculate_and_save-integer binary_lesser t w h g =
    then-Returns _ _ (by_width-Returns t.size w _ g) returns
calculate_and_save-integer binary_lesser_or_equal t w h g =
    then-Returns _ _ (by_width-Returns t.size w _ g) returns
calculate_and_save-integer binary_end t w h g = cc

calculate_and_save-float :
    (op : OperationType) (t : CxxType) (p : Precision)
    → is_binary op ≡ true
    → is_operation_floating_point_capable op ≡ true
    → precision_of t.size ≡ some p
    → Returns (calculate_and_save op t (operation_return_same op) (operation_return_bool op) true)
unfolding calculate_and_save operation_return_same operation_return_bool is_binary
    is_operation_floating_point_capable floating_point_arithmetic floating_point_comparison
    floating_point_save
calculate_and_save-float binary_add t p h k g =
    then-Returns _ _ (by_precision-Returns t.size p _ g) (by_precision-Returns t.size p _ g)
calculate_and_save-float binary_sub t p h k g =
    then-Returns _ _ (by_precision-Returns t.size p _ g) (by_precision-Returns t.size p _ g)
calculate_and_save-float binary_mul t p h k g =
    then-Returns _ _ (by_precision-Returns t.size p _ g) (by_precision-Returns t.size p _ g)
calculate_and_save-float binary_div t p h k g =
    then-Returns _ _ (by_precision-Returns t.size p _ g) (by_precision-Returns t.size p _ g)
calculate_and_save-float binary_mod t p h k g = cc
calculate_and_save-float binary_equal t p h k g =
    then-Returns _ _ (by_precision-Returns t.size p _ g) returns
calculate_and_save-float binary_not_equal t p h k g =
    then-Returns _ _ (by_precision-Returns t.size p _ g) returns
calculate_and_save-float binary_greater t p h k g =
    then-Returns _ _ (by_precision-Returns t.size p _ g) returns
calculate_and_save-float binary_greater_or_equal t p h k g =
    then-Returns _ _ (by_precision-Returns t.size p _ g) returns
calculate_and_save-float binary_lesser t p h k g =
    then-Returns _ _ (by_precision-Returns t.size p _ g) returns
calculate_and_save-float binary_lesser_or_equal t p h k g =
    then-Returns _ _ (by_precision-Returns t.size p _ g) returns
calculate_and_save-float binary_end t p h k g = cc

calculate_and_save-Returns :
    (op : OperationType) (t : CxxType)
    → IsSupported t
    → IsApplicable op t
    → Returns (
        calculate_and_save op t
          (operation_return_same op)
          (operation_return_bool op)
          (is_floating_point t))
unfolding IsApplicable
calculate_and_save-Returns op t (as_integer f w g) h =
    rw f (calculate_and_save-integer op t w h.0 g)
calculate_and_save-Returns op t (as_float f p g) h =
    rw f (calculate_and_save-float op t p h.0 (h.1 f) g)

-- Code is generated for every primitive expression that has a binary operation, on floating point numbers not
-- the remainder, a left operand of a supported type, operands that are immediates or variables in the frame,
-- and a target in the frame.
pub assign_atomic_expression-Returns :
    (frame : StackFrameInfo) (target : Variable) (to : ℤ) (op : OperationType) (left right : Value)
    (t : CxxType)
    → offset_of frame target ≡ ok to
    → operand_type left ≡ ok t
    → IsSupported t
    → IsApplicable op t
    → IsPlaced frame left
    → IsPlaced frame right
    → Returns (assign_atomic_expression frame target (expression op true left right))
unfolding assign_atomic_expression assign_binary assign_primitive IsApplicable
assign_atomic_expression-Returns frame target to op left right t e u s a h k = rw a.0 (
    rw u (
      then-Returns _ _ (move_operands-Returns frame t left right s h k) (
        then-Returns (offset_of frame target >>= λ offset. ok (lea (r64 rc) (in_frame offset) ∷ []))
          _ (rw e returns) (calculate_and_save-Returns op t s a))))
