-- ===== src/Codegen/Level/Expressions.antt =====
-- Expressions leave the stack pointer where it was, also where a floating point immediate passes
-- over the stack.
use microjit.Prelude.{ℕ, ◌≡◌, refl, ap, Bool, true, false, [], ◌∷◌, none, some, if◌then◌else◌}
use microjit.Prelude.Int.{ℤ}
use microjit.Types.{CxxType, is_signed_integer, is_floating_point}
use microjit.Raise.{ok, ◌>>=◌, returned, raised, Ensures-any, Ensures-guard}
use microjit.Ir.{
  OperationType, binary_add, binary_sub, binary_mul, binary_div, binary_mod, binary_equal,
  binary_not_equal, binary_greater, binary_greater_or_equal, binary_lesser, binary_lesser_or_equal,
  Variable, Value, immediate, argument, variable, expression, is_binary,
}
use microjit.Frame.{StackFrameInfo}
use microjit.Codegen.Asm.{
  Width, Gp, ra, rb, rc, rd, r10, Operand, reg, Precision, ss, sd, Condition, FpOperation, mov, lea,
  pop, push, imm, xor_, xorps, xmm, r64, in_frame, low, at_reg, dword, qword, rsp,
}
use microjit.Codegen.Copies.{offset_of}
use microjit.Codegen.Operations.{
  integer_div, div_or_idiv, integer_arithmetic, integer_comparison_helper, integer_comparison,
  integer_save, fp_load, fp_store, floating_point_arithmetic_helper, floating_point_arithmetic,
  floating_point_cmp_equal, floating_point_cmp_other, floating_point_comparison,
  floating_point_save,
}
use microjit.Codegen.Expressions.{
  Place, left_place, right_place, is_fp32, move_floating_point, move_integer,
  move_primitive_operand, operand_type, move_operands, calculate_and_save, assign_primitive,
  assign_binary, assign_atomic_expression, calculate_condition, branch_eval_primitive, branch_eval,
}
use microjit.Codegen.Balance.{
  effect, depth_after, is_stack_pointer, Level, Ensures-then, Ensures-by_width,
  Ensures-by_precision,
}
use microjit.Codegen.Level.Copies.{IsLevel, shrink_by-grown}

div_or_idiv-Level : (t : Bool) (x : Operand) → Level (xor_ (r64 rd) (r64 rd) ∷ div_or_idiv t x ∷ [])
unfolding depth_after effect
div_or_idiv-Level true x n = refl
div_or_idiv-Level false x n = refl

integer_div-Level : (t : Bool) (size : ℕ) → IsLevel (integer_div (div_or_idiv t) size)
integer_div-Level t size = Ensures-by_width size _ λ w. div_or_idiv-Level t (reg w rb)

integer_arithmetic-Level : (op : OperationType) (t : CxxType) → IsLevel (integer_arithmetic op t)
unfolding integer_arithmetic depth_after effect
integer_arithmetic-Level binary_add t = Ensures-by_width t.size _ λ w n. refl
integer_arithmetic-Level binary_sub t = Ensures-by_width t.size _ λ w n. refl
integer_arithmetic-Level binary_mul t = Ensures-by_width t.size _ λ w n. refl
integer_arithmetic-Level binary_div t = integer_div-Level (is_signed_integer t) t.size
integer_arithmetic-Level binary_mod t =
    Ensures-then _ _ (integer_div-Level (is_signed_integer t) t.size) (returned λ n. refl)
integer_arithmetic-Level _ t = raised

integer_comparison_helper-Level :
    (c : Condition) (size : ℕ) → IsLevel (integer_comparison_helper c size)
unfolding depth_after effect
integer_comparison_helper-Level c size = Ensures-by_width size _ λ w n. refl

integer_comparison-Level : (op : OperationType) (t : CxxType) → IsLevel (integer_comparison op t)
unfolding integer_comparison
integer_comparison-Level binary_equal t = integer_comparison_helper-Level _ t.size
integer_comparison-Level binary_not_equal t = integer_comparison_helper-Level _ t.size
integer_comparison-Level binary_greater t = integer_comparison_helper-Level _ t.size
integer_comparison-Level binary_greater_or_equal t = integer_comparison_helper-Level _ t.size
integer_comparison-Level binary_lesser t = integer_comparison_helper-Level _ t.size
integer_comparison-Level binary_lesser_or_equal t = integer_comparison_helper-Level _ t.size
integer_comparison-Level _ t = raised

integer_save-Level : (size : ℕ) → IsLevel (integer_save size)
unfolding integer_save depth_after effect
integer_save-Level size = Ensures-by_width size _ λ w n. refl

fp_helper-Level : (op : FpOperation) (size : ℕ) → IsLevel (floating_point_arithmetic_helper op size)
unfolding depth_after effect
fp_helper-Level op size = Ensures-by_precision size _ λ p n. refl

floating_point_arithmetic-Level :
    (op : OperationType) (size : ℕ) → IsLevel (floating_point_arithmetic op size)
unfolding floating_point_arithmetic
floating_point_arithmetic-Level binary_add size = fp_helper-Level _ size
floating_point_arithmetic-Level binary_sub size = fp_helper-Level _ size
floating_point_arithmetic-Level binary_mul size = fp_helper-Level _ size
floating_point_arithmetic-Level binary_div size = fp_helper-Level _ size
floating_point_arithmetic-Level _ size = raised

cmp_equal-Level :
    (buf : ℕ) (c : Condition) (size : ℕ) → IsLevel (floating_point_cmp_equal buf c size)
unfolding depth_after effect
cmp_equal-Level buf c size = Ensures-by_precision size _ λ p n. refl

cmp_other-Level : (c : Condition) (size : ℕ) → IsLevel (floating_point_cmp_other c size)
unfolding depth_after effect
cmp_other-Level c size = Ensures-by_precision size _ λ p n. refl

floating_point_comparison-Level :
    (op : OperationType) (size : ℕ) → IsLevel (floating_point_comparison op size)
unfolding floating_point_comparison
floating_point_comparison-Level binary_equal size = cmp_equal-Level _ _ size
floating_point_comparison-Level binary_not_equal size = cmp_equal-Level _ _ size
floating_point_comparison-Level binary_greater size = cmp_other-Level _ size
floating_point_comparison-Level binary_greater_or_equal size = cmp_other-Level _ size
floating_point_comparison-Level binary_lesser size = cmp_other-Level _ size
floating_point_comparison-Level binary_lesser_or_equal size = cmp_other-Level _ size
floating_point_comparison-Level _ size = raised

fp_store-Level : (p : Precision) (g : Gp) (x : ℕ) → Level (fp_store p g x ∷ [])
unfolding depth_after effect
fp_store-Level ss g x n = refl
fp_store-Level sd g x n = refl

floating_point_save-Level : (size : ℕ) → IsLevel (floating_point_save size)
unfolding floating_point_save
floating_point_save-Level size = Ensures-by_precision size _ λ p. fp_store-Level p rc 1

-- an immediate that is pushed, read and popped
over_the_stack-Level :
    (value float : ℕ) (t : Bool)
    → Level (
        if t
        then push (imm (low dword value))
          ∷ lea (r64 rc) (at_reg dword rsp)
          ∷ fp_load ss float rc
          ∷ pop (reg dword ra)
          ∷ []
        else push (imm (low qword value))
          ∷ lea (r64 rc) (at_reg qword rsp)
          ∷ fp_load sd float rc
          ∷ pop (r64 rc)
          ∷ [])
unfolding depth_after effect
over_the_stack-Level value float true n =
    ap (λ r. elim r [ none ↦ none | some m ↦ some m ]) (shrink_by-grown 8 n)
over_the_stack-Level value float false n =
    ap (λ r. elim r [ none ↦ none | some m ↦ some m ]) (shrink_by-grown 8 n)

load-Level :
    (offset : ℤ) (float : ℕ) (t : Bool)
    → Level (
        lea (r64 r10) (in_frame offset)
        ∷ (if t
            then lea (r64 ra) (at_reg dword r10) ∷ fp_load ss float ra ∷ []
            else lea (r64 ra) (at_reg qword r10) ∷ fp_load sd float ra ∷ []))
unfolding depth_after effect
load-Level offset float true n = refl
load-Level offset float false n = refl

move_floating_point-Level :
    (frame : StackFrameInfo) (t : CxxType) (place : Place) (x : Value)
    → IsLevel (move_floating_point frame t place x)
unfolding move_floating_point
move_floating_point-Level frame t place (immediate value _) =
    returned (over_the_stack-Level value place.float (is_fp32 t))
move_floating_point-Level frame t place (variable v) =
    Ensures-any (offset_of frame v) λ offset. returned (load-Level offset place.float (is_fp32 t))
move_floating_point-Level frame t place (argument idx) = raised
move_floating_point-Level frame t place (expression _ _ _ _) = raised

-- a move to a register other than the stack pointer
mov-Level :
    (w : Width) (g : Gp) (x : Operand) → is_stack_pointer g ≡ false → Level (mov (reg w g) x ∷ [])
unfolding depth_after effect
mov-Level w g x h n =
    ap (λ b. elim (if b then none else some n) [ none ↦ none | some m ↦ some m ]) h

lea_r10-Level :
    (frame : StackFrameInfo) (v : Variable)
    → IsLevel (offset_of frame v >>= λ offset. ok (lea (r64 r10) (in_frame offset) ∷ []))
unfolding depth_after effect
lea_r10-Level frame v = Ensures-any (offset_of frame v) λ offset. returned λ n. refl

move_integer-Level :
    (frame : StackFrameInfo) (t : CxxType) (place : Place) (x : Value)
    → is_stack_pointer place.integer ≡ false
    → IsLevel (move_integer frame t place x)
unfolding move_integer
move_integer-Level frame t place (immediate value _) h =
    Ensures-by_width t.size _ λ w. mov-Level w place.integer _ h
move_integer-Level frame t place (variable v) h =
    Ensures-then _ _ (lea_r10-Level frame v)
      (Ensures-by_width t.size _ λ w. mov-Level w place.integer _ h)
move_integer-Level frame t place (argument idx) h = raised
move_integer-Level frame t place (expression _ _ _ _) h = raised

move_primitive_operand-Level :
    (frame : StackFrameInfo) (t : CxxType) (is_float : Bool) (place : Place) (x : Value)
    → is_stack_pointer place.integer ≡ false
    → IsLevel (move_primitive_operand frame t is_float place x)
unfolding move_primitive_operand
move_primitive_operand-Level frame t true place x h = move_floating_point-Level frame t place x
move_primitive_operand-Level frame t false place x h = move_integer-Level frame t place x h

move_operands-Level :
    (frame : StackFrameInfo) (t : CxxType) (x y : Value) → IsLevel (move_operands frame t x y)
unfolding move_operands
move_operands-Level frame t x y =
    Ensures-then _ _ (move_primitive_operand-Level frame t (is_floating_point t) left_place x refl)
      (move_primitive_operand-Level frame t (is_floating_point t) right_place y refl)

calculate_and_save-Level :
    (op : OperationType) (t : CxxType) (same returns_bool is_float : Bool)
    → IsLevel (calculate_and_save op t same returns_bool is_float)
unfolding calculate_and_save depth_after effect
calculate_and_save-Level op t true returns_bool true =
    Ensures-then _ _ (floating_point_arithmetic-Level op t.size) (floating_point_save-Level t.size)
calculate_and_save-Level op t true returns_bool false =
    Ensures-then _ _ (integer_arithmetic-Level op t) (integer_save-Level t.size)
calculate_and_save-Level op t false true true =
    Ensures-then _ _ (floating_point_comparison-Level op t.size) (returned λ n. refl)
calculate_and_save-Level op t false true false =
    Ensures-then _ _ (integer_comparison-Level op t) (returned λ n. refl)
calculate_and_save-Level op t false false is_float = raised

lea_rc-Level :
    (frame : StackFrameInfo) (v : Variable)
    → IsLevel (offset_of frame v >>= λ offset. ok (lea (r64 rc) (in_frame offset) ∷ []))
unfolding depth_after effect
lea_rc-Level frame v = Ensures-any (offset_of frame v) λ offset. returned λ n. refl

assign_primitive-Level :
    (frame : StackFrameInfo) (target : Variable) (op : OperationType) (x y : Value)
    → IsLevel (assign_primitive frame target op x y)
unfolding assign_primitive
assign_primitive-Level frame target op x y = Ensures-any (operand_type x) λ t.
    Ensures-then _ _ (move_operands-Level frame t x y)
      (Ensures-then _ _ (lea_rc-Level frame target) (calculate_and_save-Level op t _ _ _))

pub assign_atomic_expression-Level :
    (frame : StackFrameInfo) (target : Variable) (x : Value)
    → IsLevel (assign_atomic_expression frame target x)
unfolding assign_atomic_expression assign_binary
assign_atomic_expression-Level frame target (expression op true x y) =
    Ensures-guard (is_binary op) _ λ h. assign_primitive-Level frame target op x y
assign_atomic_expression-Level frame target (expression op false x y) =
    Ensures-guard (is_binary op) _ λ h. raised
assign_atomic_expression-Level frame target (immediate _ _) = raised
assign_atomic_expression-Level frame target (argument _) = raised
assign_atomic_expression-Level frame target (variable _) = raised

calculate_condition-Level :
    (op : OperationType) (t : CxxType) (same returns_bool is_float : Bool)
    → IsLevel (calculate_condition op t same returns_bool is_float)
unfolding calculate_condition depth_after effect
calculate_condition-Level op t true returns_bool true =
    Ensures-then _ _ (floating_point_arithmetic-Level op t.size) (
      Ensures-then (ok (xorps (xmm 2) (xmm 2) ∷ [])) _ (returned λ n. refl)
        (floating_point_comparison-Level _ t.size))
calculate_condition-Level op t true returns_bool false = integer_arithmetic-Level op t
calculate_condition-Level op t false true true = floating_point_comparison-Level op t.size
calculate_condition-Level op t false true false = integer_comparison-Level op t
calculate_condition-Level op t false false is_float = raised

branch_eval_primitive-Level :
    (frame : StackFrameInfo) (op : OperationType) (x y : Value)
    → IsLevel (branch_eval_primitive frame op x y)
unfolding branch_eval_primitive
branch_eval_primitive-Level frame op x y =
    Ensures-any (operand_type x)
      λ t. Ensures-then _ _ (move_operands-Level frame t x y) (calculate_condition-Level op t _ _ _)

pub branch_eval-Level : (frame : StackFrameInfo) (x : Value) → IsLevel (branch_eval frame x)
unfolding branch_eval
branch_eval-Level frame (expression op true x y) =
    Ensures-guard (is_binary op) _ λ h. branch_eval_primitive-Level frame op x y
branch_eval-Level frame (expression op false x y) = Ensures-guard (is_binary op) _ λ h. raised
branch_eval-Level frame (immediate _ _) = raised
branch_eval-Level frame (argument _) = raised
branch_eval-Level frame (variable _) = raised
