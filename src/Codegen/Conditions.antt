-- ===== src/Codegen/Conditions.antt =====
-- What the code for a comparison of two integer variables computes: `integer_comparison`, with
-- `assign_primitive_binary_atomic_expression` or `branch_eval_primitive_binary_atomic_expression` around it, of
-- src/microjit/jit_x86_64.cpp.
use microjit.Prelude.{
  ℕ, ◌≡◌, refl, ap, ◌∙◌, Bool, true, false, [], ◌∷◌, ◌++◌, Option, none, some, if◌then◌else◌,
}
use microjit.Prelude.Int.{ℤ, pos}
use microjit.Types.{CxxType, is_signed_integer, is_floating_point}
use microjit.Types.Order.{HasOrder, is_signed_integer-HasOrder}
use microjit.Raise.{ok}
use microjit.Ir.{
  OperationType, binary_add, binary_sub, binary_mul, binary_div, binary_mod, binary_equal,
  binary_not_equal, binary_greater, binary_greater_or_equal, binary_lesser, binary_lesser_or_equal,
  binary_end, Variable, variable, operation_return_same, operation_return_bool,
}
use microjit.Frame.{StackFrameInfo}
use microjit.Codegen.Asm.{
  Width, byte, qword, ra, rb, rc, rbp, r10, Condition, reg, mov, lea, cmp, set_cc, Code, r64,
  at_reg, in_frame, bytes, low,
}
use microjit.Codegen.Copies.{offset_of}
use microjit.Codegen.Operations.{integer_comparison, integer_comparison_helper}
use microjit.Codegen.Expressions.{
  operand_type, calculate_and_save, assign_primitive, calculate_condition, branch_eval_primitive,
}
use microjit.Codegen.Machine.{State, load, store, at, get, compared, put, set_to, step, run}
use microjit.Codegen.Words.{low-merge}
use microjit.Codegen.Arithmetic.{loads, by_width-bytes, move_operands-variables}
use microjit.Codegen.Execution.{
  value_at, memory_after, resume, get-load, low-bound, prepared, prepared_lem,
}
use microjit.Codegen.Comparison.{IsComparison, condition_for, compare_result, holds-compared}

abbrev pub comparison : OperationType → (is_signed : Bool) → Width → Code
comparison op signed w =
    cmp (reg w ra) (reg w rb) ∷ set_cc (condition_for op signed) (reg byte ra) ∷ []

helper-comparison :
    (c : Condition) (size : ℕ) (w : Width)
    → size ≡ bytes w
    → integer_comparison_helper c size
      ≡ ok (cmp (reg w ra) (reg w rb) ∷ set_cc c (reg byte ra) ∷ [])
helper-comparison c size w h =
    by_width-bytes w size (λ w. cmp (reg w ra) (reg w rb) ∷ set_cc c (reg byte ra) ∷ []) h

integer_comparison-comparison :
    (op : OperationType) (t : CxxType) (w : Width)
    → IsComparison op
    → t.size ≡ bytes w
    → (integer_comparison op t ≡ ok (comparison op (is_signed_integer t) w))
      × (operation_return_same op ≡ false)
unfolding integer_comparison operation_return_same operation_return_bool
integer_comparison-comparison binary_equal t w c h =
    (helper-comparison (condition_for binary_equal (is_signed_integer t)) t.size w h, refl)
integer_comparison-comparison binary_not_equal t w c h =
    (helper-comparison (condition_for binary_not_equal (is_signed_integer t)) t.size w h, refl)
integer_comparison-comparison binary_greater t w c h =
    (helper-comparison (condition_for binary_greater (is_signed_integer t)) t.size w h, refl)
integer_comparison-comparison binary_greater_or_equal t w c h = (
  helper-comparison (condition_for binary_greater_or_equal (is_signed_integer t)) t.size w h,
  refl,
)
integer_comparison-comparison binary_lesser t w c h =
    (helper-comparison (condition_for binary_lesser (is_signed_integer t)) t.size w h, refl)
integer_comparison-comparison binary_lesser_or_equal t w c h = (
  helper-comparison (condition_for binary_lesser_or_equal (is_signed_integer t)) t.size w h,
  refl,
)
integer_comparison-comparison binary_add t w c h = cc
integer_comparison-comparison binary_sub t w c h = cc
integer_comparison-comparison binary_mul t w c h = cc
integer_comparison-comparison binary_div t w c h = cc
integer_comparison-comparison binary_mod t w c h = cc
integer_comparison-comparison binary_end t w c h = cc

-- a truth value in a register
abbrev pub as_number : Bool → ℕ
as_number t = if t then 1 else 0

as_number-low : (t : Bool) → low byte (as_number t) ≡ as_number t
as_number-low true = refl
as_number-low false = refl

-- the state after a comparison of what the registers hold
abbrev after_comparison : OperationType → (is_signed : Bool) → Width → State → State
after_comparison op signed w s =
    put byte ra (as_number (compare_result op signed w (get w ra s) (get w rb s)))
      (record s { flags = some (compared w (get w ra s) (get w rb s)) })

comparison-run :
    (op : OperationType) (signed : Bool) (w : Width) (rest : Code) (s : State)
    → IsComparison op
    → run (comparison op signed w ++ rest) s ≡ run rest (after_comparison op signed w s)
unfolding run step
comparison-run op signed w rest s c =
    ap
      (λ t.
        resume rest
          (set_to t ra (record s { flags = some (compared w (get w ra s) (get w rb s)) })))
      (holds-compared op signed w (get w ra s) (get w rb s) c (low-bound w _) (low-bound w _))

-- the value of `al` after the code
abbrev pub truth_after : Code → State → Option ℕ
truth_after code s = elim (run code s) [ none ↦ none | some r ↦ some (get byte ra r) ]

abbrev loaded : Width → (left right : ℤ) → State → State
loaded w left right s =
    let first = put qword r10 (at rbp left s) s in
    let second = put w ra (load (bytes w) first.memory (at r10 (pos 0) first)) first in
    let third = put qword r10 (at rbp right second) second in
    put w rb (load (bytes w) third.memory (at r10 (pos 0) third)) third

loads-run :
    (w : Width) (left right : ℤ) (rest : Code) (s : State)
    → run (loads w left right ++ rest) s ≡ run rest (loaded w left right s)
unfolding run step
loads-run w left right rest s = refl

pub branch_eval_primitive-code :
    (frame : StackFrameInfo) (x y : Variable) (op : OperationType) (w : Width) (left right : ℤ)
    → offset_of frame x ≡ ok left
    → offset_of frame y ≡ ok right
    → x.type_of.size ≡ bytes w
    → is_floating_point x.type_of ≡ false
    → IsComparison op
    → branch_eval_primitive frame op (variable x) (variable y)
      ≡ ok (loads w left right ++ comparison op (is_signed_integer x.type_of) w)
unfolding branch_eval_primitive operand_type calculate_condition
branch_eval_primitive-code frame x y op w left right ex ey h f c =
    let moved = move_operands-variables frame x.type_of x y w left right ex ey h f in
    let calculated = integer_comparison-comparison op x.type_of w c h in
    rw moved (rw f (rw calculated.1 (rw c (rw calculated.0 refl))))

pub comparison-truth :
    (op : OperationType) (signed : Bool) (w : Width) (left right : ℤ) (s : State)
    → IsComparison op
    → truth_after (loads w left right ++ comparison op signed w) s
      ≡ some (as_number (compare_result op signed w (value_at w left s) (value_at w right s)))
unfolding run
comparison-truth op signed w left right s c =
    let start : State = loaded w left right s in
    let a : get w ra start ≡ value_at w left s = get-load w s.memory _ _ (s.registers rbp) left in
    let b : get w rb start ≡ value_at w right s = get-load w s.memory _ _ (s.registers rbp) right in
    ap (λ r. elim r as (λ x. Option ℕ) [ none ↦ none | some t ↦ some (get byte ra t) ])
      (loads-run w left right (comparison op signed w) s ∙ comparison-run op signed w [] start c)
    ∙ ap some (low-merge byte _ _ ∙ as_number-low _)
    ∙ ap (λ u. some (as_number (compare_result op signed w u (get w rb start)))) a
    ∙ ap (λ v. some (as_number (compare_result op signed w (value_at w left s) v))) b

-- For two variables of one of the types int8 to int64, uint8 to uint64 and bool, which `HasOrder` lists with
-- the order that C++ gives their values, the code of a condition `x op y` leaves 1 in `al` if the comparison
-- holds in that order and 0 if not.
pub branch_eval_primitive-truth :
    (frame : StackFrameInfo) (x y : Variable) (op : OperationType) (signed : Bool) (w : Width)
    (left right : ℤ) (s : State)
    → offset_of frame x ≡ ok left
    → offset_of frame y ≡ ok right
    → x.type_of.size ≡ bytes w
    → HasOrder x.type_of.type_info signed
    → IsComparison op
    → (code : Code) × (branch_eval_primitive frame op (variable x) (variable y) ≡ ok code)
      × (truth_after code s
          ≡ some (as_number (compare_result op signed w (value_at w left s) (value_at w right s))))
branch_eval_primitive-truth frame x y op signed w left right s ex ey h o c =
    let kind = is_signed_integer-HasOrder x.type_of refl o in
    (
      loads w left right ++ comparison op signed w,
      branch_eval_primitive-code frame x y op w left right ex ey h kind.1 c
          ∙ ap (λ t. ok (loads w left right ++ comparison op t w)) kind.0,
      comparison-truth op signed w left right s c,
    )

abbrev save_truth : Code
save_truth = mov (at_reg byte rc) (reg byte ra) ∷ []

-- the code of an assignment
abbrev truth_assignment : OperationType → (is_signed : Bool) → Width → (left right to : ℤ) → Code
truth_assignment op signed w left right to =
    loads w left right ++ lea (r64 rc) (in_frame to) ∷ (comparison op signed w ++ save_truth)

assign_primitive-code :
    (frame : StackFrameInfo) (target x y : Variable) (op : OperationType) (w : Width)
    (left right to : ℤ)
    → offset_of frame x ≡ ok left
    → offset_of frame y ≡ ok right
    → offset_of frame target ≡ ok to
    → x.type_of.size ≡ bytes w
    → is_floating_point x.type_of ≡ false
    → IsComparison op
    → assign_primitive frame target op (variable x) (variable y)
      ≡ ok (truth_assignment op (is_signed_integer x.type_of) w left right to)
unfolding assign_primitive operand_type calculate_and_save
assign_primitive-code frame target x y op w left right to ex ey et h f c =
    let moved = move_operands-variables frame x.type_of x y w left right ex ey h f in
    let calculated = integer_comparison-comparison op x.type_of w c h in
    rw moved (rw et (rw f (rw calculated.1 (rw c (rw calculated.0 refl)))))

-- the memory of a state that there may be
abbrev memory_of : Option State → Option (ℕ → ℕ)
memory_of t = elim t [ none ↦ none | some s ↦ some s.memory ]

prepared-run :
    (w : Width) (left right to : ℤ) (rest : Code) (s : State)
    → run (loads w left right ++ lea (r64 rc) (in_frame to) ∷ rest) s
      ≡ run rest (prepared w left right to s)
unfolding run step
prepared-run w left right to rest s = refl

truth-saved :
    (t : Bool) (s : State)
    → memory_of (run save_truth (put byte ra (as_number t) s))
      ≡ some (store 1 s.memory (at rc (pos 0) s) (as_number t))
unfolding run step
truth-saved t s =
    ap (λ v. some (store 1 s.memory (at rc (pos 0) s) v)) (low-merge byte _ _ ∙ as_number-low t)

truth_assignment-run :
    (op : OperationType) (signed : Bool) (w : Width) (left right to : ℤ) (s : State)
    → IsComparison op
    → memory_after (truth_assignment op signed w left right to) s
      ≡ some (
          store 1 s.memory
            (at rbp to s)
            (as_number (compare_result op signed w (value_at w left s) (value_at w right s))))
truth_assignment-run op signed w left right to s c =
    let start : State = prepared w left right to s in
    let facts = prepared_lem w left right to s in
    ap memory_of (
      prepared-run w left right to (comparison op signed w ++ save_truth) s
      ∙ comparison-run op signed w save_truth start c)
    ∙ truth-saved (compare_result op signed w (get w ra start) (get w rb start))
        (record start { flags = some (compared w (get w ra start) (get w rb start)) })
    ∙ rw facts.0 (rw facts.1 (rw facts.2 refl))

-- For two variables of one of the types int8 to int64, uint8 to uint64 and bool, `target = x op y` with a
-- comparison emits code that stores one byte in the target and writes nothing else: 1 if the comparison holds
-- in the order that C++ gives the values of the type, as `HasOrder` lists it, and 0 if not.
pub assign_primitive-truth :
    (frame : StackFrameInfo) (target x y : Variable) (op : OperationType) (signed : Bool)
    (w : Width) (left right to : ℤ) (s : State)
    → offset_of frame x ≡ ok left
    → offset_of frame y ≡ ok right
    → offset_of frame target ≡ ok to
    → x.type_of.size ≡ bytes w
    → HasOrder x.type_of.type_info signed
    → IsComparison op
    → (code : Code) × (assign_primitive frame target op (variable x) (variable y) ≡ ok code)
      × (memory_after code s
          ≡ some (
              store 1 s.memory
                (at rbp to s)
                (as_number (compare_result op signed w (value_at w left s) (value_at w right s)))))
assign_primitive-truth frame target x y op signed w left right to s ex ey et h o c =
    let kind = is_signed_integer-HasOrder x.type_of refl o in
    (
      truth_assignment op signed w left right to,
      assign_primitive-code frame target x y op w left right to ex ey et h kind.1 c
          ∙ ap (λ t. ok (truth_assignment op t w left right to)) kind.0,
      truth_assignment-run op signed w left right to s c,
    )
