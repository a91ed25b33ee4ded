-- ===== src/Codegen/Parsed.antt =====
-- From the parser of src/microjit/instructions.cpp to the code generator of src/microjit/jit_x86_64.cpp.
use mathlib.Core.Path.{subst}
use microjit.Prelude.{ℕ, ◌≡◌, refl, Bool, true, false, not, ◌&&◌}
use microjit.Prelude.Int.{ℤ}
use microjit.Types.{CxxType, is_floating_point, type_ne}
use microjit.Raise.{
  ok, Ensures, returned, Ensures-guard, not_floating_point_capable, mismatched_type,
  operands_not_primitive, not_a_binary_operation, host_does_not_own_variable,
}
use microjit.Ir.{
  OperationType, Variable, Value, immediate, argument, variable, expression, is_binary,
  is_operation_floating_point_capable,
}
use microjit.Builder.{Store}
use microjit.Builder.Parser.{ParseResult, finalize, check_types, parse}
use microjit.Frame.{StackFrameInfo}
use microjit.Codegen.Copies.{offset_of}
use microjit.Codegen.Expressions.{operand_type, assign_atomic_expression}
use microjit.Codegen.Progress.{
  Returns, IsPlaced, IsSupported, IsApplicable, assign_atomic_expression-Returns,
}

capable_lem : (f c : Bool) → not (f && not c) ≡ true → f ≡ true → c ≡ true
capable_lem true true h g = refl
capable_lem true false h g = cc
capable_lem false c h g = cc

module _ (frame : StackFrameInfo) (target : Variable) (to : ℤ) (op : OperationType)
    (left right : Value) (e : offset_of frame target ≡ ok to) (h : IsPlaced frame left)
    (k : IsPlaced frame right) where
  -- code is generated for what the parser returns
  Compiles : ParseResult → Type 0
  Compiles r = Returns (assign_atomic_expression frame target r.expression_of)

  check_types-Compiles :
      (host : ℕ) (t u : CxxType)
      → is_binary op ≡ true
      → operand_type left ≡ ok t
      → IsSupported t
      → Ensures Compiles (check_types host op left right t u)
  unfolding check_types finalize Compiles IsApplicable
  check_types-Compiles host t u b o s = Ensures-guard (not (type_ne t u)) mismatched_type λ p.
      Ensures-guard t.is_primitive operands_not_primitive λ q.
        Ensures-guard (not (is_floating_point t && not (is_operation_floating_point_capable op)))
          not_floating_point_capable
          λ c. returned (
            assign_atomic_expression-Returns frame target to op left right t e o s
              (b, capable_lem (is_floating_point t) (is_operation_floating_point_capable op) c) h k)

-- Code is generated for every expression that the parser returns, if its left operand is of a supported type,
-- its operands are immediates or variables in the frame, and the target is in the frame.
pub parse-Compiles :
    (frame : StackFrameInfo) (target : Variable) (to : ℤ) (b : Store) (host : ℕ)
    (op : OperationType) (left right : Value) (t : CxxType)
    → offset_of frame target ≡ ok to
    → IsPlaced frame left
    → IsPlaced frame right
    → operand_type left ≡ ok t
    → IsSupported t
    → Ensures
        (λ r. Returns (assign_atomic_expression frame target r.expression_of))
        (parse b host op left right)
unfolding parse operand_type Compiles IsPlaced
parse-Compiles frame target to b host op (immediate x t) (immediate y u) v e h k o s =
    let same : v ≡ t = cc in
    Ensures-guard (is_binary op) not_a_binary_operation λ p.
      check_types-Compiles frame target to op (immediate x t) (immediate y u) e h k host t u p refl
        (subst IsSupported same s)
parse-Compiles frame target to b host op (immediate x t) (variable w) v e h k o s =
    let same : v ≡ t = cc in
    Ensures-guard (is_binary op) not_a_binary_operation λ p.
      Ensures-guard _ host_does_not_own_variable λ q.
        check_types-Compiles frame target to op (immediate x t) (variable w) e h k host t w.type_of
          p refl (subst IsSupported same s)
parse-Compiles frame target to b host op (variable w) (immediate x t) v e h k o s =
    let same : v ≡ w.type_of = cc in
    Ensures-guard (is_binary op) not_a_binary_operation λ p.
      Ensures-guard _ host_does_not_own_variable λ q.
        check_types-Compiles frame target to op (variable w) (immediate x t) e h k host w.type_of t
          p refl (subst IsSupported same s)
parse-Compiles frame target to b host op (variable w) (variable x) v e h k o s =
    let same : v ≡ w.type_of = cc in
    Ensures-guard (is_binary op) not_a_binary_operation λ p.
      Ensures-guard _ host_does_not_own_variable λ q.
        check_types-Compiles frame target to op (variable w) (variable x) e h k host w.type_of
          x.type_of p refl (subst IsSupported same s)
parse-Compiles frame target to b host op (immediate x t) (argument i) v e h k o s = elim k [ ]
parse-Compiles frame target to b host op (immediate x t) (expression p q l r) v e h k o s =
    elim k [ ]
parse-Compiles frame target to b host op (variable w) (argument i) v e h k o s = elim k [ ]
parse-Compiles frame target to b host op (variable w) (expression p q l r) v e h k o s = elim k [ ]
parse-Compiles frame target to b host op (argument i) right v e h k o s = elim h [ ]
parse-Compiles frame target to b host op (expression p q l r) right v e h k o s = elim h [ ]
