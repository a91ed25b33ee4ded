-- ===== src/Builder/Checked.antt =====
-- Every checking method of `RectifiedScope` keeps the store built.
use microjit.Prelude.{
  ℕ, ◌≡◌, refl, sym, ◌∙◌, true, not, ◌&&◌, List, [], some, arith, get_elem?, ◌==◌,
}
use mathlib.Core.List.{append-nil}
use microjit.Types.{CxxType, create_void, type_ne, is_floating_point}
use microjit.Raise.{
  Ensures, returned, raised, Ensures-guard, Ensures-or_raise, Ensures-check, undefined,
  assertion_failed, does_not_own_variable, does_not_own_assignment_target, does_not_own_copy_target,
  same_target, mismatched_type, invalid_argument_index, does_not_own_target, mismatched_from_type,
  mismatched_to_type, operands_not_primitive, not_floating_point_capable, not_a_binary_operation,
  host_does_not_own_variable,
}
use microjit.Ir.{
  OperationType, Variable, Value, immediate, argument, variable, expression, Instruction,
  declare_variable, is_binary, is_operation_floating_point_capable,
}
use microjit.Builder.{
  RectifiedScope, Store, has_variable, has_variable_in_all_scope, create_variable, push_instruction,
}
use microjit.Builder.Parser.{ParseResult, parse, check_types, finalize}
use microjit.Builder.Assignments.{push, own, check_argument, check_two, check_conversion}
use microjit.Builder.Visibility.{Reaches, here, has_variable-own, has_variable_in_all_scope-Reaches}
use microjit.Builder.Invariant.{
  SameType, IsOperand, IsExpression, HasType, IsTyped, variable_of, branch_of, IsBuiltStore,
}
use microjit.Builder.Preservation.{update-IsBuilt, push_instruction-IsBuilt}

pub type_ne-SameType : (t u : CxxType) → not (type_ne t u) ≡ true → SameType t u
type_ne-SameType t u h = ground arith

-- an instruction that declares nothing and branches nowhere, pushed where it is typed
pub push-IsBuiltStore :
    (b : Store) (this : ℕ) (ins : Instruction)
    → IsBuiltStore b
    → variable_of ins ≡ []
    → branch_of ins ≡ []
    → ((s : RectifiedScope)
        → get_elem? b.scopes this ≡ some s
        → IsTyped b.scopes s.arguments this ins)
    → Ensures IsBuiltStore (push b this ins)
unfolding push push_instruction
push-IsBuiltStore b this ins v ev eb t =
    Ensures-or_raise (get_elem? b.scopes this) undefined λ s at. returned (
      update-IsBuilt b this _ s v at refl (
        push_instruction-IsBuilt b.scopes this s s ins (v this s at) refl refl refl refl
          (rw (ev, append-nil s.variables) refl) (rw (eb, append-nil s.branches) refl) (t s at)))

IsOperand-same :
    (scopes : List RectifiedScope) (this : ℕ) (t u : CxxType) (x : Value)
    → SameType t u
    → IsOperand scopes this u x
    → IsOperand scopes this t x
IsOperand-same scopes this t u (immediate _ w) e h = e ∙ h
IsOperand-same scopes this t u (variable w) e h = (h.0, e ∙ h.1)
IsOperand-same scopes this t u (argument _) e h = h
IsOperand-same scopes this t u (expression _ _ _ _) e h = h

module _ (b : Store) (this : ℕ) (v : IsBuiltStore b) where
  -- `create_variable<T>`
  pub create_variable-IsBuiltStore :
      (t : CxxType) (properties : ℕ)
      → Ensures (λ made. IsBuiltStore made.0) (create_variable b this t properties)
  unfolding create_variable push_instruction
  create_variable-IsBuiltStore t properties =
      Ensures-guard (type_ne create_void t) assertion_failed λ _.
        Ensures-or_raise (get_elem? b.scopes this) undefined λ s at. returned (
          update-IsBuilt b this _ s v at refl (
            push_instruction-IsBuilt b.scopes this s _ (declare_variable _) (v this s at) refl refl
              refl refl refl (sym (append-nil s.branches)) refl))

  -- What the checks say that the methods start with.
  pub own-Reaches :
      (x : Variable) → Ensures (λ _. Reaches b.scopes this x.parent_scope) (own b this x)
  unfolding own
  own-Reaches x = Ensures-or_raise (get_elem? b.scopes this) undefined λ s at.
      Ensures-check (has_variable s this x) does_not_own_variable
        λ h. rw (has_variable-own s this x h).0 here

  pub check_argument-HasType :
      (x : Variable) (idx : ℕ)
      → Ensures
          (λ _.
            (s : RectifiedScope)
            → get_elem? b.scopes this ≡ some s
            → HasType b.scopes s.arguments this x.type_of (argument idx))
          (check_argument b this x idx)
  unfolding check_argument
  check_argument-HasType x idx = Ensures-or_raise (get_elem? b.scopes this) undefined λ s at.
      Ensures-or_raise (get_elem? s.arguments idx) invalid_argument_index λ t e.
        Ensures-check (not (type_ne t x.type_of)) mismatched_type
          λ h s' at'. (t, ground (arith, at, at', e), sym (type_ne-SameType t x.type_of h))

  pub check_two-Reaches :
      (x y : Variable)
      → Ensures
          (λ _. Reaches b.scopes this x.parent_scope × Reaches b.scopes this y.parent_scope)
          (check_two b this x y)
  unfolding check_two
  check_two-Reaches x y =
      Ensures-guard (has_variable_in_all_scope b this x) does_not_own_assignment_target λ hx.
        Ensures-guard (has_variable_in_all_scope b this y) does_not_own_copy_target λ hy.
          Ensures-check (not (x.address == y.address)) same_target λ _. (
            has_variable_in_all_scope-Reaches b this x hx,
            has_variable_in_all_scope-Reaches b this y hy,
          )

  pub check_conversion-Reaches :
      (f t : CxxType) (x y : Variable)
      → Ensures
          (λ _. Reaches b.scopes this x.parent_scope × Reaches b.scopes this y.parent_scope)
          (check_conversion b this f t x y)
  unfolding check_conversion
  check_conversion-Reaches f t x y =
      Ensures-guard (has_variable_in_all_scope b this x && has_variable_in_all_scope b this y)
        does_not_own_target
        λ h. Ensures-guard (not (type_ne x.type_of f)) mismatched_from_type λ _.
          Ensures-check (not (type_ne y.type_of t)) mismatched_to_type λ _. (
            has_variable_in_all_scope-Reaches b this x (ground (arith, h)),
            has_variable_in_all_scope-Reaches b this y (ground (arith, h)),
          )

  check_types-IsExpression :
      (op : OperationType) (l r : Value) (t u : CxxType)
      → IsOperand b.scopes this t l
      → IsOperand b.scopes this u r
      → Ensures
          (λ (parsed : ParseResult).
            IsExpression b.scopes this parsed.return_type parsed.expression_of)
          (check_types this op l r t u)
  unfolding check_types finalize
  check_types-IsExpression op l r t u hl hr = Ensures-guard (not (type_ne t u)) mismatched_type λ e.
      Ensures-guard t.is_primitive operands_not_primitive λ p.
        Ensures-guard (not (is_floating_point t && not (is_operation_floating_point_capable op)))
          not_floating_point_capable
          λ _.
            returned
              (t, refl, p, hl, IsOperand-same b.scopes this t u r (type_ne-SameType t u e) hr, refl)

  -- `parse` returns well-typed expressions only.
  pub parse-IsExpression :
      (op : OperationType) (l r : Value)
      → Ensures
          (λ (parsed : ParseResult).
            IsExpression b.scopes this parsed.return_type parsed.expression_of)
          (parse b this op l r)
  unfolding parse
  parse-IsExpression op (immediate x t) (immediate y u) =
      Ensures-guard (is_binary op) not_a_binary_operation
        λ _. check_types-IsExpression op (immediate x t) (immediate y u) t u refl refl
  parse-IsExpression op (immediate x t) (variable w) =
      Ensures-guard (is_binary op) not_a_binary_operation λ _.
        Ensures-guard (has_variable_in_all_scope b this w) host_does_not_own_variable λ h.
          check_types-IsExpression op (immediate x t) (variable w) t w.type_of refl
            (has_variable_in_all_scope-Reaches b this w h, refl)
  parse-IsExpression op (variable w) (immediate x t) =
      Ensures-guard (is_binary op) not_a_binary_operation λ _.
        Ensures-guard (has_variable_in_all_scope b this w) host_does_not_own_variable λ h.
          check_types-IsExpression op (variable w) (immediate x t) w.type_of t
            (has_variable_in_all_scope-Reaches b this w h, refl) refl
  parse-IsExpression op (variable w) (variable z) =
      Ensures-guard (is_binary op) not_a_binary_operation λ _.
        Ensures-guard (has_variable_in_all_scope b this w && has_variable_in_all_scope b this z)
          host_does_not_own_variable
          λ h.
            check_types-IsExpression op (variable w) (variable z) w.type_of z.type_of
              (has_variable_in_all_scope-Reaches b this w (ground (arith, h)), refl)
              (has_variable_in_all_scope-Reaches b this z (ground (arith, h)), refl)
  parse-IsExpression op (immediate _ _) (argument _) = raised
  parse-IsExpression op (immediate _ _) (expression _ _ _ _) = raised
  parse-IsExpression op (variable _) (argument _) = raised
  parse-IsExpression op (variable _) (expression _ _ _ _) = raised
  parse-IsExpression op (argument _) r = raised
  parse-IsExpression op (expression _ _ _ _) r = raised
