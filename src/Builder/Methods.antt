-- ===== src/Builder/Methods.antt =====
-- Every call on a scope keeps the store built, and so does a program of calls.
use microjit.Prelude.{ℕ, refl, sym, ◌∙◌, not, List, get_elem?, ◌==◌}
use microjit.Types.{CxxType, type_ne, empty_copy_ctor}
use microjit.Raise.{
  ◌>>=◌, Ensures, Ensures-guard, Ensures-or_raise, Ensures-bind, Ensures-check, undefined,
  does_not_own_variable, does_not_own_assignment_target, does_not_own_copy_target, same_target,
  mismatched_type, does_not_own_expression, mismatched_return_type, not_a_primitive_result,
}
use microjit.Ir.{
  OperationType, Variable, Value, immediate, argument, variable, expression, construct,
  copy_construct, assign,
}
use microjit.Builder.{RectifiedScope, Store, has_variable, has_variable_in_all_scope}
use microjit.Builder.Parser.{ParseResult, parse}
use microjit.Builder.Assignments.{
  check_expression, default_construct, construct_from_immediate, construct_from_argument,
  construct_from_variable, construct_from_primitive_atomic_expression,
  assign_from_primitive_atomic_expression, assign_from_immediate, assign_from_argument,
  assign_from_variable,
}
use microjit.Builder.Visibility.{Reaches, here, has_variable-own, has_variable_in_all_scope-Reaches}
use microjit.Builder.Invariant.{SameType, IsExpression, HasType, IsBuiltStore}
use microjit.Builder.Checked.{
  type_ne-SameType, push-IsBuiltStore, own-Reaches, check_argument-HasType, check_two-Reaches,
  parse-IsExpression,
}

IsExpression-HasType :
    (scopes : List RectifiedScope) (args : List CxxType) (this : ℕ) (t u : CxxType) (x : Value)
    → SameType t u
    → IsExpression scopes this u x
    → HasType scopes args this t x
IsExpression-HasType scopes args this t u (expression op p l r) e h =
    (h.0, h.1, h.2, h.3, h.4, e ∙ h.5)
IsExpression-HasType scopes args this t u (immediate _ _) e h = absurd h
IsExpression-HasType scopes args this t u (argument _) e h = absurd h
IsExpression-HasType scopes args this t u (variable _) e h = absurd h

module _ (b : Store) (this : ℕ) (v : IsBuiltStore b) where
  pub default_construct-IsBuiltStore :
      (t : CxxType) (x : Variable) (ctor : ℕ)
      → Ensures IsBuiltStore (default_construct b this t x ctor)
  unfolding default_construct
  default_construct-IsBuiltStore t x ctor = Ensures-bind (own-Reaches b this v x) λ _ r.
      Ensures-guard (not (type_ne t x.type_of)) mismatched_type
        λ _. push-IsBuiltStore b this (construct x ctor) v refl refl λ s at. r

  pub construct_from_immediate-IsBuiltStore :
      (x : Variable) (t : CxxType) (bytes : ℕ)
      → Ensures IsBuiltStore (construct_from_immediate b this x t bytes)
  unfolding construct_from_immediate
  construct_from_immediate-IsBuiltStore x t bytes = Ensures-bind (own-Reaches b this v x) λ _ r.
      Ensures-guard (not (type_ne t x.type_of)) mismatched_type λ e.
        push-IsBuiltStore b this (copy_construct x (immediate bytes t) x.type_of.copy_constructor) v
          refl refl λ s at. (r, sym (type_ne-SameType t x.type_of e))

  pub construct_from_argument-IsBuiltStore :
      (x : Variable) (idx : ℕ) → Ensures IsBuiltStore (construct_from_argument b this x idx)
  unfolding construct_from_argument
  construct_from_argument-IsBuiltStore x idx = Ensures-bind (own-Reaches b this v x) λ _ r.
      Ensures-bind (check_argument-HasType b this v x idx) λ _ t.
        push-IsBuiltStore b this (copy_construct x (argument idx) x.type_of.copy_constructor) v refl
          refl λ s at. (r, t s at)

  pub construct_from_variable-IsBuiltStore :
      (x y : Variable) → Ensures IsBuiltStore (construct_from_variable b this x y)
  unfolding construct_from_variable
  construct_from_variable-IsBuiltStore x y =
      Ensures-or_raise (get_elem? b.scopes this) undefined λ s at.
        Ensures-guard (has_variable s this x) does_not_own_assignment_target λ hx.
          Ensures-guard (has_variable_in_all_scope b this y) does_not_own_copy_target λ hy.
            Ensures-guard (not (x.address == y.address)) same_target λ _.
              Ensures-guard (not (type_ne x.type_of y.type_of)) mismatched_type λ e.
                push-IsBuiltStore b this (copy_construct x (variable y) x.type_of.copy_constructor)
                  v refl refl
                  λ s' at'. (
                    rw (has_variable-own s this x hx).0 here,
                    (
                      has_variable_in_all_scope-Reaches b this y hy,
                      type_ne-SameType x.type_of y.type_of e,
                    ),
                  )

  -- the value of a parsed expression that passes the checks has the type of the target
  check_expression-HasType :
      (x : Variable) (parsed : ParseResult)
      → IsExpression b.scopes this parsed.return_type parsed.expression_of
      → Ensures
          (λ _.
            Reaches b.scopes this x.parent_scope
            × ((args : List CxxType) → HasType b.scopes args this x.type_of parsed.expression_of))
          (check_expression b this x parsed)
  unfolding check_expression
  check_expression-HasType x parsed h =
      Ensures-guard (has_variable_in_all_scope b this x) does_not_own_assignment_target λ hx.
        Ensures-guard (parsed.host == this) does_not_own_expression λ _.
          Ensures-guard (not (type_ne x.type_of parsed.return_type)) mismatched_return_type λ e.
            Ensures-check parsed.return_type.is_primitive not_a_primitive_result λ _. (
              has_variable_in_all_scope-Reaches b this x hx,
              λ args.
                  IsExpression-HasType b.scopes args this x.type_of parsed.return_type
                    parsed.expression_of (type_ne-SameType x.type_of parsed.return_type e) h,
            )

  pub construct_from_expression-IsBuiltStore :
      (x : Variable) (op : OperationType) (l r : Value)
      → Ensures IsBuiltStore
          (parse b this op l r >>= construct_from_primitive_atomic_expression b this x)
  unfolding construct_from_primitive_atomic_expression
  construct_from_expression-IsBuiltStore x op l r =
      Ensures-bind (parse-IsExpression b this v op l r) λ parsed h.
        Ensures-bind (check_expression-HasType x parsed h) λ _ t.
          push-IsBuiltStore b this (copy_construct x parsed.expression_of empty_copy_ctor) v refl
            refl λ s at. (t.0, t.1 s.arguments)

  pub assign_from_expression-IsBuiltStore :
      (x : Variable) (op : OperationType) (l r : Value)
      → Ensures IsBuiltStore
          (parse b this op l r >>= assign_from_primitive_atomic_expression b this x)
  unfolding assign_from_primitive_atomic_expression
  assign_from_expression-IsBuiltStore x op l r =
      Ensures-bind (parse-IsExpression b this v op l r) λ parsed h.
        Ensures-bind (check_expression-HasType x parsed h) λ _ t.
          push-IsBuiltStore b this (assign x parsed.expression_of empty_copy_ctor) v refl refl
            λ s at. (t.0, t.1 s.arguments)

  pub assign_from_immediate-IsBuiltStore :
      (x : Variable) (t : CxxType) (bytes f : ℕ)
      → Ensures IsBuiltStore (assign_from_immediate b this x t bytes f)
  unfolding assign_from_immediate
  assign_from_immediate-IsBuiltStore x t bytes f =
      Ensures-guard (has_variable_in_all_scope b this x) does_not_own_variable λ hx.
        Ensures-guard (not (type_ne t x.type_of)) mismatched_type λ e.
          push-IsBuiltStore b this (assign x (immediate bytes t) f) v refl refl λ s at.
            (has_variable_in_all_scope-Reaches b this x hx, sym (type_ne-SameType t x.type_of e))

  pub assign_from_argument-IsBuiltStore :
      (t : CxxType) (x : Variable) (idx f : ℕ)
      → Ensures IsBuiltStore (assign_from_argument b this t x idx f)
  unfolding assign_from_argument
  assign_from_argument-IsBuiltStore t x idx f =
      Ensures-guard (has_variable_in_all_scope b this x) does_not_own_variable λ hx.
        Ensures-guard (not (type_ne t x.type_of)) mismatched_type λ _.
          Ensures-bind (check_argument-HasType b this v x idx) λ _ h.
            push-IsBuiltStore b this (assign x (argument idx) f) v refl refl
              λ s at. (has_variable_in_all_scope-Reaches b this x hx, h s at)

  pub assign_from_variable-IsBuiltStore :
      (t : CxxType) (x y : Variable) (f : ℕ)
      → Ensures IsBuiltStore (assign_from_variable b this t x y f)
  unfolding assign_from_variable
  assign_from_variable-IsBuiltStore t x y f = Ensures-bind (check_two-Reaches b this v x y) λ _ r.
      Ensures-guard (not (type_ne t x.type_of)) mismatched_type λ _.
        Ensures-guard (not (type_ne x.type_of y.type_of)) mismatched_type λ e.
          push-IsBuiltStore b this (assign x (variable y) f) v refl refl
            λ s at. (r.0, (r.1, type_ne-SameType x.type_of y.type_of e))
