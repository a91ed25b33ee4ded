-- ===== src/Builder/Scopes.antt =====
-- The methods that open scopes and leave them, and the invocations, keep the store built.
use microjit.Prelude.{
  ℕ, ◌+◌, ◌^◌, ◌-◌, inl, inr, refl, sym, Bool, not, List, Option, none, some, get_elem?, ◌==◌,
  Bool-cases,
}
use mathlib.Core.List.{append-nil}
use microjit.Types.{CxxType, type_ne}
use microjit.Raise.{
  Ensures, returned, raised, Ensures-guard, Ensures-or_raise, Ensures-any, undefined,
  childs_parent_is_not_self, does_not_own_expression, condition_returns_nothing,
  last_branch_is_not_if, no_if_branch, does_not_own_variable, return_type_mismatched,
  void_return_with_variable, no_trampoline,
}
use microjit.Ir.{
  Variable, Value, BranchType, branch_if, branch_else, branch_while, return_from, scope_create,
  invoke, branch, operation_does_return,
}
use microjit.Builder.{Store, push_instruction, has_variable_in_all_scope, u32}
use microjit.Builder.Parser.{ParseResult}
use microjit.Builder.Control.{
  is_parent, create_scope, push_branch, if_branch, else_branch, while_branch, last_branch,
  function_return,
}
use microjit.Builder.Invocations.{Callee, push_invocation, create_invocation, arguments_or_empty}
use microjit.Builder.Visibility.{has_variable_in_all_scope-Reaches}
use microjit.Builder.Invariant.{IsExpression, IsCondition, IsBuiltStore}
use microjit.Builder.Preservation.{update-IsBuilt, push_instruction-IsBuilt}
use microjit.Builder.Checked.{push-IsBuiltStore}

module _ (b : Store) (this : ℕ) (v : IsBuiltStore b) where
  pub create_scope-IsBuiltStore : (child : ℕ) → Ensures IsBuiltStore (create_scope b this child)
  unfolding create_scope push_instruction
  create_scope-IsBuiltStore child = Ensures-or_raise (get_elem? b.scopes child) undefined λ c _.
      Ensures-guard (is_parent c.parent_scope this) childs_parent_is_not_self λ _.
        Ensures-or_raise (get_elem? b.scopes this) undefined λ s at. returned (
          update-IsBuilt b this _ s v at refl (
            push_instruction-IsBuilt b.scopes this s _ (scope_create child) (v this s at) refl refl
              refl refl (sym (append-nil s.variables)) (sym (append-nil s.branches)) tt))

  pub push_branch-IsBuiltStore :
      (kind : BranchType) (child : ℕ)
      → IsCondition b.scopes this kind
      → Ensures IsBuiltStore (push_branch b this kind child)
  unfolding push_branch push_instruction
  push_branch-IsBuiltStore kind child h =
      Ensures-or_raise (get_elem? b.scopes this) undefined λ s at. returned (
        update-IsBuilt b this _ s v at refl (
          push_instruction-IsBuilt b.scopes this s _ (branch _) (v this s at) refl refl refl refl
            (sym (append-nil s.variables)) refl h))

  pub if_branch-IsBuiltStore :
      (parsed : ParseResult) (child : ℕ)
      → IsExpression b.scopes this parsed.return_type parsed.expression_of
      → Ensures IsBuiltStore (if_branch b this parsed child)
  unfolding if_branch
  if_branch-IsBuiltStore parsed child h =
      Ensures-guard (parsed.host == this) does_not_own_expression λ _.
        Ensures-guard (operation_does_return parsed.operation) condition_returns_nothing λ _.
          push_branch-IsBuiltStore (branch_if parsed.expression_of) child (parsed.return_type, h)

  pub while_branch-IsBuiltStore :
      (parsed : ParseResult) (child : ℕ)
      → IsExpression b.scopes this parsed.return_type parsed.expression_of
      → Ensures IsBuiltStore (while_branch b this parsed child)
  unfolding while_branch
  while_branch-IsBuiltStore parsed child h =
      Ensures-guard (parsed.host == this) does_not_own_expression λ _.
        Ensures-guard (operation_does_return parsed.operation) condition_returns_nothing λ _.
          push_branch-IsBuiltStore (branch_while parsed.expression_of) child (parsed.return_type, h)

  pub else_branch-IsBuiltStore : (child : ℕ) → Ensures IsBuiltStore (else_branch b this child)
  unfolding else_branch
  else_branch-IsBuiltStore child = Ensures-or_raise (get_elem? b.scopes this) undefined λ s at.
      Ensures-or_raise (last_branch s.branches) no_if_branch λ last _.
        Ensures-guard (last.scope_offset == u32 (s.current_scope_offset + (2 ^ 32 - 1)))
          last_branch_is_not_if λ _. push_branch-IsBuiltStore branch_else child tt

  pub function_return-IsBuiltStore :
      (t : CxxType) (x : Option Variable) → Ensures IsBuiltStore (function_return b this t x)
  unfolding function_return
  function_return-IsBuiltStore t none = elim (Bool-cases (t.size == 0)) [
    | inl e ↦ rw e (push-IsBuiltStore b this (return_from none) v refl refl λ s at. tt)
    | inr e ↦ rw e raised
  ]
  function_return-IsBuiltStore t (some x) =
      Ensures-guard (has_variable_in_all_scope b this x) does_not_own_variable λ h.
        Ensures-guard (not (t.size == 0)) void_return_with_variable λ _.
          Ensures-guard (not (type_ne x.type_of t)) return_type_mismatched λ _.
            push-IsBuiltStore b this (return_from (some x)) v refl refl
              λ s at. has_variable_in_all_scope-Reaches b this x h

  pub push_invocation-IsBuiltStore :
      (is_jit : Bool) (callee : Callee) (args : Option (List Value)) (ret : Option Variable)
      → Ensures IsBuiltStore (push_invocation is_jit b this callee args ret)
  unfolding push_invocation
  push_invocation-IsBuiltStore is_jit callee args ret =
      Ensures-or_raise callee.trampoline no_trampoline λ trampoline _.
        Ensures-or_raise (get_elem? b.scopes this) undefined λ s at.
          Ensures-any
            (create_invocation is_jit s.arguments callee trampoline (arguments_or_empty args) ret)
            λ ins. push-IsBuiltStore b this (invoke ins) v refl refl λ s at. tt
