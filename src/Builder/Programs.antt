-- ===== src/Builder/Programs.antt =====
-- A program of calls on a built store leaves a built store.
use microjit.Prelude.{get_elem?-lt, ℕ, ◌≡◌, refl, List, [], ◌∷◌, none, some, arith, get_elem?}
use microjit.Types.{CxxType}
use microjit.Raise.{
  Result, ok, ◌>>=◌, Ensures, returned, Ensures-or_raise, Ensures-bind, Ensures-elim, undefined,
}
use microjit.Ir.{Variable, Value, convert, primitive_convert, break_loop}
use microjit.Builder.{Store, make_scope, fresh_scope}
use microjit.Builder.Assignments.{convert_variable, primitive_convert_variable}
use microjit.Builder.Control.{create_scope, if_branch, else_branch, while_branch, push_break}
use microjit.Builder.Facade.{
  empty_store, make_function, make_child, create_child_scope, if_child, else_child, while_child,
}
use microjit.Builder.Calls.{
  Call, new_variable, construct_default, construct_immediate, construct_argument,
  construct_variable, construct_expression, assign_expression, assign_immediate, assign_argument,
  assign_variable, convert_value, primitive_convert_value, open_scope, open_else, open_if,
  open_while, break_out, return_value, invoke_function, apply, apply_all,
}
use microjit.Builder.Invariant.{IsExpression, IsBuiltStore, IsExpression-mono}
use microjit.Builder.Preservation.{make_scope-IsBuilt, Keeps-append}
use microjit.Builder.Checked.{
  push-IsBuiltStore, create_variable-IsBuiltStore, check_conversion-Reaches, parse-IsExpression,
}
use microjit.Builder.Methods.{
  default_construct-IsBuiltStore, construct_from_immediate-IsBuiltStore,
  construct_from_argument-IsBuiltStore, construct_from_variable-IsBuiltStore,
  construct_from_expression-IsBuiltStore, assign_from_expression-IsBuiltStore,
  assign_from_immediate-IsBuiltStore, assign_from_argument-IsBuiltStore,
  assign_from_variable-IsBuiltStore,
}
use microjit.Builder.Scopes.{
  create_scope-IsBuiltStore, if_branch-IsBuiltStore, while_branch-IsBuiltStore,
  else_branch-IsBuiltStore, function_return-IsBuiltStore, push_invocation-IsBuiltStore,
}

-- the first component of what is returned
abbrev IsBuiltFirst : Store × ℕ → Type 0
IsBuiltFirst r = IsBuiltStore r.0

-- the store and the number of the child, as the methods of `Scope` return them
abbrev kept : Store → ℕ → Result (Store × ℕ)
kept done child = ok (done, child)

module _ (b : Store) (this : ℕ) (v : IsBuiltStore b) where
  -- A store with one more child scope is built, and expressions stay typed.
  IsMade : Store × ℕ → Type 0
  IsMade made =
      IsBuiltStore made.0
      × ((t : CxxType) (x : Value)
          → IsExpression b.scopes this t x
          → IsExpression made.0.scopes this t x)

  make_child-IsMade : Ensures IsMade (make_child b this)
  unfolding make_child make_scope IsMade
  make_child-IsMade = Ensures-or_raise (get_elem? b.scopes this) undefined λ s at. returned (
    make_scope-IsBuilt b s.arguments (some this) v
        (λ p e. ground (arith, get_elem?-lt b.scopes this s at)),
    λ t x h.
        IsExpression-mono b.scopes _ this t x
          (Keeps-append b.scopes (fresh_scope s.arguments (some this))) h,
  )

  make_child-IsBuiltStore :
      (f : Store → ℕ → Result Store)
      → ((made : Store) (child : ℕ)
          → IsBuiltStore made
          → ((t : CxxType) (x : Value)
              → IsExpression b.scopes this t x
              → IsExpression made.scopes this t x)
          → Ensures IsBuiltStore (f made child))
      → Ensures IsBuiltStore (
          make_child b this >>= (λ made. f made.0 made.1 >>= λ done. kept done made.1) >>= λ made.
          ok made.0)
  unfolding IsMade
  make_child-IsBuiltStore f k =
      Ensures-bind {Q = IsBuiltFirst}
        (Ensures-bind make_child-IsMade
          λ made h. Ensures-bind (k made.0 made.1 h.0 h.1) λ done d. returned d)
        λ made h. returned h

  -- A call on a scope, if it returns, leaves a built store.
  pub apply-IsBuiltStore : (call : Call) → Ensures IsBuiltStore (apply b this call)
  unfolding apply create_child_scope if_child else_child while_child push_break convert_variable
      primitive_convert_variable
  apply-IsBuiltStore (new_variable t properties) =
      Ensures-bind {Q = λ (made : Store × Variable). IsBuiltStore made.0}
        (create_variable-IsBuiltStore b this v t properties) λ made h. returned h
  apply-IsBuiltStore (construct_default t x ctor) = default_construct-IsBuiltStore b this v t x ctor
  apply-IsBuiltStore (construct_immediate x t bytes) =
      construct_from_immediate-IsBuiltStore b this v x t bytes
  apply-IsBuiltStore (construct_argument x idx) =
      construct_from_argument-IsBuiltStore b this v x idx
  apply-IsBuiltStore (construct_variable x y) = construct_from_variable-IsBuiltStore b this v x y
  apply-IsBuiltStore (construct_expression x op l r) =
      construct_from_expression-IsBuiltStore b this v x op l r
  apply-IsBuiltStore (assign_expression x op l r) =
      assign_from_expression-IsBuiltStore b this v x op l r
  apply-IsBuiltStore (assign_immediate t x bytes f) =
      assign_from_immediate-IsBuiltStore b this v x t bytes f
  apply-IsBuiltStore (assign_argument t x idx f) =
      assign_from_argument-IsBuiltStore b this v t x idx f
  apply-IsBuiltStore (assign_variable t x y f) = assign_from_variable-IsBuiltStore b this v t x y f
  apply-IsBuiltStore (convert_value f t x y c) =
      Ensures-bind (check_conversion-Reaches b this v f t x y)
        λ _ r. push-IsBuiltStore b this (convert x y c) v refl refl λ s at. r
  apply-IsBuiltStore (primitive_convert_value f t x y c) =
      Ensures-bind (check_conversion-Reaches b this v f t x y)
        λ _ r. push-IsBuiltStore b this (primitive_convert x y c) v refl refl λ s at. r
  apply-IsBuiltStore open_scope =
      make_child-IsBuiltStore (λ made child. create_scope made this child)
        λ made child h _. create_scope-IsBuiltStore made this h child
  apply-IsBuiltStore open_else =
      make_child-IsBuiltStore (λ made child. else_branch made this child)
        λ made child h _. else_branch-IsBuiltStore made this h child
  apply-IsBuiltStore (open_if op l r) =
      Ensures-bind (parse-IsExpression b this v op l r) λ parsed e.
        make_child-IsBuiltStore (λ made child. if_branch made this parsed child)
          λ made child h k.
            if_branch-IsBuiltStore made this h parsed child
              (k parsed.return_type parsed.expression_of e)
  apply-IsBuiltStore (open_while op l r) =
      Ensures-bind (parse-IsExpression b this v op l r) λ parsed e.
        make_child-IsBuiltStore (λ made child. while_branch made this parsed child)
          λ made child h k.
            while_branch-IsBuiltStore made this h parsed child
              (k parsed.return_type parsed.expression_of e)
  apply-IsBuiltStore break_out = push-IsBuiltStore b this break_loop v refl refl λ s at. tt
  apply-IsBuiltStore (return_value t x) = function_return-IsBuiltStore b this v t x
  apply-IsBuiltStore (invoke_function is_jit callee args ret) =
      push_invocation-IsBuiltStore b this v is_jit callee args ret

apply_all-IsBuiltStore :
    (b : Store) (calls : List (ℕ × Call))
    → IsBuiltStore b
    → Ensures IsBuiltStore (apply_all b calls)
unfolding apply_all
apply_all-IsBuiltStore b [] v = returned v
apply_all-IsBuiltStore b ((this, call) ∷ rest) v =
    Ensures-bind (apply-IsBuiltStore b this v call) λ next h. apply_all-IsBuiltStore next rest h

empty_store-IsBuiltStore : IsBuiltStore empty_store
empty_store-IsBuiltStore i s e = cc

-- A program of checked calls that starts with a new function and raises nothing has built every
-- scope of it: each scope is younger than its parent, counts its instructions, and lists the
-- variables and the branches among them in their order. Constructions, assignments, conversions and
-- returns are of variables of the scope or of the scopes around it; what is copied or assigned has
-- the type of its target, and reads such variables only; the condition of a branch is an expression
-- of two such operands of one primitive type. Nothing is said of the operands of an invocation.
pub make_function-apply_all-IsBuiltStore :
    (args : List CxxType) (calls : List (ℕ × Call)) (b : Store)
    → apply_all (make_function empty_store args).0 calls ≡ ok b
    → IsBuiltStore b
unfolding make_function
make_function-apply_all-IsBuiltStore args calls b e =
    Ensures-elim (apply_all (make_function empty_store args).0 calls) e (
      apply_all-IsBuiltStore (make_function empty_store args).0 calls
        (make_scope-IsBuilt empty_store args none empty_store-IsBuiltStore λ p h. cc))
