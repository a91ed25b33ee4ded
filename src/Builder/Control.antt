-- ===== src/Builder/Control.antt =====
-- The methods of `RectifiedScope` that open scopes, and that leave them (src/microjit/instructions.h
-- and instructions.cpp).
use microjit.Prelude.{
  ℕ, ◌+◌, ◌-◌, ◌^◌, Bool, false, not, List, [], ◌∷◌, ◌++◌, Option, none, some, ◌==◌, if◌then◌else◌,
}
use microjit.Types.{CxxType, type_ne}
use microjit.Raise.{
  Result, ok, raise, guard, or_raise, ◌>>=◌, ◌>>◌, undefined, childs_parent_is_not_self,
  does_not_own_expression, condition_returns_nothing, last_branch_is_not_if, no_if_branch,
  does_not_own_variable, return_type_mismatched, void_return_with_variable,
}
use microjit.Ir.{
  Variable, Branch, BranchType, branch_if, branch_else, branch_while, return_from, scope_create,
  branch, break_loop, operation_does_return,
}
use microjit.Builder.{Store, scope_at, update, u32, push_instruction, has_variable_in_all_scope}
use microjit.Builder.Parser.{ParseResult}
use microjit.Builder.Assignments.{push}

-- `p_child->parent_scope != this`
abbrev pub is_parent : Option ℕ → ℕ → Bool
is_parent none this = false
is_parent (some parent) this = parent == this

-- `create_scope`
unfoldable pub create_scope : Store → ℕ → ℕ → Result Store
create_scope b this child = do
  c ← scope_at b child
  guard (is_parent c.parent_scope this) childs_parent_is_not_self
  s ← scope_at b this
  let owner = record s { directly_owned_scopes = s.directly_owned_scopes ++ child ∷ [] }
  ok (update b this (push_instruction owner (scope_create child)))

-- what `if_branch`, `else_branch` and `while_branch` share: the new instruction goes to `branches`
-- and to `instructions`
unfoldable pub push_branch : Store → ℕ → BranchType → ℕ → Result Store
push_branch b this kind child = do
  s ← scope_at b this
  let ins : Branch = record {
    address = b.next_address;
    scope_offset = s.current_scope_offset;
    branch_type = kind;
    sub_scope = child;
  }
  let owner = record s {
    directly_owned_scopes = s.directly_owned_scopes ++ child ∷ [];
    branches = s.branches ++ ins ∷ [];
  }
  ok (record (update b this (push_instruction owner (branch ins))) {
    next_address = b.next_address + 1;
  })

-- `if_branch`, with `IfInstruction::create`
unfoldable pub if_branch : Store → ℕ → ParseResult → ℕ → Result Store
if_branch b this parsed child = do
  guard (parsed.host == this) does_not_own_expression
  guard (operation_does_return parsed.operation) condition_returns_nothing
  push_branch b this (branch_if parsed.expression_of) child

-- `branches[branches.size() - 1]`
unfoldable pub last_branch : List Branch → Option Branch
last_branch [] = none
last_branch (x ∷ []) = some x
last_branch (x ∷ y ∷ rest) = last_branch (y ∷ rest)

-- `else_branch`: the branch before it must be the instruction before it.
unfoldable pub else_branch : Store → ℕ → ℕ → Result Store
else_branch b this child = do
  s ← scope_at b this
  last ← or_raise (last_branch s.branches) no_if_branch
  guard (last.scope_offset == u32 (s.current_scope_offset + (2 ^ 32 - 1))) last_branch_is_not_if
  push_branch b this branch_else child

-- `while_branch`, with `WhileInstruction::create`
unfoldable pub while_branch : Store → ℕ → ParseResult → ℕ → Result Store
while_branch b this parsed child = do
  guard (parsed.host == this) does_not_own_expression
  guard (operation_does_return parsed.operation) condition_returns_nothing
  push_branch b this (branch_while parsed.expression_of) child

-- `break_loop`
unfoldable pub push_break : Store → ℕ → Result Store
push_break b this = push b this break_loop

-- `function_return<R>`; with a result type and no variable the source reads through a null pointer.
unfoldable pub function_return : Store → ℕ → CxxType → Option Variable → Result Store
function_return b this return_type none =
    if return_type.size == 0 then push b this (return_from none) else raise undefined
function_return b this return_type (some v) = do
  guard (has_variable_in_all_scope b this v) does_not_own_variable
  guard (not (return_type.size == 0)) void_return_with_variable
  guard (not (type_ne v.type_of return_type)) return_type_mismatched
  push b this (return_from (some v))
