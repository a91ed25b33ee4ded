-- ===== src/Builder/Elses.antt =====
-- After what an else may stand.
use microjit.Prelude.{
  ℕ, ◌+◌, ◌-◌, ◌^◌, ◌<◌, ◌≡◌, refl, true, List, [], ◌∷◌, ◌++◌, some, arith, get_elem?,
  get_elem?-set, ◌==◌,
}
use microjit.Raise.{
  ok, Ensures, returned, Ensures-guard, Ensures-or_raise, Ensures-elim, undefined,
  does_not_own_expression, condition_returns_nothing,
}
use microjit.Ir.{Branch, BranchType, branch_else, branch_while, branch, operation_does_return}
use microjit.Builder.{RectifiedScope, Store, push_instruction, u32, update}
use microjit.Builder.Parser.{ParseResult}
use microjit.Builder.Control.{push_branch, else_branch, while_branch, last_branch}
use microjit.Builder.Invariant.{IsBuiltStore}

last_branch-append : (xs : List Branch) (x : Branch) → last_branch (xs ++ x ∷ []) ≡ some x
unfolding last_branch
last_branch-append [] x = refl
last_branch-append (y ∷ []) x = refl
last_branch-append (y ∷ z ∷ rest) x = last_branch-append (z ∷ rest) x

-- the branch that `push_branch` makes, and its scope afterwards
abbrev made : Store → RectifiedScope → BranchType → ℕ → Branch
made b s kind child = record {
  address = b.next_address;
  scope_offset = s.current_scope_offset;
  branch_type = kind;
  sub_scope = child;
}

abbrev extended : Store → RectifiedScope → BranchType → ℕ → RectifiedScope
extended b s kind child =
    push_instruction
      (record s {
        directly_owned_scopes = s.directly_owned_scopes ++ child ∷ [];
        branches = s.branches ++ made b s kind child ∷ [];
      })
      (branch (made b s kind child))

abbrev after : Store → ℕ → RectifiedScope → BranchType → ℕ → Store
after b this s kind child = record (update b this (extended b s kind child)) {
  next_address = b.next_address + 1;
}

push_branch-eq :
    (b : Store) (this : ℕ) (s : RectifiedScope) (kind : BranchType) (child : ℕ)
    → get_elem? b.scopes this ≡ some s
    → push_branch b this kind child ≡ ok (after b this s kind child)
unfolding push_branch
push_branch-eq b this s kind child at = rw at refl

last-here :
    (b : Store) (this : ℕ) (s t : RectifiedScope) (x : Branch) (child : ℕ)
    → get_elem? b.scopes this ≡ some t
    → last_branch t.branches ≡ some x
    → (x.scope_offset == u32 (t.current_scope_offset + (2 ^ 32 - 1))) ≡ true
    → else_branch b this child ≡ ok (after b this t branch_else child)
unfolding else_branch
last-here b this s t x child at l e = rw (at, l, e) (push_branch-eq b this t branch_else child at)

back : (n : ℕ) → n < 2 ^ 32 → (n == u32 (u32 (n + 1) + (2 ^ 32 - 1))) ≡ true
back n l = let same : u32 (u32 (n + 1) + (2 ^ 32 - 1)) ≡ n = omega arith in rw same (ground arith)

-- what `push_branch` returns, an else may follow
push_branch-Accepts :
    (b : Store) (this : ℕ) (kind : BranchType) (child child' : ℕ)
    → IsBuiltStore b
    → Ensures
        (λ b'. (d : Store) × (else_branch b' this child' ≡ ok d))
        (push_branch b this kind child)
unfolding push_branch push_instruction
push_branch-Accepts b this kind child child' v =
    Ensures-or_raise (get_elem? b.scopes this) undefined λ s at.
      let small : s.current_scope_offset < 2 ^ 32 = omega (arith, (v this s at).counted) in
      let there : get_elem? (after b this s kind child).scopes this
          ≡ some (extended b s kind child) =
        ground (arith, get_elem?-set b.scopes this this (extended b s kind child) s at) in
      returned (
        after (after b this s kind child) this (extended b s kind child) branch_else child',
        last-here (after b this s kind child) this s (extended b s kind child) (made b s kind child)
            child' there (last_branch-append s.branches (made b s kind child))
            (back s.current_scope_offset small),
      )

-- In a built store, right after a while that has been accepted an else is accepted as well.
pub else_branch-while_branch :
    (b b' : Store) (this : ℕ) (parsed : ParseResult) (child child' : ℕ)
    → IsBuiltStore b
    → while_branch b this parsed child ≡ ok b'
    → (d : Store) × (else_branch b' this child' ≡ ok d)
unfolding while_branch
else_branch-while_branch b b' this parsed child child' v e =
    Ensures-elim (while_branch b this parsed child) e (
      Ensures-guard (parsed.host == this) does_not_own_expression λ _.
        Ensures-guard (operation_does_return parsed.operation) condition_returns_nothing
          λ _. push_branch-Accepts b this (branch_while parsed.expression_of) child child' v)
