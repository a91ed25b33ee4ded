-- ===== src/Builder/Visibility.antt =====
-- What `has_variable_in_all_scope` decides.
use microjit.Prelude.{
  ℕ, zero, suc, ◌≤◌, ◌<◌, ◌≡◌, refl, ◌↔◌, inl, inr, true, List, some, arith, Bool-cases,
  Option-cases, get_elem?,
}
use microjit.Ir.{Variable}
use microjit.Builder.{
  RectifiedScope, Store, has_variable, has_variable_up, has_variable_in_all_scope,
}

-- Scope `j` is scope `i`, or one of those around it.
pub data Reaches (scopes : List RectifiedScope) : ℕ → ℕ → Type 0 where
  here : {i : ℕ} → Reaches scopes i i
  up :
      {i p j : ℕ} {s : RectifiedScope}
      → get_elem? scopes i ≡ some s
      → s.parent_scope ≡ some p
      → Reaches scopes p j
      → Reaches scopes i j

-- Every scope is younger than its parent.
abbrev pub IsOrdered : List RectifiedScope → Type 0
IsOrdered scopes =
    (i p : ℕ) (s : RectifiedScope) → get_elem? scopes i ≡ some s → s.parent_scope ≡ some p → p < i

-- The variable stands in scope `i` or in one around it, before the end of its scope.
abbrev pub IsVisible : List RectifiedScope → ℕ → Variable → Type 0
IsVisible scopes i v =
    Reaches scopes i v.parent_scope
    × (owner : RectifiedScope) × (get_elem? scopes v.parent_scope ≡ some owner)
    × (v.scope_offset ≤ owner.current_scope_offset)

pub has_variable-own :
    (s : RectifiedScope) (this : ℕ) (v : Variable)
    → has_variable s this v ≡ true
    → (v.parent_scope ≡ this) × (v.scope_offset ≤ s.current_scope_offset)
unfolding has_variable
has_variable-own s this v h = ground arith

own-has_variable :
    (s : RectifiedScope) (this : ℕ) (v : Variable)
    → v.parent_scope ≡ this
    → v.scope_offset ≤ s.current_scope_offset
    → has_variable s this v ≡ true
unfolding has_variable
own-has_variable s this v e h = ground arith

here-IsVisible :
    (scopes : List RectifiedScope) (this : ℕ) (v : Variable) (s : RectifiedScope)
    → get_elem? scopes this ≡ some s
    → v.parent_scope ≡ this
    → v.scope_offset ≤ s.current_scope_offset
    → IsVisible scopes this v
here-IsVisible scopes this v s es e h = (rw e here, s, rw e es, h)

up-IsVisible :
    (rounds : ℕ) (scopes : List RectifiedScope) (this : ℕ) (v : Variable)
    → has_variable_up rounds scopes this v ≡ true
    → IsVisible scopes this v
unfolding has_variable_up
up-IsVisible zero scopes this v h = cc
up-IsVisible (suc rounds) scopes this v h = elim (Option-cases (get_elem? scopes this)) [
  | inl e ↦ absurd (ground arith)
  | inr (s, es) ↦ elim (Bool-cases (has_variable s this v)) [
    | inl own ↦ let (e, o) = has_variable-own s this v own in here-IsVisible scopes this v s es e o
    | inr other ↦ elim (Option-cases s.parent_scope) [
      | inl ep ↦ absurd (ground arith)
      | inr (p, ep) ↦
          let (r, owner, eo, le) = up-IsVisible rounds scopes p v (ground arith) in
          (up es ep r, owner, eo, le)
    ]
  ]
]

IsVisible-up :
    (rounds : ℕ) (scopes : List RectifiedScope) (this j : ℕ) (v : Variable) (owner : RectifiedScope)
    → IsOrdered scopes
    → this < rounds
    → Reaches scopes this j
    → v.parent_scope ≡ j
    → get_elem? scopes j ≡ some owner
    → v.scope_offset ≤ owner.current_scope_offset
    → has_variable_up rounds scopes this v ≡ true
unfolding has_variable_up
IsVisible-up zero scopes this j v owner o lt r e eo le = absurd (omega arith)
IsVisible-up (suc rounds) scopes this j v owner o lt here e eo le =
    ground (arith, own-has_variable owner this v)
IsVisible-up (suc rounds) scopes this j v owner o lt (up {p = p} {s = s} es ep r) e eo le =
    ground
      (arith, IsVisible-up rounds scopes p j v owner o (omega (arith, o this p s es ep)) r e eo le)

-- In a store where parents are older than their children, `has_variable_in_all_scope` holds of
-- exactly the variables that stand in this scope or in one around it, at or before the end of
-- their scope; the walk to the root never runs out of rounds.
pub has_variable_in_all_scope_iff :
    (b : Store) (this : ℕ) (v : Variable)
    → IsOrdered b.scopes
    → (has_variable_in_all_scope b this v ≡ true) ↔ IsVisible b.scopes this v
unfolding has_variable_in_all_scope
has_variable_in_all_scope_iff b this v o = (
  λ h. up-IsVisible (suc this) b.scopes this v h,
  λ (r, owner, eo, le).
      IsVisible-up (suc this) b.scopes this v.parent_scope v owner o (omega arith) r refl eo le,
)

pub has_variable_in_all_scope-Reaches :
    (b : Store) (this : ℕ) (v : Variable)
    → has_variable_in_all_scope b this v ≡ true
    → Reaches b.scopes this v.parent_scope
unfolding has_variable_in_all_scope
has_variable_in_all_scope-Reaches b this v h = (up-IsVisible (suc this) b.scopes this v h).0
