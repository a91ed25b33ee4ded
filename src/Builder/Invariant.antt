-- ===== src/Builder/Invariant.antt =====
-- What holds of every scope that the methods have filled.
use microjit.Prelude.{ℕ, ◌<◌, ◌≡◌, true, List, [], ◌∷◌, ◌++◌, none, some, length, get_elem?, All}
use microjit.Types.{CxxType}
use microjit.Ir.{
  Variable, Value, immediate, argument, variable, expression, BranchType, branch_if, branch_else,
  branch_while, Branch, Instruction, declare_variable, construct, copy_construct, assign,
  return_from, scope_create, convert, primitive_convert, invoke, branch, break_loop,
}
use microjit.Builder.{RectifiedScope, Store, u32}
use microjit.Builder.Parser.{expression_type}
use microjit.Builder.Visibility.{Reaches}

-- the two types are one type for C++
abbrev pub SameType : CxxType → CxxType → Type 0
SameType t u = t.type_info ≡ u.type_info

-- An operand of an expression has the type `t`; a variable stands in a scope that `this` reaches.
abbrev pub IsOperand : List RectifiedScope → ℕ → CxxType → Value → Type 0
IsOperand scopes this t (immediate _ u) = SameType t u
IsOperand scopes this t (argument _) = ⊥
IsOperand scopes this t (variable v) = Reaches scopes this v.parent_scope × SameType t v.type_of
IsOperand scopes this t (expression _ _ _ _) = ⊥

-- An expression has two operands of one primitive type, and with it the type `target`.
abbrev pub IsExpression : List RectifiedScope → ℕ → CxxType → Value → Type 0
IsExpression scopes this target (expression op is_primitive left right) =
    (t : CxxType) × (is_primitive ≡ true)
    × (t.is_primitive ≡ true)
    × IsOperand scopes this t left
    × IsOperand scopes this t right
    × SameType target (expression_type op t)
IsExpression scopes this target _ = ⊥

-- The value has the type `target`.
abbrev pub HasType : List RectifiedScope → List CxxType → ℕ → CxxType → Value → Type 0
HasType scopes args this target (immediate _ t) = SameType target t
HasType scopes args this target (argument idx) =
    (t : CxxType) × (get_elem? args idx ≡ some t) × SameType target t
HasType scopes args this target (variable v) =
    Reaches scopes this v.parent_scope × SameType target v.type_of
HasType scopes args this target (expression op p l r) =
    IsExpression scopes this target (expression op p l r)

abbrev pub IsCondition : List RectifiedScope → ℕ → BranchType → Type 0
IsCondition scopes this (branch_if e) = (t : CxxType) × IsExpression scopes this t e
IsCondition scopes this branch_else = Unit
IsCondition scopes this (branch_while e) = (t : CxxType) × IsExpression scopes this t e

-- An instruction of scope `this` of a function with the arguments `args` uses variables that the
-- scope can see, and copies and assigns values of their types; an invocation is not looked into.
abbrev pub IsTyped : List RectifiedScope → List CxxType → ℕ → Instruction → Type 0
IsTyped scopes args this (declare_variable v) = v.parent_scope ≡ this
IsTyped scopes args this (construct v _) = Reaches scopes this v.parent_scope
IsTyped scopes args this (copy_construct v x _) =
    Reaches scopes this v.parent_scope × HasType scopes args this v.type_of x
IsTyped scopes args this (assign v x _) =
    Reaches scopes this v.parent_scope × HasType scopes args this v.type_of x
IsTyped scopes args this (return_from none) = Unit
IsTyped scopes args this (return_from (some v)) = Reaches scopes this v.parent_scope
IsTyped scopes args this (scope_create _) = Unit
IsTyped scopes args this (convert v w _) =
    Reaches scopes this v.parent_scope × Reaches scopes this w.parent_scope
IsTyped scopes args this (primitive_convert v w _) =
    Reaches scopes this v.parent_scope × Reaches scopes this w.parent_scope
IsTyped scopes args this (invoke _) = Unit
IsTyped scopes args this (branch x) = IsCondition scopes this x.branch_type
IsTyped scopes args this break_loop = Unit

-- the variables that a list of instructions declares, and its branches
abbrev pub variable_of : Instruction → List Variable
variable_of (declare_variable v) = v ∷ []
variable_of _ = []

abbrev pub branch_of : Instruction → List Branch
branch_of (branch x) = x ∷ []
branch_of _ = []

unfoldable pub variables_in : List Instruction → List Variable
variables_in [] = []
variables_in (ins ∷ rest) = variable_of ins ++ variables_in rest

unfoldable pub branches_in : List Instruction → List Branch
branches_in [] = []
branches_in (ins ∷ rest) = branch_of ins ++ branches_in rest

-- A scope is younger than its parent, counts its instructions, lists the variables and the branches
-- that stand among them, in their order, and all its instructions are typed.
pub record IsBuilt (scopes : List RectifiedScope) (this : ℕ) (s : RectifiedScope) : Type 0 where
  pub older : (p : ℕ) → s.parent_scope ≡ some p → p < this
  pub counted : s.current_scope_offset ≡ u32 (length s.instructions)
  pub listed : s.variables ≡ variables_in s.instructions
  pub branched : s.branches ≡ branches_in s.instructions
  pub typed : All (IsTyped scopes s.arguments this) s.instructions

abbrev pub IsBuiltStore : Store → Type 0
IsBuiltStore b = (i : ℕ) (s : RectifiedScope) → get_elem? b.scopes i ≡ some s → IsBuilt b.scopes i s

-- what the scopes around a scope are does not depend on the rest of the store
abbrev pub Keeps : List RectifiedScope → List RectifiedScope → Type 0
Keeps old new = (i j : ℕ) → Reaches old i j → Reaches new i j

IsOperand-mono :
    (old new : List RectifiedScope) (this : ℕ) (t : CxxType) (x : Value)
    → Keeps old new
    → IsOperand old this t x
    → IsOperand new this t x
IsOperand-mono old new this t (immediate _ u) k h = h
IsOperand-mono old new this t (argument _) k h = h
IsOperand-mono old new this t (variable v) k h = (k this v.parent_scope h.0, h.1)
IsOperand-mono old new this t (expression _ _ _ _) k h = h

pub IsExpression-mono :
    (old new : List RectifiedScope) (this : ℕ) (t : CxxType) (x : Value)
    → Keeps old new
    → IsExpression old this t x
    → IsExpression new this t x
IsExpression-mono old new this t (expression op p l r) k h = (
  h.0,
  h.1,
  h.2,
  IsOperand-mono old new this h.0 l k h.3,
  IsOperand-mono old new this h.0 r k h.4,
  h.5,
)
IsExpression-mono old new this t (immediate _ _) k h = h
IsExpression-mono old new this t (argument _) k h = h
IsExpression-mono old new this t (variable _) k h = h

HasType-mono :
    (old new : List RectifiedScope) (args : List CxxType) (this : ℕ) (t : CxxType) (x : Value)
    → Keeps old new
    → HasType old args this t x
    → HasType new args this t x
HasType-mono old new args this t (immediate _ u) k h = h
HasType-mono old new args this t (argument _) k h = h
HasType-mono old new args this t (variable v) k h = (k this v.parent_scope h.0, h.1)
HasType-mono old new args this t (expression op p l r) k h =
    IsExpression-mono old new this t (expression op p l r) k h

pub IsCondition-mono :
    (old new : List RectifiedScope) (this : ℕ) (x : BranchType)
    → Keeps old new
    → IsCondition old this x
    → IsCondition new this x
IsCondition-mono old new this (branch_if e) k h = (h.0, IsExpression-mono old new this h.0 e k h.1)
IsCondition-mono old new this branch_else k h = h
IsCondition-mono old new this (branch_while e) k h =
    (h.0, IsExpression-mono old new this h.0 e k h.1)

IsTyped-mono :
    (old new : List RectifiedScope) (args : List CxxType) (this : ℕ) (ins : Instruction)
    → Keeps old new
    → IsTyped old args this ins
    → IsTyped new args this ins
IsTyped-mono old new args this (declare_variable v) k h = h
IsTyped-mono old new args this (construct v _) k h = k this v.parent_scope h
IsTyped-mono old new args this (copy_construct v x _) k h =
    (k this v.parent_scope h.0, HasType-mono old new args this v.type_of x k h.1)
IsTyped-mono old new args this (assign v x _) k h =
    (k this v.parent_scope h.0, HasType-mono old new args this v.type_of x k h.1)
IsTyped-mono old new args this (return_from none) k h = h
IsTyped-mono old new args this (return_from (some v)) k h = k this v.parent_scope h
IsTyped-mono old new args this (scope_create _) k h = h
IsTyped-mono old new args this (convert v w _) k h =
    (k this v.parent_scope h.0, k this w.parent_scope h.1)
IsTyped-mono old new args this (primitive_convert v w _) k h =
    (k this v.parent_scope h.0, k this w.parent_scope h.1)
IsTyped-mono old new args this (invoke _) k h = h
IsTyped-mono old new args this (branch x) k h = IsCondition-mono old new this x.branch_type k h
IsTyped-mono old new args this break_loop k h = h

All-mono :
    (old new : List RectifiedScope) (args : List CxxType) (this : ℕ) (xs : List Instruction)
    → Keeps old new
    → All (IsTyped old args this) xs
    → All (IsTyped new args this) xs
All-mono old new args this [] k h = tt
All-mono old new args this (x ∷ xs) k h =
    (IsTyped-mono old new args this x k h.0, All-mono old new args this xs k h.1)

pub IsBuilt-mono :
    (old new : List RectifiedScope) (this : ℕ) (s : RectifiedScope)
    → Keeps old new
    → IsBuilt old this s
    → IsBuilt new this s
IsBuilt-mono old new this s k v = record {
  older = v.older;
  counted = v.counted;
  listed = v.listed;
  branched = v.branched;
  typed = All-mono old new s.arguments this s.instructions k v.typed;
}
