-- ===== src/Builder.antt =====
-- `RectifiedScope` of src/microjit/instructions.h and instructions.cpp: the scopes that a program
-- fills with instructions. All scopes stand in one store and are told by their place in it, which
-- is also the number of the object `this`; a scope is made after its parent. A method takes the
-- store and `this`, and returns the new store. Where it returns a reference to the instruction that
-- it pushed, which nothing reads again, the model does not; a null reference to a variable, which
-- every check refuses, is left out but where the code tells it apart.
pub mod Parser
pub mod Assignments
pub mod Control
pub mod Invocations
pub mod Facade
pub mod Visibility
pub mod Invariant
pub mod Preservation
pub mod Calls
pub mod Checked
pub mod Methods
pub mod Scopes
pub mod Programs
pub mod Elses
mod Tests
use microjit.Prelude.{
  ℕ, zero, suc, ◌+◌, ◌%◌, ◌^◌, Bool, true, false, ◌&&◌, ◌||◌, List, [], ◌∷◌, ◌++◌, Option, none,
  some, leb, ◌==◌, length, get_elem?, set,
}
use microjit.Types.{CxxType, create_void, type_ne}
use microjit.Raise.{Result, ok, raise, undefined, assertion_failed, guard, or_raise, ◌>>=◌, ◌>>◌}
use microjit.Ir.{Variable, Instruction, declare_variable, Branch}

-- `RectifiedScope`
pub record RectifiedScope : Type 0 where
  pub parent_scope : Option ℕ
  pub arguments : List CxxType
  pub directly_owned_scopes : List ℕ
  pub variables : List Variable
  pub branches : List Branch
  pub instructions : List Instruction
  pub current_scope_offset : ℕ

-- the objects that exist: the scopes, and the address that the next instruction gets
pub record Store : Type 0 where
  pub scopes : List RectifiedScope
  pub next_address : ℕ

abbrev pub u32 : ℕ → ℕ
u32 n = n % 2 ^ 32

-- the object behind `this`
abbrev pub scope_at : Store → ℕ → Result RectifiedScope
scope_at b this = or_raise (get_elem? b.scopes this) undefined

abbrev pub fresh_scope : List CxxType → Option ℕ → RectifiedScope
fresh_scope args parent = record {
  parent_scope = parent;
  arguments = args;
  directly_owned_scopes = [];
  variables = [];
  branches = [];
  instructions = [];
  current_scope_offset = 0;
}

-- the constructor of `RectifiedScope`, with the number of the new scope
unfoldable pub make_scope : Store → List CxxType → Option ℕ → Store × ℕ
make_scope b args parent =
    (record b { scopes = b.scopes ++ fresh_scope args parent ∷ [] }, length b.scopes)

-- `push_instruction`; the offset that it writes into the instruction is read of variables and
-- branches only, which get it where they are made.
unfoldable pub push_instruction : RectifiedScope → Instruction → RectifiedScope
push_instruction s ins = record s {
  instructions = s.instructions ++ ins ∷ [];
  current_scope_offset = u32 (s.current_scope_offset + 1);
}

-- the store after `this` has become `s`
abbrev pub update : Store → ℕ → RectifiedScope → Store
update b this s = record b { scopes = set b.scopes this s }

-- `has_variable`
unfoldable pub has_variable : RectifiedScope → ℕ → Variable → Bool
has_variable s this v = v.parent_scope == this && leb v.scope_offset s.current_scope_offset

-- `has_variable_in_all_scope`, on the way up: a parent is older than its child, so that more than
-- `this` rounds are not needed.
unfoldable pub has_variable_up : ℕ → List RectifiedScope → ℕ → Variable → Bool
has_variable_up zero scopes this v = false
has_variable_up (suc rounds) scopes this v = elim (get_elem? scopes this) [
  | none ↦ false
  | some s ↦ has_variable s this v || (elim s.parent_scope [
    | none ↦ false
    | some parent ↦ has_variable_up rounds scopes parent v
  ])
]

unfoldable pub has_variable_in_all_scope : Store → ℕ → Variable → Bool
has_variable_in_all_scope b this v = has_variable_up (suc this) b.scopes this v

-- `create_variable<T>`, with the variable; its `TYPE_ASSERT` raises where it is not a `static_assert`
unfoldable pub create_variable : Store → ℕ → CxxType → ℕ → Result (Store × Variable)
create_variable b this type_of properties = do
  guard (type_ne create_void type_of) assertion_failed
  s ← scope_at b this
  let v : Variable = record {
    address = b.next_address;
    parent_scope = this;
    type_of = type_of;
    properties = properties;
    scope_offset = s.current_scope_offset;
  }
  let s' = push_instruction (record s { variables = s.variables ++ v ∷ [] }) (declare_variable v)
  ok (record (update b this s') { next_address = b.next_address + 1 }, v)
