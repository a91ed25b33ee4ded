-- ===== src/Ir/Snapshot.antt =====
-- The scope of a function as the compiler reads it (`RectifiedScope::get_instructions` and
-- `get_variables` of src/microjit/instructions.h): the instructions in order, those that open a
-- scope with the instructions of that scope. The compiler follows the references; nothing changes
-- a scope while it runs.
use microjit.Prelude.{ℕ, suc, ◌+◌, ◌≢◌, List, [], ◌∷◌, ◌++◌, All, map}
use microjit.Ir.{Variable, Instruction, declare_variable}

-- `enter` holds a `scope_create` or a `branch`, the instructions of the scope that it opens, and
-- those that follow it.
pub data Snapshot : Type 0 where
  done : Snapshot
  leaf : Instruction → Snapshot → Snapshot
  enter : Instruction → Snapshot → Snapshot → Snapshot

-- `instructions.size()`
unfoldable pub size : Snapshot → ℕ
size done = 0
size (leaf _ rest) = suc (size rest)
size (enter _ _ rest) = suc (size rest)

abbrev pub declared_by : Instruction → List Variable
declared_by (declare_variable v) = v ∷ []
declared_by _ = []

-- `get_variables`: `create_variable` pushes to this list and to the instructions at once.
unfoldable pub variables : Snapshot → List Variable
variables done = []
variables (leaf ins rest) = declared_by ins ++ variables rest
variables (enter _ _ rest) = variables rest

-- the addresses of the variables of a scope and of those in it, in the order of declaration
unfoldable pub declared : Snapshot → List ℕ
declared done = []
declared (leaf ins rest) = map (λ v. v.address) (declared_by ins) ++ declared rest
declared (enter _ child rest) = declared child ++ declared rest

-- scopes in all, the scope itself included
unfoldable pub scope_count : Snapshot → ℕ
scope_count done = 1
scope_count (leaf _ rest) = scope_count rest
scope_count (enter _ child rest) = scope_count child + scope_count rest

-- `k` is none of the numbers of the list
abbrev pub Absent : ℕ → List ℕ → Type 0
Absent k = All (λ j. j ≢ k)

-- no number stands twice in the list
abbrev pub Distinct : List ℕ → Type 0
Distinct [] = Unit
Distinct (k ∷ ks) = Absent k ks × Distinct ks
