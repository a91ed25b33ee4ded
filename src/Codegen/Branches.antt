-- ===== src/Codegen/Branches.antt =====
-- `create_branches_report` of src/microjit/jit_x86_64.cpp.
use microjit.Prelude.{ℕ, zero, suc, ◌+◌, List, [], ◌∷◌, ◌++◌, Option, none, some}
use microjit.Prelude.Dict
use microjit.Raise.{Result, ok, raise, ◌>>=◌, undefined}
use microjit.Ir.{Branch, BranchType, branch_else, branch}
use microjit.Ir.Snapshot.{Snapshot, done, leaf, enter}

-- `BranchInfo`: its three labels, and the address of the else that follows an if
pub record BranchInfo : Type 0 where
  pub begin_of_scope : ℕ
  pub end_of_scope : ℕ
  pub loop_end_of_scope : ℕ
  pub else_branch : Option ℕ

-- `BranchesReport`, with the number that the next label gets and the address of the branch that
-- `last_branch_info` belongs to
pub record BranchesReport : Type 0 where
  pub branch_map : List (ℕ × BranchInfo)
  pub next_label : ℕ
  pub last_branch : Option ℕ

-- `get_branches()`, each with the instructions of its scope
unfoldable pub branches_of : Snapshot → List (Branch × Snapshot)
branches_of done = []
branches_of (leaf ins rest) = branches_of rest
branches_of (enter (branch b) child rest) = (b, child) ∷ branches_of rest
branches_of (enter _ child rest) = branches_of rest

-- the new entry
abbrev pub new_info : ℕ → BranchInfo
new_info label = record {
  begin_of_scope = label;
  end_of_scope = label + 1;
  loop_end_of_scope = label + 2;
  else_branch = none;
}

-- `last_branch_info->else_branch = current_branch`, where there is such a branch
unfoldable pub set_else :
    BranchType → (address : ℕ) → BranchesReport → Result (List (ℕ × BranchInfo))
set_else branch_else address report = elim report.last_branch [
  | none ↦ raise undefined
  | some last ↦ elim (Dict.lookup last report.branch_map) [
    | none ↦ raise undefined
    | some info ↦
        ok (Dict.insert last (record info { else_branch = some address }) report.branch_map)
  ]
]
set_else _ address report = ok report.branch_map

-- one round of the loop
unfoldable pub register_branch : Branch → BranchesReport → Result BranchesReport
register_branch b report = set_else b.branch_type b.address report >>= λ known. ok (record {
  branch_map = Dict.insert b.address (new_info report.next_label) known;
  next_label = report.next_label + 3;
  last_branch = some b.address;
})

-- the loop over the queue, with fuel; `none` in place of a report: the fuel ran out
unfoldable pub branches_loop :
    ℕ → List (Branch × Snapshot) → BranchesReport → Result (Option BranchesReport)
branches_loop zero queue report = ok none
branches_loop (suc fuel) [] report = ok (some report)
branches_loop (suc fuel) ((b, scope) ∷ queue) report =
    register_branch b report >>= λ next. branches_loop fuel (queue ++ branches_of scope) next

unfoldable pub create_branches_report : ℕ → Snapshot → Result (Option BranchesReport)
create_branches_report fuel main_scope =
    branches_loop fuel (branches_of main_scope)
      (record { branch_map = []; next_label = 0; last_branch = none })
