-- ===== src/Codegen/Registration.antt =====
-- Which branches `create_branches_report` of src/microjit/jit_x86_64.cpp finds: those of the main scope, and
-- of the scopes of those, but none in a scope that `create_scope` has made.
use microjit.Prelude.{
  ℕ, zero, suc, ◌≡◌, ◌≢◌, refl, ◌∙◌, List, [], ◌∷◌, ◌++◌, Option, none, some, arith,
}
use microjit.Prelude.Dict
use microjit.Raise.{ok, raise, Ensures, returned, raised, Ensures-bind, undefined}
use microjit.Ir.{
  Branch, BranchType, branch_if, branch_else, branch_while, declare_variable, construct,
  copy_construct, assign, return_from, scope_create, convert, primitive_convert, invoke, branch,
  break_loop,
}
use microjit.Ir.Snapshot.{Snapshot, done, leaf, enter}
use microjit.Codegen.Branches.{
  BranchInfo, BranchesReport, branches_of, set_else, register_branch, branches_loop,
  create_branches_report,
}

-- `address` is not that of a branch of the scope, or of the scopes of its branches
unfoldable pub IsUnregistered : ℕ → Snapshot → Type 0
IsUnregistered address done = Unit
IsUnregistered address (leaf ins rest) = IsUnregistered address rest
IsUnregistered address (enter (branch b) child rest) =
    (b.address ≢ address) × (IsUnregistered address child × IsUnregistered address rest)
IsUnregistered address (enter ins child rest) = IsUnregistered address rest

NoneQueued : ℕ → List (Branch × Snapshot) → Type 0
NoneQueued address [] = Unit
NoneQueued address ((b, scope) ∷ queue) =
    (b.address ≢ address) × (IsUnregistered address scope × NoneQueued address queue)

NoneQueued-append :
    (address : ℕ) (xs ys : List (Branch × Snapshot))
    → NoneQueued address xs
    → NoneQueued address ys
    → NoneQueued address (xs ++ ys)
unfolding NoneQueued
NoneQueued-append address [] ys h g = g
NoneQueued-append address ((b, scope) ∷ xs) ys h g =
    (h.0, (h.1.0, NoneQueued-append address xs ys h.1.1 g))

branches_of-NoneQueued :
    (address : ℕ) (scope : Snapshot)
    → IsUnregistered address scope
    → NoneQueued address (branches_of scope)
unfolding NoneQueued IsUnregistered branches_of
branches_of-NoneQueued address done h = tt
branches_of-NoneQueued address (leaf ins rest) h = branches_of-NoneQueued address rest h
branches_of-NoneQueued address (enter (branch b) child rest) h =
    (h.0, (h.1.0, branches_of-NoneQueued address rest h.1.1))
branches_of-NoneQueued address (enter (declare_variable v) child rest) h =
    branches_of-NoneQueued address rest h
branches_of-NoneQueued address (enter (construct v ctor) child rest) h =
    branches_of-NoneQueued address rest h
branches_of-NoneQueued address (enter (copy_construct v x ctor) child rest) h =
    branches_of-NoneQueued address rest h
branches_of-NoneQueued address (enter (assign v x ctor) child rest) h =
    branches_of-NoneQueued address rest h
branches_of-NoneQueued address (enter (return_from v) child rest) h =
    branches_of-NoneQueued address rest h
branches_of-NoneQueued address (enter (scope_create scope) child rest) h =
    branches_of-NoneQueued address rest h
branches_of-NoneQueued address (enter (convert v w f) child rest) h =
    branches_of-NoneQueued address rest h
branches_of-NoneQueued address (enter (primitive_convert v w f) child rest) h =
    branches_of-NoneQueued address rest h
branches_of-NoneQueued address (enter (invoke ins) child rest) h =
    branches_of-NoneQueued address rest h
branches_of-NoneQueued address (enter break_loop child rest) h =
    branches_of-NoneQueued address rest h

-- the report has no entry for the address
abbrev Lacks : ℕ → List (ℕ × BranchInfo) → Type 0
Lacks address known = Dict.lookup address known ≡ none

insert-Lacks :
    (address key : ℕ) (info : BranchInfo) (known : List (ℕ × BranchInfo))
    → key ≢ address
    → Lacks address known
    → Lacks address (Dict.insert key info known)
insert-Lacks address key info known h g = Dict.lookup-insert key address info known ∙ ground arith

-- an entry that is changed was there
found-ne :
    (address key : ℕ) (info : BranchInfo) (known : List (ℕ × BranchInfo))
    → Lacks address known
    → Dict.lookup key known ≡ some info
    → key ≢ address
found-ne address key info known h g e = cc

change_found-Lacks :
    (address last new : ℕ) (known : List (ℕ × BranchInfo)) (found : Option BranchInfo)
    → Lacks address known
    → Dict.lookup last known ≡ found
    → Ensures (Lacks address) (elim found [
      | none ↦ raise undefined
      | some info ↦ ok (Dict.insert last (record info { else_branch = some new }) known)
    ])
change_found-Lacks address last new known none h e = raised
change_found-Lacks address last new known (some info) h e =
    returned (insert-Lacks address last _ known (found-ne address last info known h e) h)

change_last-Lacks :
    (address new : ℕ) (known : List (ℕ × BranchInfo)) (last_branch : Option ℕ)
    → Lacks address known
    → Ensures (Lacks address) (elim last_branch [
      | none ↦ raise undefined
      | some last ↦ elim (Dict.lookup last known) [
        | none ↦ raise undefined
        | some info ↦ ok (Dict.insert last (record info { else_branch = some new }) known)
      ]
    ])
change_last-Lacks address new known none h = raised
change_last-Lacks address new known (some last) h =
    change_found-Lacks address last new known (Dict.lookup last known) h refl

set_else-Lacks :
    (address : ℕ) (t : BranchType) (new : ℕ) (report : BranchesReport)
    → Lacks address report.branch_map
    → Ensures (Lacks address) (set_else t new report)
unfolding set_else
set_else-Lacks address (branch_if condition) new report h = returned h
set_else-Lacks address (branch_while condition) new report h = returned h
set_else-Lacks address branch_else new report h =
    change_last-Lacks address new report.branch_map report.last_branch h

register_branch-Lacks :
    (address : ℕ) (b : Branch) (report : BranchesReport)
    → b.address ≢ address
    → Lacks address report.branch_map
    → Ensures (λ next. Lacks address next.branch_map) (register_branch b report)
unfolding register_branch
register_branch-Lacks address b report g h =
    Ensures-bind (set_else-Lacks address b.branch_type b.address report h)
      λ known k. returned (insert-Lacks address b.address _ known g k)

-- an address that the report, if there is one, has no entry for
unfoldable pub Misses : ℕ → Option BranchesReport → Type 0
Misses address none = Unit
Misses address (some report) = Lacks address report.branch_map

branches_loop-Misses :
    (address fuel : ℕ) (queue : List (Branch × Snapshot)) (report : BranchesReport)
    → NoneQueued address queue
    → Lacks address report.branch_map
    → Ensures (Misses address) (branches_loop fuel queue report)
unfolding branches_loop NoneQueued Misses
branches_loop-Misses address zero queue report h g = returned tt
branches_loop-Misses address (suc fuel) [] report h g = returned g
branches_loop-Misses address (suc fuel) ((b, scope) ∷ queue) report h g =
    Ensures-bind (register_branch-Lacks address b report h.0 g) λ next k.
      branches_loop-Misses address fuel (queue ++ branches_of scope) next
        (NoneQueued-append address queue (branches_of scope) h.1.1
          (branches_of-NoneQueued address scope h.1.0))
        k

pub create_branches_report-Misses :
    (address fuel : ℕ) (scope : Snapshot)
    → IsUnregistered address scope
    → Ensures (Misses address) (create_branches_report fuel scope)
unfolding create_branches_report Dict.lookup
create_branches_report-Misses address fuel scope h =
    branches_loop-Misses address fuel (branches_of scope)
      (record { branch_map = []; next_label = 0; last_branch = none })
      (branches_of-NoneQueued address scope h) refl
