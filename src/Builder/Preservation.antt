-- ===== src/Builder/Preservation.antt =====
-- Pushing an instruction keeps a store built; so does every method that checks types.
use microjit.Prelude.{
  ℕ, ◌<◌, ◌≡◌, refl, sym, ap, ◌∙◌, List, [], ◌∷◌, ◌++◌, Option, some, arith, length, length-append,
  get_elem?, get_elem?-set, get_elem?-lt, get_elem?-append_one, set, All,
}
use mathlib.Core.Path.{subst}
use mathlib.Core.List.{append_assoc}
use native.Mathlib.Decide.{ℕ_discrete}
use microjit.Types.{CxxType}
use microjit.Ir.{Instruction}
use microjit.Builder.{RectifiedScope, Store, push_instruction, make_scope, fresh_scope, update}
use microjit.Builder.Visibility.{here, up}
use microjit.Builder.Invariant.{
  IsTyped, variable_of, branch_of, variables_in, branches_in, IsBuilt, IsBuiltStore, Keeps,
  IsBuilt-mono,
}

Keeps-set :
    (xs : List RectifiedScope) (this : ℕ) (s old : RectifiedScope)
    → get_elem? xs this ≡ some old
    → s.parent_scope ≡ old.parent_scope
    → Keeps xs (set xs this s)
Keeps-set xs this s old e par i j here = here
Keeps-set xs this s old e par i j (up {p = p} {s = t} et ep r) = elim (ℕ_discrete this i) [
  | yes same ↦
      let one : t ≡ old = ground arith in
      let at : get_elem? (set xs this s) i ≡ some s =
        ground (arith, get_elem?-set xs this i s old e) in
      up {s = s} at (par ∙ ap (λ (u : RectifiedScope). u.parent_scope) (sym one) ∙ ep)
        (Keeps-set xs this s old e par p j r)
  | no other ↦
      let at : get_elem? (set xs this s) i ≡ some t =
        ground (arith, get_elem?-set xs this i s old e) in
      up {s = t} at ep (Keeps-set xs this s old e par p j r)
]

pub Keeps-append : (xs : List RectifiedScope) (x : RectifiedScope) → Keeps xs (xs ++ x ∷ [])
Keeps-append xs x i j here = here
Keeps-append xs x i j (up {p = p} {s = t} et ep r) =
    let at : get_elem? (xs ++ x ∷ []) i ≡ some t =
      ground (arith, get_elem?-append_one xs x i, get_elem?-lt xs i t et) in
    up {s = t} at ep (Keeps-append xs x p j r)

-- A scope that keeps its parent and its arguments, and is itself built, can be written back.
pub update-IsBuilt :
    (b : Store) (this : ℕ) (s old : RectifiedScope)
    → IsBuiltStore b
    → get_elem? b.scopes this ≡ some old
    → s.parent_scope ≡ old.parent_scope
    → IsBuilt b.scopes this s
    → IsBuiltStore (update b this s)
update-IsBuilt b this s old v e par new i t et =
    let keeps = Keeps-set b.scopes this s old e par in
    elim (ℕ_discrete this i) [
      | yes same ↦
          let one : s ≡ t = ground (arith, get_elem?-set b.scopes this i s old e) in
          IsBuilt-mono b.scopes _ i t keeps
            (subst (λ k. IsBuilt b.scopes k t) same (subst (IsBuilt b.scopes this) one new))
      | no other ↦
          IsBuilt-mono b.scopes _ i t keeps
            (v i t (ground (arith, get_elem?-set b.scopes this i s old e)))
    ]

variables_in-append :
    (xs : List Instruction) (x : Instruction)
    → variables_in (xs ++ x ∷ []) ≡ variables_in xs ++ variable_of x
unfolding variables_in
variables_in-append [] x = mathlib.Core.List.append-nil (variable_of x)
variables_in-append (y ∷ xs) x =
    ap (λ z. variable_of y ++ z) (variables_in-append xs x) ∙ sym (append_assoc (variable_of y) _ _)

branches_in-append :
    (xs : List Instruction) (x : Instruction)
    → branches_in (xs ++ x ∷ []) ≡ branches_in xs ++ branch_of x
unfolding branches_in
branches_in-append [] x = mathlib.Core.List.append-nil (branch_of x)
branches_in-append (y ∷ xs) x =
    ap (λ z. branch_of y ++ z) (branches_in-append xs x) ∙ sym (append_assoc (branch_of y) _ _)

All-append_one :
    (P : Instruction → Type 0) (xs : List Instruction) (x : Instruction)
    → All P xs
    → P x
    → All P (xs ++ x ∷ [])
All-append_one P [] x h p = (p, tt)
All-append_one P (y ∷ xs) x h p = (h.0, All-append_one P xs x h.1 p)

-- A typed instruction at the end of a built scope, entered in the lists that it belongs to.
pub push_instruction-IsBuilt :
    (scopes : List RectifiedScope) (this : ℕ) (old s : RectifiedScope) (ins : Instruction)
    → IsBuilt scopes this old
    → s.parent_scope ≡ old.parent_scope
    → s.arguments ≡ old.arguments
    → s.instructions ≡ old.instructions
    → s.current_scope_offset ≡ old.current_scope_offset
    → s.variables ≡ old.variables ++ variable_of ins
    → s.branches ≡ old.branches ++ branch_of ins
    → IsTyped scopes old.arguments this ins
    → IsBuilt scopes this (push_instruction s ins)
unfolding push_instruction
push_instruction-IsBuilt scopes this old s ins v ep ea ei eo ev eb t = record {
  older = λ p h. v.older p (sym ep ∙ h);
  counted = rw (eo, ei, v.counted) (omega (arith, length-append old.instructions (ins ∷ [])));
  listed = rw (ev, ei, variables_in-append old.instructions ins, v.listed);
  branched = rw (eb, ei, branches_in-append old.instructions ins, v.branched);
  typed = rw (ea, ei) (All-append_one _ old.instructions ins v.typed t);
}

-- a new scope, whose parent exists, is built
pub make_scope-IsBuilt :
    (b : Store) (args : List CxxType) (parent : Option ℕ)
    → IsBuiltStore b
    → ((p : ℕ) → parent ≡ some p → p < length b.scopes)
    → IsBuiltStore (make_scope b args parent).0
unfolding make_scope variables_in branches_in
make_scope-IsBuilt b args parent v under i t et = elim (ℕ_discrete i (length b.scopes)) [
  | yes last ↦
      let one : fresh_scope args parent ≡ t =
        ground (arith, get_elem?-append_one b.scopes (fresh_scope args parent) i) in
      subst (IsBuilt (b.scopes ++ fresh_scope args parent ∷ []) i) one (record {
        older = λ p h. omega (arith, under p h);
        counted = refl;
        listed = refl;
        branched = refl;
        typed = tt;
      })
  | no other ↦
      IsBuilt-mono b.scopes _ i t (Keeps-append b.scopes _)
        (v i t (ground (arith, get_elem?-append_one b.scopes (fresh_scope args parent) i)))
]
