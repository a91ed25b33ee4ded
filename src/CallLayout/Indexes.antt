-- ===== src/CallLayout/Indexes.antt =====
-- The table of `ArgumentsDeclaration::create_indexes` against the addresses that the caller uses.
use microjit.Prelude.{
  ℕ, zero, suc, ◌+◌, ◌-◌, ◌≤◌, ◌<◌, ◌≡◌, refl, ap, ◌∙◌, List, [], ◌∷◌, some, arith, length,
  get_elem?, set, take, length-set, length-replicate,
}
use native.Mathlib.Decide.{dec_lt}
use microjit.Types.{CxxType, args_size, calculate_args_space}
use microjit.CallLayout.{moved, move_arguments, create_indexes, create_indexes_loop, size_at}
use microjit.CallLayout.Disjoint.{size-le-space}

-- the bytes of the first `i` arguments
abbrev prefix : List CxxType → ℕ → ℕ
prefix ts i = args_size (take i ts)

prefix-suc : (ts : List CxxType) (i : ℕ) → prefix ts (suc i) ≡ prefix ts i + size_at ts i
unfolding args_size size_at
prefix-suc [] zero = refl
prefix-suc [] (suc i) = refl
prefix-suc (t ∷ ts) zero = omega arith
prefix-suc (t ∷ ts) (suc i) = ground (arith, prefix-suc ts i)

prefix-all : (ts : List CxxType) → prefix ts (length ts) ≡ args_size ts
unfolding args_size
prefix-all [] = refl
prefix-all (t ∷ ts) = omega (arith, prefix-all ts)

prefix_mono : (ts : List CxxType) (i j : ℕ) → i ≤ j → prefix ts i ≤ prefix ts j
unfolding args_size
prefix_mono ts zero j h = omega arith
prefix_mono [] (suc i) (suc j) h = omega arith
prefix_mono (t ∷ ts) (suc i) (suc j) h = omega (arith, prefix_mono ts i j)
prefix_mono ts (suc i) zero h = absurd (omega arith)

get_elem?-set :
    (xs : List ℕ) (i j v : ℕ) → i ≡ j → i < length xs → get_elem? (set xs i v) j ≡ some v
get_elem?-set [] i j v e h = absurd (omega arith)
get_elem?-set (x ∷ xs) zero zero v e h = refl
get_elem?-set (x ∷ xs) zero (suc j) v e h = absurd (omega arith)
get_elem?-set (x ∷ xs) (suc i) zero v e h = absurd (omega arith)
get_elem?-set (x ∷ xs) (suc i) (suc j) v e h = get_elem?-set xs i j v (omega arith) (omega arith)

get_elem?-set_after : (xs : List ℕ) (i j v : ℕ) → i < j → get_elem? (set xs i v) j ≡ get_elem? xs j
get_elem?-set_after [] i j v h = refl
get_elem?-set_after (x ∷ xs) i zero v h = absurd (omega arith)
get_elem?-set_after (x ∷ xs) zero (suc j) v h = refl
get_elem?-set_after (x ∷ xs) (suc i) (suc j) v h = get_elem?-set_after xs i j v (omega arith)

-- the loop leaves the entries from its counter on
loop_above :
    (i : ℕ) (ts : List CxxType) (c : ℕ) (xs : List ℕ) (j : ℕ)
    → i ≤ j
    → get_elem? (create_indexes_loop i ts c xs) j ≡ get_elem? xs j
unfolding create_indexes_loop
loop_above zero ts c xs j h = refl
loop_above (suc i) ts c xs j h =
    loop_above i ts (c + size_at ts i) (set xs i c) j (omega arith) ∙ get_elem?-set_after xs i j c h

loop_below :
    (i : ℕ) (ts : List CxxType) (c : ℕ) (xs : List ℕ) (j : ℕ)
    → j < i
    → i ≤ length xs
    → get_elem? (create_indexes_loop i ts c xs) j ≡ some (c + prefix ts i - prefix ts (suc j))
unfolding create_indexes_loop
loop_below zero ts c xs j h l = absurd (omega arith)
loop_below (suc i) ts c xs j h l = elim (dec_lt j i) [
  | yes below ↦
      loop_below i ts (c + size_at ts i) (set xs i c) j below (omega (arith, length-set xs i c))
      ∙ ap some (omega (arith, prefix-suc ts i))
  | no last ↦
      let here : i ≡ j = omega arith in
      loop_above i ts (c + size_at ts i) (set xs i c) j (omega arith)
      ∙ get_elem?-set xs i j c here (omega arith)
      ∙ ap some (rw here (omega arith))
]

move_arguments_at :
    (top : ℕ) (ts : List CxxType) (j : ℕ)
    → j < length ts
    → get_elem? (move_arguments top ts) j ≡ some (top - prefix ts (suc j))
unfolding move_arguments args_size
move_arguments_at top [] j h = absurd (omega arith)
move_arguments_at top (t ∷ ts) zero h = ap some (omega arith)
move_arguments_at top (t ∷ ts) (suc j) h =
    move_arguments_at (top - t.size) ts j (omega arith) ∙ ap some (omega arith)

-- The table of offsets agrees with the caller only up to the padding: an argument lies above its
-- entry by the size of the result and the bytes that the alignment of the block adds.
pub moved-create_indexes :
    (ret : CxxType) (ts : List CxxType) (j : ℕ)
    → j < length ts
    → (offset : ℕ) × (get_elem? (create_indexes ts) j ≡ some offset)
      × (get_elem? (moved ret ts) j
          ≡ some (offset + ret.size + (calculate_args_space ret ts - (ret.size + args_size ts))))
unfolding create_indexes moved
moved-create_indexes ret ts j h = (
  0 + prefix ts (length ts) - prefix ts (suc j),
  loop_below (length ts) ts 0 _ j h (omega (arith, length-replicate {A = ℕ} (length ts) 0)),
  move_arguments_at _ ts j h
      ∙ ap some
          (omega (arith, size-le-space ret ts, prefix-all ts, prefix_mono ts (suc j) (length ts))),
)
