-- ===== src/CallLayout/Agreement.antt =====
-- The readers of the arguments look where the caller wrote them.
use mathlib.Core.List.{reverse, reverse-cons, reverse-append}
use mathlib.Core.Path.{ap₂}
use microjit.Prelude.{
  ℕ, zero, suc, ◌+◌, ◌-◌, ◌≤◌, ◌<◌, ◌≡◌, refl, ap, ◌∙◌, List, [], ◌∷◌, ◌++◌, none, arith, length,
  get_elem?,
}
use microjit.Prelude.Dict
use microjit.Types.{CxxType, args_size}
use microjit.CallLayout.{
  moved, move_arguments, args_map, args_map_loop, native_args_clang, pass_args_clang,
  native_args_gcc, pass_args_gcc,
}
use microjit.CallLayout.Disjoint.{calculate_args_space_lem, size-le-space}

args_map_loop_below :
    (i c : ℕ) (ts : List CxxType) (m : List (ℕ × ℕ)) (j : ℕ)
    → j < i
    → Dict.lookup j (args_map_loop i c ts m) ≡ Dict.lookup j m
unfolding args_map_loop
args_map_loop_below i c [] m j h = refl
args_map_loop_below i c (t ∷ ts) m j h = ground (
  arith,
  args_map_loop_below (suc i) (c - t.size) ts (Dict.insert i (c - t.size) m) j,
  Dict.lookup-insert i j (c - t.size) m,
)

args_map_loop_at :
    (i c : ℕ) (ts : List CxxType) (m : List (ℕ × ℕ)) (j k : ℕ)
    → ((n : ℕ) → i ≤ n → Dict.lookup n m ≡ none)
    → j ≡ i + k
    → Dict.lookup j (args_map_loop i c ts m) ≡ get_elem? (move_arguments c ts) k
unfolding args_map_loop move_arguments
args_map_loop_at i c [] m j k fresh e = fresh j (omega arith)
args_map_loop_at i c (t ∷ ts) m j zero fresh e = ground (
  arith,
  args_map_loop_below (suc i) (c - t.size) ts (Dict.insert i (c - t.size) m) j,
  Dict.lookup-insert i j (c - t.size) m,
)
args_map_loop_at i c (t ∷ ts) m j (suc k) fresh e =
    args_map_loop_at (suc i) (c - t.size) ts (Dict.insert i (c - t.size) m) j k
      (λ n h. ground (arith, Dict.lookup-insert i n (c - t.size) m, fresh n)) (omega arith)

-- The compiled code looks for each argument where the caller wrote it: `args_map` has exactly the
-- indices of the arguments, each with the address of that argument.
pub args_map-moved :
    (ret : CxxType) (ts : List CxxType) (i : ℕ)
    → Dict.lookup i (args_map ret ts) ≡ get_elem? (moved ret ts) i
unfolding args_map moved Dict.lookup
args_map-moved ret ts i =
    rw (calculate_args_space_lem ret ts)
      (args_map_loop_at 0 _ ts [] i i (λ n h. refl) (omega arith))

pass_args_clang-move :
    (n floor v argc : ℕ) (ts : List CxxType)
    → argc + length ts ≡ n
    → pass_args_clang n floor v argc ts ≡ move_arguments v ts
unfolding pass_args_clang move_arguments
pass_args_clang-move n floor v argc [] h = refl
pass_args_clang-move n floor v argc (t ∷ []) h = refl
pass_args_clang-move n floor v argc (t ∷ u ∷ ts) h =
    ground (arith, pass_args_clang-move n floor (v - t.size) (argc + 1) (u ∷ ts))

-- addresses from below, each above the bytes of the one before it
unfoldable climb : ℕ → List CxxType → List ℕ
climb v [] = []
climb v (t ∷ ts) = v ∷ climb (v + t.size) ts

pass_args_gcc-climb :
    (n floor v argc : ℕ) (ts : List CxxType)
    → argc + length ts ≡ n
    → pass_args_gcc n floor v argc ts ≡ climb v ts
unfolding pass_args_gcc climb
pass_args_gcc-climb n floor v argc [] h = refl
pass_args_gcc-climb n floor v argc (t ∷ []) h = refl
pass_args_gcc-climb n floor v argc (t ∷ u ∷ ts) h =
    ground (arith, pass_args_gcc-climb n floor (v + t.size) (argc + 1) (u ∷ ts))

climb-append :
    (v : ℕ) (ts us : List CxxType) → climb v (ts ++ us) ≡ climb v ts ++ climb (v + args_size ts) us
unfolding climb args_size
climb-append v [] us = ap (λ n. climb n us) (omega arith)
climb-append v (t ∷ ts) us =
    ap (◌∷◌ v) (
      climb-append (v + t.size) ts us ∙ ap (λ n. climb (v + t.size) ts ++ climb n us) (omega arith))

args_size-append : (ts us : List CxxType) → args_size (ts ++ us) ≡ args_size ts + args_size us
unfolding args_size
args_size-append [] us = omega arith
args_size-append (t ∷ ts) us = omega (arith, args_size-append ts us)

args_size-reverse : (ts : List CxxType) → args_size (reverse ts) ≡ args_size ts
unfolding args_size
args_size-reverse [] = refl
args_size-reverse (t ∷ ts) =
    rw (reverse-cons t ts)
      (omega (arith, args_size-append (reverse ts) (t ∷ []), args_size-reverse ts))

length-reverse : (ts : List CxxType) → length (reverse ts) ≡ length ts
length-reverse [] = refl
length-reverse (t ∷ ts) =
    rw (reverse-cons t ts) (omega (arith, length_snoc (reverse ts), length-reverse ts))
  where
    length_snoc : (us : List CxxType) → length (us ++ t ∷ []) ≡ suc (length us)
    length_snoc [] = refl
    length_snoc (u ∷ us) = ap suc (length_snoc us)

-- climbing over the arguments from the last one visits the addresses of the falling pointer
reverse-climb :
    (top v : ℕ) (ts : List CxxType)
    → v + args_size ts ≡ top
    → reverse (climb v (reverse ts)) ≡ move_arguments top ts
unfolding move_arguments climb args_size
reverse-climb top v [] h = refl
reverse-climb top v (t ∷ ts) h =
    rw
      (
        reverse-cons t ts,
        climb-append v (reverse ts) (t ∷ []),
        args_size-reverse ts,
        reverse-append (climb v (reverse ts)) ((v + args_size ts) ∷ []),
      )
      (ap₂ ◌∷◌ (omega arith) (reverse-climb (top - t.size) v ts (omega arith)))

-- A native function that is called through its trampoline reads each argument where the caller
-- wrote it, under either order of evaluation.
pub native_args-moved :
    (ret : CxxType) (ts : List CxxType)
    → (native_args_clang ret ts ≡ moved ret ts) × (native_args_gcc ret ts ≡ moved ret ts)
unfolding native_args_clang native_args_gcc moved
native_args-moved ret ts = (
  pass_args_clang-move (length ts) 0 _ 0 ts (omega arith),
  ap reverse (pass_args_gcc-climb (length ts) 0 _ 0 (reverse ts) (omega (arith, length-reverse ts)))
      ∙ reverse-climb _ _ ts (omega (arith, size-le-space ret ts)),
)
