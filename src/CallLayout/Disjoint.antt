-- ===== src/CallLayout/Disjoint.antt =====
-- The arguments lie in the block one below the other, above the result.
use microjit.Prelude.{
  ℕ, ◌+◌, ◌-◌, ◌≤◌, ◌<◌, ◌≡◌, refl, List, [], ◌∷◌, arith, ap, ◌≢◌, some, get_elem?,
}
use microjit.Types.{CxxType, empty_dtor, args_size, simple_16_bit_align, calculate_args_space}
use microjit.CallLayout.{moved, move_arguments, destructed, destruct_arguments}

pub calculate_args_space_lem :
    (ret : CxxType) (ts : List CxxType)
    → calculate_args_space ret ts ≡ simple_16_bit_align (ret.size + args_size ts)
unfolding calculate_args_space args_size
calculate_args_space_lem ret [] = ap simple_16_bit_align (omega arith)
calculate_args_space_lem ret (t ∷ ts) = refl

pub le-align : (n : ℕ) → n ≤ simple_16_bit_align n
unfolding simple_16_bit_align
le-align n = omega arith

-- the block holds the result and all the arguments
pub size-le-space :
    (ret : CxxType) (ts : List CxxType) → ret.size + args_size ts ≤ calculate_args_space ret ts
size-le-space ret ts =
    omega (arith, calculate_args_space_lem ret ts, le-align (ret.size + args_size ts))

-- Each argument of `ts` has an address in the list, its bytes end at or below `top`, the bytes of the
-- next one end at or below its own address, and the last one starts at or above `floor`.
abbrev pub IsStacked : (floor top : ℕ) → List CxxType → List ℕ → Type 0
IsStacked floor top [] [] = floor ≤ top
IsStacked floor top [] (a ∷ at) = ⊥
IsStacked floor top (t ∷ ts) [] = ⊥
IsStacked floor top (t ∷ ts) (a ∷ at) = (a + t.size ≤ top) × IsStacked floor a ts at

move_arguments-IsStacked :
    (floor top : ℕ) (ts : List CxxType)
    → floor + args_size ts ≤ top
    → IsStacked floor top ts (move_arguments top ts)
unfolding move_arguments args_size
move_arguments-IsStacked floor top [] h = omega arith
move_arguments-IsStacked floor top (t ∷ ts) h =
    (omega arith, move_arguments-IsStacked floor (top - t.size) ts (omega arith))

-- The caller writes the arguments inside the block, no two of them overlapping, and none over the
-- place of the result, which the called function writes at the start of the block.
pub moved-IsStacked :
    (ret : CxxType) (ts : List CxxType)
    → IsStacked ret.size (calculate_args_space ret ts) ts (moved ret ts)
unfolding moved
moved-IsStacked ret ts =
    move_arguments-IsStacked ret.size (calculate_args_space ret ts) ts (size-le-space ret ts)

-- If the first argument of a call has a destructor and the arguments after it are not empty, the caller
-- runs that destructor at the end of the result, below the address where it has written the argument.
pub destructed-lt-moved :
    (ret t : CxxType) (ts : List CxxType)
    → t.destructor ≢ empty_dtor
    → 0 < args_size ts
    → (written : ℕ) × (get_elem? (moved ret (t ∷ ts)) 0 ≡ some written)
      × (get_elem? (destructed ret (t ∷ ts)) 0 ≡ some (some ret.size))
      × (ret.size < written)
unfolding destructed destruct_arguments moved move_arguments args_size
destructed-lt-moved ret t ts nontrivial h =
    let room = size-le-space ret (t ∷ ts) in
    (calculate_args_space ret (t ∷ ts) - t.size, refl, ground arith, omega arith)
