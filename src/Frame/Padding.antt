-- ===== src/Frame/Padding.antt =====
-- The padding of large variables.
use microjit.Prelude.{ℕ, ◌+◌, ◌*◌, ◌%◌, ◌≤◌, ◌≡◌, arith}
use microjit.Types.{CxxType, simple_16_bit_align}
use microjit.Frame.{aligned_size}

-- A variable of 16 bytes or more takes at least twice its size, and yet starts at a multiple of 16
-- below the base pointer only if its own size is one: the remainder is that of the size.
pub aligned_size-misaligned :
    (current_size : ℕ) (t : CxxType)
    → 16 ≤ t.size
    → (2 * t.size ≤ aligned_size current_size t)
      × ((current_size + aligned_size current_size t) % 16 ≡ t.size % 16)
unfolding aligned_size simple_16_bit_align
aligned_size-misaligned current_size t h = ground arith
