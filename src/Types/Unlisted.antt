-- ===== src/Types/Unlisted.antt =====
-- Two integer types with signed values that `is_signed_integer` of src/microjit/type.h does not name.
use microjit.Prelude.{ℕ, ◌≡◌, refl, false}
use microjit.Types.{CxxType, is_signed_integer, is_floating_point}
use microjit.Types.Typeid

pub data IsUnlisted : (type_info : ℕ) → Type 0 where
  unlisted_char : IsUnlisted Typeid.char
  unlisted_long_long : IsUnlisted Typeid.long_long

pub is_signed_integer-IsUnlisted :
    (t : CxxType) {i : ℕ}
    → t.type_info ≡ i
    → IsUnlisted i
    → (is_signed_integer t ≡ false) × (is_floating_point t ≡ false)
unfolding is_signed_integer is_floating_point
is_signed_integer-IsUnlisted t e unlisted_char = (rw e refl, rw e refl)
is_signed_integer-IsUnlisted t e unlisted_long_long = (rw e refl, rw e refl)
