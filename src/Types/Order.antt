-- ===== src/Types/Order.antt =====
-- The order that C++ gives to the values of the integer types, and what `is_signed_integer` and
-- `is_floating_point` of src/microjit/type.h say of these types.
use microjit.Prelude.{ℕ, ◌≡◌, refl, Bool, true, false}
use microjit.Types.{CxxType, is_signed_integer, is_floating_point}
use microjit.Types.Typeid

-- the types of fixed width, and `bool`, with the order of signed or that of unsigned numbers
pub data HasOrder : (type_info : ℕ) → (is_signed : Bool) → Type 0 where
  signed_8 : HasOrder Typeid.int8 true
  signed_16 : HasOrder Typeid.int16 true
  signed_32 : HasOrder Typeid.int32 true
  signed_64 : HasOrder Typeid.int64 true
  unsigned_8 : HasOrder Typeid.uint8 false
  unsigned_16 : HasOrder Typeid.uint16 false
  unsigned_32 : HasOrder Typeid.uint32 false
  unsigned_64 : HasOrder Typeid.uint64 false
  truth_value : HasOrder Typeid.bool false

-- the code's test tells the signed ones of these types from the others
pub is_signed_integer-HasOrder :
    (t : CxxType) {i : ℕ} {signed : Bool}
    → t.type_info ≡ i
    → HasOrder i signed
    → (is_signed_integer t ≡ signed) × (is_floating_point t ≡ false)
unfolding is_signed_integer is_floating_point
is_signed_integer-HasOrder t e signed_8 = (rw e refl, rw e refl)
is_signed_integer-HasOrder t e signed_16 = (rw e refl, rw e refl)
is_signed_integer-HasOrder t e signed_32 = (rw e refl, rw e refl)
is_signed_integer-HasOrder t e signed_64 = (rw e refl, rw e refl)
is_signed_integer-HasOrder t e unsigned_8 = (rw e refl, rw e refl)
is_signed_integer-HasOrder t e unsigned_16 = (rw e refl, rw e refl)
is_signed_integer-HasOrder t e unsigned_32 = (rw e refl, rw e refl)
is_signed_integer-HasOrder t e unsigned_64 = (rw e refl, rw e refl)
is_signed_integer-HasOrder t e truth_value = (rw e refl, rw e refl)
