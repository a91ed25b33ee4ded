-- ===== src/Types.antt =====
-- src/microjit/type.h: the run-time description of a C++ type, and the size arithmetic of
-- src/microjit/def.h. A pointer (`std::type_info*`, a function pointer) is a number; the addresses
-- of the `type_info` objects of the fundamental types are pairwise different constants.
pub mod Typeid
pub mod Order
pub mod Unlisted
pub mod Sample
use microjit.Prelude.{
  ℕ, ◌+◌, ◌*◌, ◌/◌, ◌≡◌, refl, Bool, true, false, not, ◌||◌, List, [], ◌∷◌, ◌==◌, if◌then◌else◌,
}
use Typeid

-- `ObjectTools::empty_copy_ctor` and `ObjectTools::empty_dtor`
abbrev pub empty_copy_ctor : ℕ
empty_copy_ctor = 1

abbrev pub empty_dtor : ℕ
empty_dtor = 2

-- `struct Type`
pub record CxxType : Type 0 where
  pub type_info : ℕ
  pub size : ℕ
  pub copy_constructor : ℕ
  pub destructor : ℕ
  pub is_primitive : Bool

-- `create_internal(void (*)())`
abbrev pub create_void : CxxType
create_void = record {
  type_info = Typeid.void;
  size = 0;
  copy_constructor = empty_copy_ctor;
  destructor = empty_dtor;
  is_primitive = true;
}

-- `create_internal(T (*)())`: what the template asks of `T` are its arguments.
abbrev pub create :
    (type_info size copy_ctor dtor : ℕ) → (trivially_destructible fundamental : Bool) → CxxType
create type_info size copy_ctor dtor trivially_destructible fundamental = record {
  type_info = type_info;
  size = size;
  copy_constructor = copy_ctor;
  destructor = if trivially_destructible then empty_dtor else dtor;
  is_primitive = fundamental;
}

-- `Type::create<bool>()`; 3 stands for the address of `ObjectTools::copy_ctor<bool>`.
abbrev pub create_bool : CxxType
create_bool = create Typeid.bool 1 3 4 true true

-- `operator==` and `operator!=`: two descriptions of one type are told by their `type_info`.
abbrev pub type_eq : CxxType → CxxType → Bool
type_eq l r = l.type_info == r.type_info

abbrev pub type_ne : CxxType → CxxType → Bool
type_ne l r = not (l.type_info == r.type_info)

unfoldable pub is_floating_point : CxxType → Bool
is_floating_point t = (t.type_info == Typeid.float) || (t.type_info == Typeid.double)

unfoldable pub is_signed_integer : CxxType → Bool
is_signed_integer t =
    (t.type_info == Typeid.int8)
    || (t.type_info == Typeid.int16)
    || (t.type_info == Typeid.int32)
    || (t.type_info == Typeid.int64)

-- `simple_16_bit_align`
unfoldable pub simple_16_bit_align : ℕ → ℕ
simple_16_bit_align n = (n + 15) / 16 * 16

-- the fold `(sizeof(Args) + ...)`
unfoldable pub args_size : List CxxType → ℕ
args_size [] = 0
args_size (t ∷ ts) = t.size + args_size ts

-- `calculate_args_space<R, Args...>`; the description of `void` has size 0.
unfoldable pub calculate_args_space : CxxType → List CxxType → ℕ
calculate_args_space ret [] = simple_16_bit_align ret.size
calculate_args_space ret (t ∷ ts) = simple_16_bit_align (ret.size + args_size (t ∷ ts))
