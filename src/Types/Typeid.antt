-- ===== src/Types/Typeid.antt =====
-- src/microjit/type.h: the addresses of the `type_info` objects, `typeid` of the fundamental types.
use microjit.Prelude.{ℕ}

abbrev pub void : ℕ
void = 0

abbrev pub bool : ℕ
bool = 1

abbrev pub int8 : ℕ
int8 = 2

abbrev pub int16 : ℕ
int16 = 3

abbrev pub int32 : ℕ
int32 = 4

abbrev pub int64 : ℕ
int64 = 5

abbrev pub float : ℕ
float = 6

abbrev pub double : ℕ
double = 7

abbrev pub uint8 : ℕ
uint8 = 8

abbrev pub uint16 : ℕ
uint16 = 9

abbrev pub uint32 : ℕ
uint32 = 10

abbrev pub uint64 : ℕ
uint64 = 11

-- `char`, which is signed on x86-64, and is another type than `int8_t`
abbrev pub char : ℕ
char = 12

-- `long long`, which is another type than `int64_t` where that is `long`
abbrev pub long_long : ℕ
long_long = 13
