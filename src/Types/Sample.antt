-- ===== src/Types/Sample.antt =====
-- Descriptions of types with sample addresses for their functions, used in tests.
use microjit.Prelude.{true, false}
use microjit.Types.{CxxType, create}
use microjit.Types.Typeid

abbrev pub int32 : CxxType
int32 = create Typeid.int32 4 100 101 true true

abbrev pub int64 : CxxType
int64 = create Typeid.int64 8 102 103 true true

abbrev pub double : CxxType
double = create Typeid.double 8 104 105 true true

abbrev pub bool : CxxType
bool = create Typeid.bool 1 106 107 true true

-- a class of 24 bytes with a destructor
abbrev pub object : CxxType
object = create 50 24 108 109 false false
