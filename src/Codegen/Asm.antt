-- ===== src/Codegen/Asm.antt =====
-- The calls of the assembler that src/microjit/jit_x86_64.cpp makes, as data: code is the list of
-- them, in their order. asmjit, which encodes the instructions, is not part of the repository.
use microjit.Prelude.{
  ℕ, ◌+◌, ◌*◌, ◌%◌, ◌^◌, ◌≡◌, refl, List, [], ◌∷◌, ◌++◌, Option, none, some, ◌==◌, if◌then◌else◌,
}
use microjit.Prelude.Int.{ℤ, pos}
use microjit.Raise.{Result, ok, raise, or_raise, ◌>>=◌, unsupported_size}

-- the sizes of registers and memory operands
pub data Width : Type 0 where
  byte word dword qword : Width

-- the general registers; with a width, `c` is `cl`, `cx`, `ecx` and `rcx`
pub data Gp : Type 0 where
  ra rb rc rd rdi rsi rbp rsp r10 r11 : Gp

pub data Operand : Type 0 where
  reg : Width → Gp → Operand
  mem : Width → Gp → (displacement : ℤ) → Operand
  imm : ℕ → Operand
  xmm : ℕ → Operand

-- the suffixes of the scalar instructions on floating point numbers
pub data Precision : Type 0 where
  ss sd : Precision

-- the suffixes of `set`
pub data Condition : Type 0 where
  cc_e cc_ne cc_g cc_ge cc_l cc_le cc_a cc_nb cc_b cc_na cc_p cc_np : Condition

-- `add`, `sub`, `mul` and `div` on floating point numbers
pub data FpOperation : Type 0 where
  fp_add fp_sub fp_mul fp_div : FpOperation

-- A label is the number that `newLabel` gives it; the target of `call` is an address.
pub data Asm : Type 0 where
  mov lea add sub imul xor_ cmp cmovne xorps movss movsd : Operand → Operand → Asm
  div idiv push pop : Operand → Asm
  fp : FpOperation → Precision → Operand → Operand → Asm
  ucomi comi : Precision → Operand → Operand → Asm
  set_cc : Condition → Operand → Asm
  call jmp je jne bind : ℕ → Asm
  leave ret : Asm

abbrev pub Code : Type 0
Code = List Asm

-- a register of 64 bits, and the memory that one points to
abbrev pub r64 : Gp → Operand
r64 g = reg qword g

abbrev pub at_reg : Width → Gp → Operand
at_reg w g = mem w g (pos 0)

-- `qword_ptr(rbp, offset)`, and `LOAD_ARGS_SPACE`
abbrev pub in_frame : ℤ → Operand
in_frame offset = mem qword rbp offset

abbrev pub load_args_space : Operand
load_args_space = in_frame (microjit.Prelude.Int.negsuc 7)

-- the bytes of a width
abbrev pub bytes : Width → ℕ
bytes byte = 1
bytes word = 2
bytes dword = 4
bytes qword = 8

-- what a read of that width finds in the bytes of an immediate
abbrev pub low : Width → ℕ → ℕ
low w n = n % 2 ^ (8 * bytes w)

-- The `switch` on a size that all the emitters have: 1, 2, 4 or 8, and an error otherwise.
abbrev pub width_of : ℕ → Option Width
width_of size =
    if size == 1
    then some byte
    else if size == 2
    then some word
    else if size == 4
    then some dword
    else if size == 8
    then some qword
    else none

abbrev pub by_width : ℕ → (Width → Code) → Result Code
by_width size code = or_raise (width_of size) unsupported_size >>= λ w. ok (code w)

-- one emitter after another
infixr 6 ◌>+>◌
abbrev pub ◌>+>◌ : Result Code → Result Code → Result Code
raise what >+> next = raise what
ok code >+> raise what = raise what
ok code >+> ok rest = ok (code ++ rest)
