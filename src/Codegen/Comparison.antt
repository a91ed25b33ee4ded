-- ===== src/Codegen/Comparison.antt =====
-- The flags after a comparison, and the conditions on them.
use microjit.Prelude.{
  ℕ, ◌+◌, ◌-◌, ◌*◌, ◌%◌, ◌^◌, ◌<◌, ◌≡◌, refl, ap, ◌∙◌, Bool, true, false, not, ◌||◌, some, arith,
  ltb, ◌==◌,
}
use microjit.Ir.{
  OperationType, binary_add, binary_sub, binary_mul, binary_div, binary_mod, binary_equal,
  binary_not_equal, binary_greater, binary_greater_or_equal, binary_lesser, binary_lesser_or_equal,
  binary_end, operation_return_bool,
}
use microjit.Codegen.Operations.{signed_or}
use microjit.Codegen.Asm.{
  Condition, cc_p, Width, byte, word, dword, qword, cc_e, cc_ne, cc_g, cc_ge, cc_l, cc_le, cc_a,
  cc_nb, cc_b, cc_na, bytes,
}
use microjit.Codegen.Machine.{compared, holds, xor}

-- the order of signed numbers: that of the numbers moved by half of their range
abbrev pub signed_place : Width → ℕ → ℕ
signed_place w a = (a + 2 ^ (8 * bytes w - 1)) % 2 ^ (8 * bytes w)

compared-equal :
    (w : Width) (a b : ℕ)
    → a < 2 ^ (8 * bytes w)
    → b < 2 ^ (8 * bytes w)
    → (compared w a b).zf ≡ (a == b)
unfolding compared
compared-equal byte a b h g = ground arith
compared-equal word a b h g = ground arith
compared-equal dword a b h g = ground arith
compared-equal qword a b h g = ground arith

compared-less :
    (w : Width) (a b : ℕ)
    → a < 2 ^ (8 * bytes w)
    → b < 2 ^ (8 * bytes w)
    → xor (compared w a b).sf (compared w a b).of ≡ ltb (signed_place w a) (signed_place w b)
unfolding compared
compared-less byte a b h g = ground arith
compared-less word a b h g = ground arith
compared-less dword a b h g = ground arith
compared-less qword a b h g = ground arith

compared-less_or_equal :
    (w : Width) (a b : ℕ)
    → a < 2 ^ (8 * bytes w)
    → b < 2 ^ (8 * bytes w)
    → (xor (compared w a b).sf (compared w a b).of || (compared w a b).zf)
      ≡ not (ltb (signed_place w b) (signed_place w a))
unfolding compared
compared-less_or_equal byte a b h g = ground arith
compared-less_or_equal word a b h g = ground arith
compared-less_or_equal dword a b h g = ground arith
compared-less_or_equal qword a b h g = ground arith

compared-below_or_equal :
    (w : Width) (a b : ℕ)
    → a < 2 ^ (8 * bytes w)
    → b < 2 ^ (8 * bytes w)
    → ((compared w a b).cf || (compared w a b).zf) ≡ not (ltb b a)
unfolding compared
compared-below_or_equal byte a b h g = ground arith
compared-below_or_equal word a b h g = ground arith
compared-below_or_equal dword a b h g = ground arith
compared-below_or_equal qword a b h g = ground arith

compared-below : (w : Width) (a b : ℕ) → (compared w a b).cf ≡ ltb a b
unfolding compared
compared-below w a b = refl

-- what a comparison is for
unfoldable pub compare_result : OperationType → (is_signed : Bool) → Width → (a b : ℕ) → Bool
compare_result binary_equal signed w a b = a == b
compare_result binary_not_equal signed w a b = not (a == b)
compare_result binary_greater true w a b = ltb (signed_place w b) (signed_place w a)
compare_result binary_greater false w a b = ltb b a
compare_result binary_greater_or_equal true w a b = not (ltb (signed_place w a) (signed_place w b))
compare_result binary_greater_or_equal false w a b = not (ltb a b)
compare_result binary_lesser true w a b = ltb (signed_place w a) (signed_place w b)
compare_result binary_lesser false w a b = ltb a b
compare_result binary_lesser_or_equal true w a b = not (ltb (signed_place w b) (signed_place w a))
compare_result binary_lesser_or_equal false w a b = not (ltb b a)
compare_result _ signed w a b = false

-- the condition that the emitter chooses
abbrev pub condition_for : OperationType → (is_signed : Bool) → Condition
condition_for binary_equal signed = cc_e
condition_for binary_not_equal signed = cc_ne
condition_for binary_greater signed = signed_or signed cc_g cc_a
condition_for binary_greater_or_equal signed = signed_or signed cc_ge cc_nb
condition_for binary_lesser signed = signed_or signed cc_l cc_b
condition_for binary_lesser_or_equal signed = signed_or signed cc_le cc_na
condition_for _ signed = cc_p

abbrev pub IsComparison : OperationType → Type 0
IsComparison op = operation_return_bool op ≡ true

not-not : (t : Bool) → not (not t) ≡ t
not-not true = refl
not-not false = refl

pub holds-compared :
    (op : OperationType) (signed : Bool) (w : Width) (a b : ℕ)
    → IsComparison op
    → a < 2 ^ (8 * bytes w)
    → b < 2 ^ (8 * bytes w)
    → holds (condition_for op signed) (compared w a b) ≡ some (compare_result op signed w a b)
unfolding holds compare_result operation_return_bool
holds-compared binary_equal signed w a b c h g = ap some (compared-equal w a b h g)
holds-compared binary_not_equal signed w a b c h g =
    ap (λ t. some (not t)) (compared-equal w a b h g)
holds-compared binary_greater true w a b c h g =
    ap (λ t. some (not t)) (compared-less_or_equal w a b h g) ∙ ap some (not-not _)
holds-compared binary_greater false w a b c h g =
    ap (λ t. some (not t)) (compared-below_or_equal w a b h g) ∙ ap some (not-not _)
holds-compared binary_greater_or_equal true w a b c h g =
    ap (λ t. some (not t)) (compared-less w a b h g)
holds-compared binary_greater_or_equal false w a b c h g =
    ap (λ t. some (not t)) (compared-below w a b)
holds-compared binary_lesser true w a b c h g = ap some (compared-less w a b h g)
holds-compared binary_lesser false w a b c h g = ap some (compared-below w a b)
holds-compared binary_lesser_or_equal true w a b c h g = ap some (compared-less_or_equal w a b h g)
holds-compared binary_lesser_or_equal false w a b c h g =
    ap some (compared-below_or_equal w a b h g)
holds-compared binary_add signed w a b c h g = cc
holds-compared binary_sub signed w a b c h g = cc
holds-compared binary_mul signed w a b c h g = cc
holds-compared binary_div signed w a b c h g = cc
holds-compared binary_mod signed w a b c h g = cc
holds-compared binary_end signed w a b c h g = cc
