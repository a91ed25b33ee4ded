-- ===== src/Raise.antt =====
-- `MJ_RAISE` of src/microjit/utils.h: a call returns, or throws a MicroJITException. The messages
-- are constructors. `undefined` stands for undefined behaviour in the source (a null pointer is
-- read, a vector is read out of range).
use mathlib.Core.Path.{subst}
use microjit.Prelude.{◌≡◌, refl, Bool, true, false, Option, none, some}

pub data Error : Type 0 where
  does_not_own_variable does_not_own_assignment_target does_not_own_copy_target : Error
  same_target mismatched_type invalid_argument_index : Error
  childs_parent_is_not_self does_not_own_expression mismatched_return_type : Error
  not_a_primitive_result no_if_branch last_branch_is_not_if condition_returns_nothing : Error
  no_trampoline mismatched_arguments_size mismatched_argument_type : Error
  expression_as_argument argument_as_argument : Error
  not_a_binary_operation host_does_not_own_variable operands_not_primitive : Error
  not_floating_point_capable : Error
  does_not_own_target mismatched_from_type mismatched_to_type : Error
  return_type_mismatched void_return_with_variable : Error
  unsupported_size unsupported_operand unsupported_operation unsupported_unary : Error
  unsupported_non_primitive primitive_conversion_unsupported out_of_range : Error
  sync_from_server : Error
  assertion_failed : Error
  undefined : Error

-- what a call comes back with
pub data Result {κ} (R : Type κ) : Type κ where
  raise : Error → Result R
  ok : R → Result R

abbrev pub or_raise {κ} : {R : Type κ} → Option R → Error → Result R
or_raise none what = raise what
or_raise (some r) what = ok r

-- `if (!test) MJ_RAISE(what);`
abbrev pub guard : (test : Bool) → (what : Error) → Result (Unit {0})
guard false what = raise what
guard true what = ok tt

-- one call after another: what is thrown goes through
abbrev pub ◌>>=◌ {κ μ} : {R : Type κ} {S : Type μ} → Result R → (R → Result S) → Result S
raise what >>= next = raise what
ok r >>= next = next r

abbrev pub ◌>>◌ {κ} : {R : Type κ} → Result (Unit {0}) → Result R → Result R
first >> next = first >>= λ _. next

infixl 5 ◌>>=◌ ◌>>◌
-- `P` holds of what the call returns, if it returns.
pub data Ensures {ℓ κ} {A : Type ℓ} (P : A → Type κ) : Result A → Type (ℓ ⊔ κ) where
  returned : {a : A} → P a → Ensures P (ok a)
  raised : {e : Error} → Ensures P (raise e)

pub Ensures-check {κ} :
    {P : Unit {0} → Type κ} (t : Bool) (e : Error) → (t ≡ true → P tt) → Ensures P (guard t e)
Ensures-check true e f = returned (f refl)
Ensures-check false e f = raised

module _ {ℓ κ} {A : Type ℓ} {P : A → Type κ} where
  pub Ensures-guard :
      (t : Bool) (e : Error) {k : Result A} → (t ≡ true → Ensures P k) → Ensures P (guard t e >> k)
  Ensures-guard true e f = f refl
  Ensures-guard false e f = raised

  pub Ensures-or_raise {μ} :
      {B : Type μ} (o : Option B) (e : Error) {f : B → Result A}
      → ((x : B) → o ≡ some x → Ensures P (f x))
      → Ensures P (or_raise o e >>= f)
  Ensures-or_raise (some x) e k = k x refl
  Ensures-or_raise none e k = raised

  pub Ensures-bind {μ ν} :
      {B : Type μ} {Q : B → Type ν} {m : Result B} {f : B → Result A}
      → Ensures Q m
      → ((x : B) → Q x → Ensures P (f x))
      → Ensures P (m >>= f)
  Ensures-bind (returned q) k = k _ q
  Ensures-bind raised k = raised

  pub Ensures-elim : {a : A} (m : Result A) → m ≡ ok a → Ensures P m → P a
  Ensures-elim {a} m e (returned {a = x} p) = let same : x ≡ a = cc in subst P same p
  Ensures-elim m e raised = cc

  pub Ensures-any {μ} :
      {B : Type μ} (m : Result B) {f : B → Result A}
      → ((x : B) → Ensures P (f x))
      → Ensures P (m >>= f)
  Ensures-any (ok x) k = k x
  Ensures-any (raise e) k = raised
