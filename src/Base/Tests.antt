-- ===== src/Base/Tests.antt =====
-- Boolean tests on the native numbers, the conditional, and C's integers as bit patterns.
use Prim.Native.Nat.{ℕ, ◌+◌, ◌-◌, ◌%◌, ◌^◌, ◌<◌, compare, Ordering}
use mathlib.Core.Path.{◌≡◌, refl}
use mathlib.Core.Logic.{◌↔◌, ◌⊎◌, inl, inr}
use mathlib.Core.Bool.{Bool, true, false, not, ◌&&◌}
use mathlib.Core.Option.{Option, none, some}
use native.Mathlib.Omega.{arith}

abbrev pub ltb : ℕ → ℕ → Bool
ltb a b = elim (compare a b) [ Ordering.lt ↦ true | _ ↦ false ]

abbrev pub leb : ℕ → ℕ → Bool
leb a b = elim (compare a b) [ Ordering.gt ↦ false | _ ↦ true ]

infix 50 ◌==◌
abbrev pub ◌==◌ : ℕ → ℕ → Bool
a == b = elim (compare a b) [ Ordering.eq ↦ true | _ ↦ false ]

infix 1 if◌then◌else◌
abbrev pub if◌then◌else◌ {ℓ} : {A : Type ℓ} → Bool → A → A → A
if true then x else y = x
if false then x else y = y

-- An `int` is its 32-bit pattern and an `int64_t` its 64-bit pattern.
abbrev pub minus_one : ℕ
minus_one = 0xffff_ffff

-- `x < 0` of an `int`, and of an `int64_t`
abbrev pub is_neg : ℕ → Bool
is_neg x = leb (2 ^ 31) x

abbrev pub is_neg64 : ℕ → Bool
is_neg64 x = leb (2 ^ 63) x

-- `x > 0` and `-x` of an `int`
abbrev pub is_pos : ℕ → Bool
is_pos x = not (is_neg x) && ltb 0 x

abbrev pub neg32 : ℕ → ℕ
neg32 x = (2 ^ 32 - x) % 2 ^ 32

-- the conversion of an `int` to an `int64_t`, and back
abbrev pub sign_extend : ℕ → ℕ
sign_extend x = if is_neg x then x + (2 ^ 64 - 2 ^ 32) else x

abbrev pub to_int : ℕ → ℕ
to_int x = x % 2 ^ 32

pub to_int-sign_extend : (x : ℕ) → x < 2 ^ 32 → to_int (sign_extend x) ≡ x
to_int-sign_extend x h = ground arith

pub is_neg64-sign_extend : (x : ℕ) → x < 2 ^ 32 → is_neg64 (sign_extend x) ≡ is_neg x
is_neg64-sign_extend x h = ground arith

pub ==_iff : (a b : ℕ) → ((a == b) ≡ true) ↔ (a ≡ b)
==_iff a b = ground arith

-- To split on a computed value and keep the equation.
pub Bool-cases : (b : Bool) → (b ≡ true) ⊎ (b ≡ false)
Bool-cases true = inl refl
Bool-cases false = inr refl

pub Option-cases {ℓ} : {A : Type ℓ} (o : Option A) → (o ≡ none) ⊎ ((a : A) × (o ≡ some a))
Option-cases none = inl refl
Option-cases (some a) = inr (a, refl)
