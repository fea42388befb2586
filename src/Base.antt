-- ===== src/Base.antt =====
-- Shared names, tests on the native numbers, machine words and pointwise updates. The library
-- names that every module uses are passed on.
pub use Prim.Native.Nat.{ℕ, zero, suc, ◌+◌, ◌-◌, ◌*◌, ◌/◌, ◌%◌, ◌^◌, ◌≤◌, ◌<◌}
pub use mathlib.Core.Path.{◌≡◌, refl, sym, ap, ◌∙◌, subst}
pub use mathlib.Core.Logic.{◌≢◌, ◌↔◌, ◌⊎◌, inl, inr}
pub use mathlib.Core.Bool.{Bool, true, false, not, ◌&&◌, ◌||◌}
pub use mathlib.Core.Option.{Option, none, some}
pub use mathlib.Core.List.{List, [], ◌∷◌, ◌++◌}
pub use native.Mathlib.Omega.{arith}
unfoldable pub use native.Mathlib.Decide.{dec_lt, ℕ_discrete}
use Prim.Native.Nat.{compare, Ordering}

abbrev pub ltb : ℕ → ℕ → Bool
ltb a b = elim (compare a b) [ Ordering.lt ↦ true | _ ↦ false ]

abbrev pub leb : ℕ → ℕ → Bool
leb a b = elim (compare a b) [ Ordering.gt ↦ false | _ ↦ true ]

infix 50 ◌==◌
abbrev pub ◌==◌ : ℕ → ℕ → Bool
a == b = elim (compare a b) [ Ordering.eq ↦ true | _ ↦ false ]

infix 1 if◌then◌else◌
abbrev pub if◌then◌else◌ {ℓ} : {A : Type ℓ} → Bool → A → A → A
if true then x else y = x
if false then x else y = y

-- To split on a computed value and keep the equation.
pub Bool-cases : (b : Bool) → (b ≡ true) ⊎ (b ≡ false)
Bool-cases true = inl refl
Bool-cases false = inr refl

pub Option-cases {ℓ} : {A : Type ℓ} (o : Option A) → (o ≡ none) ⊎ ((a : A) × (o ≡ some a))
Option-cases none = inl refl
Option-cases (some a) = inr (a, refl)

-- Is the pointer the given address?
abbrev pub points_to : Option ℕ → ℕ → Bool
points_to none a = false
points_to (some b) a = b == a

abbrev pub is_null {ℓ} : {A : Type ℓ} → Option A → Bool
is_null none = true
is_null (some a) = false

-- An array or a memory is a function from its addresses; a write replaces one value.
abbrev pub update {ℓ} : {A : Type ℓ} → (ℕ → A) → ℕ → A → ℕ → A
update f k v j = if j == k then v else f j

-- `uint32_t` and `uint64_t` arithmetic wraps; `-` on ℕ stops at 0, so the modulus is added first.
abbrev pub add32 : ℕ → ℕ → ℕ
add32 a b = (a + b) % 2 ^ 32

abbrev pub sub32 : ℕ → ℕ → ℕ
sub32 a b = (a + 2 ^ 32 - b) % 2 ^ 32

abbrev pub add64 : ℕ → ℕ → ℕ
add64 a b = (a + b) % 2 ^ 64

abbrev pub sub64 : ℕ → ℕ → ℕ
sub64 a b = (a + 2 ^ 64 - b) % 2 ^ 64

-- `(int32_t)(a - b) < 0`: the sign bit of the wrapped difference.
abbrev pub signed_lt32 : ℕ → ℕ → Bool
signed_lt32 a b = leb (2 ^ 31) (sub32 a b)

-- `uint32_t max`, which the blocking calls take for "no timeout".
abbrev pub uint32_max : ℕ
uint32_max = 2 ^ 32 - 1

-- A conditional whose test is known, with its branches left as they stand.
module _ {ℓ} {A : Type ℓ} (x y : A) {b : Bool} where
  pub if_true : b ≡ true → (if b then x else y) ≡ x
  if_true e = ap (λ c. if c then x else y) e

  pub if_false : b ≡ false → (if b then x else y) ≡ y
  if_false e = ap (λ c. if c then x else y) e
