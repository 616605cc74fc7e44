-- ===== src/Base/Results.antt =====
-- Results of fallible code. A Go function that returns only an `error` returns an `Option` of it,
-- with `none` for nil.
use mathlib.Core.Path.{◌≡◌, refl}
use mathlib.Core.Logic.{◌↔◌, ◌⊎◌, inl, inr}
use mathlib.Core.Bool.{Bool, true, false}
use mathlib.Core.Option.{Option, none, some}
use native.Mathlib.Omega.{arith}

pub data Result {ℓ κ} (E : Type ℓ) (A : Type κ) : Type (ℓ ⊔ κ) where
  ok : A → Result E A
  err : E → Result E A

infixl 5 ◌>>=◌
abbrev pub ◌>>=◌ {ℓ κ ι} :
    {E : Type ℓ} {A : Type κ} {B : Type ι} → Result E A → (A → Result E B) → Result E B
ok a >>= f = f a
err e >>= f = err e

-- `if err := first; err != nil { return err }; rest`
infixr 5 ◌⨾◌
abbrev pub ◌⨾◌ {ℓ} : {E : Type ℓ} → Option E → Option E → Option E
none ⨾ rest = rest
some e ⨾ rest = some e

-- `if test { return e }`
abbrev pub fail_if {ℓ} : {E : Type ℓ} → Bool → E → Option E
fail_if true e = some e
fail_if false e = none

-- `if err := first; err != nil { return _, err }; rest`
abbrev pub after {ℓ κ} : {E : Type ℓ} {A : Type κ} → Option E → Result E A → Result E A
after none rest = rest
after (some e) rest = err e

module _ {ℓ} {E : Type ℓ} where
  pub ⨾-eq-none : (a b : Option E) → ((a ⨾ b) ≡ none) ↔ ((a ≡ none) × (b ≡ none))
  ⨾-eq-none a b = ground arith

  pub fail_if-eq-none : (b : Bool) (e : E) → (fail_if b e ≡ none) ↔ (b ≡ false)
  fail_if-eq-none b e = ground arith

pub after-eq-ok {ℓ κ} :
    {E : Type ℓ} {A : Type κ} (o : Option E) (r : Result E A) (a : A)
    → after o r ≡ ok a
    → (o ≡ none) × (r ≡ ok a)
after-eq-ok none r a h = (refl, h)
after-eq-ok (some e) r a h = cc

pub Result-cases {ℓ κ} :
    {E : Type ℓ} {A : Type κ} (r : Result E A) → ((a : A) × (r ≡ ok a)) ⊎ ((e : E) × (r ≡ err e))
Result-cases (ok a) = inl (a, refl)
Result-cases (err e) = inr (e, refl)

-- The value that a successful chain went through.
pub through {ℓ κ ι} :
    {E : Type ℓ} {A : Type κ} {B : Type ι} (f : A → Result E B) (last : B) (r : Result E A)
    → (r >>= f) ≡ ok last
    → (value : A) × (r ≡ ok value) × (f value ≡ ok last)
through f last (err e) passed = cc
through f last (ok value) passed = (value, refl, passed)

pub ok_inj {ℓ κ} : {E : Type ℓ} {A : Type κ} {a b : A} → ◌≡◌ {A = Result E A} (ok a) (ok b) → a ≡ b
ok_inj h = cc
