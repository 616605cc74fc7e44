-- ===== src/Base/Lists.antt =====
-- Lists: length over the native numbers, predicates by recursion, quantified tests.
use Prim.Native.Nat.{ℕ, suc, ◌+◌}
use mathlib.Core.Path.{◌≡◌, refl, sym, subst}
use mathlib.Core.Logic.{◌↔◌, ◌⊎◌, inl, inr}
use mathlib.Core.Bool.{Bool, true, false, ◌&&◌, ◌||◌}
use mathlib.Core.List.{List, [], ◌∷◌, ◌++◌}
use native.Mathlib.Omega.{arith}

module _ {ℓ} {A : Type ℓ} where
  abbrev pub length : List A → ℕ
  length [] = 0
  length (x ∷ xs) = suc (length xs)

  pub length-append : (xs ys : List A) → length (xs ++ ys) ≡ length xs + length ys
  length-append [] ys = omega arith
  length-append (x ∷ xs) ys = omega (arith, length-append xs ys)

  abbrev pub is_empty : List A → Bool
  is_empty [] = true
  is_empty (x ∷ xs) = false

  abbrev pub any : (A → Bool) → List A → Bool
  any p [] = false
  any p (x ∷ xs) = p x || any p xs

  abbrev pub all : (A → Bool) → List A → Bool
  all p [] = true
  all p (x ∷ xs) = p x && all p xs

module _ {ℓ κ} {A : Type ℓ} (P : A → Type κ) where
  abbrev pub All : List A → Type κ
  All [] = Unit
  All (x ∷ xs) = P x × All xs

  pub All-append : (xs ys : List A) → All xs → All ys → All (xs ++ ys)
  All-append [] ys _ hy = hy
  All-append (x ∷ xs) ys (px, hx) hy = (px, All-append xs ys hx hy)

-- Every element stands in the relation `R` to each later one.
abbrev pub Pairs {ℓ κ} : {A : Type ℓ} → (A → A → Type κ) → List A → Type κ
Pairs R [] = Unit
Pairs R (x ∷ xs) = All (R x) xs × Pairs R xs

-- Membership with its position, as a type that computes.
abbrev pub In : {A : Type 0} → A → List A → Type 0
In x [] = ⊥
In x (y ∷ ys) = (x ≡ y) ⊎ In x ys

module _ {A : Type 0} where
  pub In-append : (x : A) (xs ys : List A) → In x (xs ++ ys) ↔ (In x xs ⊎ In x ys)
  In-append x [] ys = (λ h. inr h, λ h. elim h [ inl n ↦ absurd n | inr m ↦ m ])
  In-append x (y ∷ xs) ys = (
    λ h. elim h [
      | inl e ↦ inl (inl e)
      | inr m ↦ elim ((In-append x xs ys).0 m) [ inl a ↦ inl (inr a) | inr b ↦ inr b ]
    ],
    λ h. elim h [
      | inl m ↦ elim m [ inl e ↦ inl e | inr a ↦ inr ((In-append x xs ys).1 (inl a)) ]
      | inr b ↦ inr ((In-append x xs ys).1 (inr b))
    ],
  )

  pub All_at {κ} : (P : A → Type κ) (xs : List A) {x : A} → All P xs → In x xs → P x
  All_at P [] h m = absurd m
  All_at P (y ∷ xs) h (inl e) = subst P (sym e) h.0
  All_at P (y ∷ xs) h (inr m) = All_at P xs h.1 m

  pub All-of {κ} : (P : A → Type κ) (xs : List A) → ((x : A) → In x xs → P x) → All P xs
  All-of P [] f = tt
  All-of P (y ∷ xs) f = (f y (inl refl), All-of P xs (λ x m. f x (inr m)))

  -- A test on every element, as a predicate.
  pub all_iff : (p : A → Bool) (xs : List A) → (all p xs ≡ true) ↔ All (λ x. p x ≡ true) xs
  all_iff p [] = (λ _. tt, λ _. refl)
  all_iff p (x ∷ xs) = ground (arith, all_iff p xs)

  pub any_iff : (p : A → Bool) (xs : List A) → (any p xs ≡ false) ↔ All (λ x. p x ≡ false) xs
  any_iff p [] = (λ _. tt, λ _. refl)
  any_iff p (x ∷ xs) = ground (arith, any_iff p xs)

-- A conjunction at every element, taken apart and put together.
pub All-and {ℓ κ} :
    {A : Type ℓ} (P Q : A → Type κ) (xs : List A) → All (λ x. P x × Q x) xs ↔ (All P xs × All Q xs)
All-and P Q [] = (λ _. (tt, tt), λ _. tt)
All-and P Q (x ∷ xs) = (
  λ h. let (ps, qs) = (All-and P Q xs).0 h.1 in ((h.0.0, ps), (h.0.1, qs)),
  λ h. ((h.0.0, h.1.0), (All-and P Q xs).1 (h.0.1, h.1.1)),
)

pub All-iff {ℓ κ} :
    {A : Type ℓ} (P Q : A → Type κ) (xs : List A) → ((x : A) → P x ↔ Q x) → All P xs ↔ All Q xs
All-iff P Q [] f = (λ _. tt, λ _. tt)
All-iff P Q (x ∷ xs) f =
    (λ h. ((f x).0 h.0, (All-iff P Q xs f).0 h.1), λ h. ((f x).1 h.0, (All-iff P Q xs f).1 h.1))
