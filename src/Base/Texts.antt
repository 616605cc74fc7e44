-- ===== src/Base/Texts.antt =====
-- Go strings as lists of bytes, and the operations of Go's `strings` that the code calls.
use Prim.Native.Nat.{ℕ}
use Prim.Native.Char.{code}
use Prim.Native.String.{String}
use mathlib.Core.Path.{◌≡◌, refl, ap, ◌∙◌}
use mathlib.Core.Logic.{◌↔◌, ◌≢◌, inl, inr}
use mathlib.Core.Bool.{Bool, true, false, ◌&&◌, ◌||◌}
use mathlib.Core.Option.{Option, none, some}
use mathlib.Core.List.{List, [], ◌∷◌, ◌++◌, reverse}
use native.Mathlib.Omega.{arith}
use ocidoc_go.Base.Lists.{any, In}
use ocidoc_go.Base.Tests.{ltb, ◌==◌, if◌then◌else◌, Bool-cases, Option-cases}

abbrev pub Text : Type 0
Text = List ℕ

-- The bytes of an ASCII literal.
abbrev pub codes : String → Text
codes String.[] = []
codes (String.◌∷◌ c s) = code c ∷ codes s

-- `a == b` on strings.
unfoldable pub text_eq : Text → Text → Bool
text_eq [] [] = true
text_eq [] (y ∷ ys) = false
text_eq (x ∷ xs) [] = false
text_eq (x ∷ xs) (y ∷ ys) = (x == y) && text_eq xs ys

pub text_eq_iff : (a b : Text) → (text_eq a b ≡ true) ↔ (a ≡ b)
unfolding text_eq
text_eq_iff [] [] = (λ _. refl, λ _. refl)
text_eq_iff [] (y ∷ ys) = (λ h. cc, λ h. cc)
text_eq_iff (x ∷ xs) [] = (λ h. cc, λ h. cc)
text_eq_iff (x ∷ xs) (y ∷ ys) = ground (arith, text_eq_iff xs ys)

pub text_eq_self : (a : Text) → text_eq a a ≡ true
text_eq_self a = (text_eq_iff a a).1 refl

-- `strings.Compare(a, b) <= 0`
unfoldable pub text_leb : Text → Text → Bool
text_leb [] b = true
text_leb (x ∷ a) [] = false
text_leb (x ∷ a) (y ∷ b) = ltb x y || ((x == y) && text_leb a b)

-- What is left of `s` behind `p`, if `s` begins with `p`.
abbrev pub behind : Text → Text → Option Text
behind s [] = some s
behind [] (d ∷ p) = none
behind (c ∷ s) (d ∷ p) = if c == d then behind s p else none

-- `strings.HasPrefix(s, p)`
unfoldable pub has_prefix : Text → Text → Bool
has_prefix s p = elim (behind s p) [ none ↦ false | some r ↦ true ]

-- `strings.HasSuffix(s, p)`
unfoldable pub has_suffix : Text → Text → Bool
unfolding has_prefix
has_suffix s p = has_prefix (reverse s) (reverse p)

-- `strings.TrimPrefix(s, p)`
unfoldable pub trim_prefix : Text → Text → Text
trim_prefix s p = elim (behind s p) [ none ↦ s | some r ↦ r ]

-- `strings.IndexByte(s, b) >= 0`
unfoldable pub contains_byte : ℕ → Text → Bool
contains_byte b [] = false
contains_byte b (c ∷ s) = (c == b) || contains_byte b s

-- The suffix of `s` that begins at its last `b`: `s[strings.LastIndexByte(s, b):]`.
unfoldable pub from_last : ℕ → Text → Option Text
from_last b [] = none
from_last b (c ∷ s) = elim (from_last b s) [
  | some r ↦ some r
  | none ↦ if c == b then some (c ∷ s) else none
]

-- The bytes before the first `b`: the first result of `strings.Cut(s, string(b))`.
unfoldable pub before : ℕ → Text → Text
before b [] = []
before b (c ∷ s) = let rest = before b s in if c == b then [] else c ∷ rest

-- Puts a byte in front of the first part.
abbrev pub onto_first : ℕ → List Text → List Text
onto_first c [] = (c ∷ []) ∷ []
onto_first c (p ∷ ps) = (c ∷ p) ∷ ps

-- `strings.SplitSeq(s, string(b))`: at least one part.
unfoldable pub split : ℕ → Text → List Text
split b [] = [] ∷ []
split b (c ∷ s) = let rest = split b s in if c == b then [] ∷ rest else onto_first c rest

-- `strings.Join(parts, string(b))`
unfoldable pub join : ℕ → List Text → Text
join b [] = []
join b (p ∷ []) = p
join b (p ∷ q ∷ ps) = p ++ b ∷ join b (q ∷ ps)

onto_first-ne-nil : (c : ℕ) (ps : List Text) → onto_first c ps ≢ []
onto_first-ne-nil c [] = cc
onto_first-ne-nil c (p ∷ ps) = cc

pub split-ne-nil : (b : ℕ) (s : Text) → split b s ≢ []
unfolding split
split-ne-nil b [] = cc
split-ne-nil b (c ∷ s) = ground (arith, onto_first-ne-nil c (split b s))

join-cons : (b : ℕ) (ps : List Text) → ps ≢ [] → join b ([] ∷ ps) ≡ b ∷ join b ps
unfolding join
join-cons b [] h = absurd (h refl)
join-cons b (p ∷ ps) h = refl

join-onto_first : (b c : ℕ) (ps : List Text) → ps ≢ [] → join b (onto_first c ps) ≡ c ∷ join b ps
unfolding join
join-onto_first b c [] h = absurd (h refl)
join-onto_first b c (p ∷ []) h = refl
join-onto_first b c (p ∷ q ∷ ps) h = refl

-- The parts of a split spell the text.
pub join-split : (b : ℕ) (s : Text) → join b (split b s) ≡ s
unfolding split join
join-split b [] = refl
join-split b (c ∷ s) = elim (Bool-cases (c == b)) [
  | inl e ↦ rw e (join-cons b (split b s) (split-ne-nil b s) ∙ ground (arith, join-split b s))
  | inr n ↦
      rw n (join-onto_first b c (split b s) (split-ne-nil b s) ∙ ap (λ t. c ∷ t) (join-split b s))
]

any-onto_first :
    (c d : ℕ) (ps : List Text)
    → any (contains_byte c) (onto_first d ps) ≡ ((d == c) || any (contains_byte c) ps)
unfolding contains_byte
any-onto_first c d [] = ground arith
any-onto_first c d (q ∷ ps) = ground arith

-- A byte other than the separator stands in one of the parts.
pub contains-split :
    (b c : ℕ) (s : Text)
    → c ≢ b
    → contains_byte c s ≡ true
    → any (contains_byte c) (split b s) ≡ true
unfolding contains_byte split
contains-split b c [] ne h = cc
contains-split b c (d ∷ s) ne h =
    ground (arith, any-onto_first c d (split b s), contains-split b c s ne)

pub behind-append : (p r : Text) → behind (p ++ r) p ≡ some r
behind-append [] r = refl
behind-append (d ∷ p) r = ground (arith, behind-append p r)

pub append_of_behind : (s p r : Text) → behind s p ≡ some r → s ≡ p ++ r
append_of_behind s [] r h = ground arith
append_of_behind [] (d ∷ p) r h = cc
append_of_behind (c ∷ s) (d ∷ p) r h = ground (arith, append_of_behind s p r)

-- Membership in a list of texts, as a test.
pub any-text_eq_iff : (t : Text) (ts : List Text) → (any (text_eq t) ts ≡ true) ↔ In t ts
any-text_eq_iff t [] = (λ h. cc, λ h. absurd h)
any-text_eq_iff t (s ∷ ts) = ground (arith, text_eq_iff t s, any-text_eq_iff t ts)

pub has_prefix-append : (p r : Text) → has_prefix (p ++ r) p ≡ true
unfolding has_prefix
has_prefix-append p r = rw (behind-append p r, has_prefix) refl

pub append_of_has_prefix : (s p : Text) → has_prefix s p ≡ true → (r : Text) × (s ≡ p ++ r)
unfolding has_prefix
append_of_has_prefix s p h = elim (Option-cases (behind s p)) [
  | inl e ↦ absurd (no_rest (behind s p) e h)
  | inr (r, e) ↦ (r, append_of_behind s p r e)
]
  where
    no_rest : (o : Option Text) → o ≡ none → elim o [ none ↦ false | some r ↦ true ] ≡ true → ⊥
    no_rest o e h = ground arith

pub text_eq_sym : (a b : Text) → text_eq a b ≡ text_eq b a
text_eq_sym a b = ground (arith, text_eq_iff a b, text_eq_iff b a)
