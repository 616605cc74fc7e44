-- ===== src/GoPath/Rooted.antt =====
-- Lexical facts: a clean absolute path has ordinary elements, and what is joined to it is absolute.
use mathlib.Core.List.{reverse_aux}
use ocidoc_go.Base.{
  ◌≡◌, inl, inr, refl, true, false, ◌==◌, ℕ, List, [], ◌∷◌, ◌++◌, Text, codes, is_empty, text_eq,
  has_prefix, contains_byte, split, onto_first, All, Bool-cases, arith, if◌then◌else◌,
}
use ocidoc_go.GoPath.{clean_step, clean_from, is_abs, elements, clean, join_paths}
use ocidoc_go.GoPath.Clean.{IsNormal}

-- An element that names something, and is one element.
pub record IsPlain (seg : Text) : Type 0 where
  pub normal : IsNormal seg
  pub one : contains_byte b'/' seg ≡ false

onto_first-lacks :
    (b c : ℕ) (ps : List Text)
    → (c == b) ≡ false
    → All (λ p. contains_byte b p ≡ false) ps
    → All (λ p. contains_byte b p ≡ false) (onto_first c ps)
unfolding contains_byte
onto_first-lacks b c [] ne h = (ground (arith, ne), tt)
onto_first-lacks b c (p ∷ ps) ne h = (ground (arith, ne, h.0), h.1)

split-lacks : (b : ℕ) (s : Text) → All (λ p. contains_byte b p ≡ false) (split b s)
unfolding split contains_byte
split-lacks b [] = (refl, tt)
split-lacks b (c ∷ s) = elim (Bool-cases (c == b)) [
  | inl e ↦ rw e (refl, split-lacks b s)
  | inr n ↦ rw n (onto_first-lacks b c (split b s) n (split-lacks b s))
]

clean_step-IsPlain :
    (seg : Text) (kept : List Text)
    → contains_byte b'/' seg ≡ false
    → All IsPlain kept
    → All IsPlain (clean_step true seg kept)
unfolding clean_step
clean_step-IsPlain seg kept one h = elim (Bool-cases (is_empty seg)) [
  | inl e ↦ rw e h
  | inr full ↦ elim (Bool-cases (text_eq seg (codes "."))) [
    | inl e ↦ rw (full, e) h
    | inr undotted ↦ elim (Bool-cases (text_eq seg (codes ".."))) [
      | inl e ↦ rw (full, undotted, e) (above kept h)
      | inr named ↦
          rw (full, undotted, named)
            (
              record {
                normal = record { not_empty = full; not_dot = undotted; not_dot_dot = named };
                one = one;
              },
              h,
            )
    ]
  ]
]
  where
    above :
        (kept : List Text)
        → All IsPlain kept
        → All IsPlain (elim kept as (λ _. List Text) [
          | [] ↦ []
          | last ∷ others ↦ if text_eq last (codes "..") then codes ".." ∷ last ∷ others else others
        ])
    above [] h = tt
    above (last ∷ others) h = rw h.0.normal.not_dot_dot h.1

clean_from-IsPlain :
    (segs kept : List Text)
    → All (λ p. contains_byte b'/' p ≡ false) segs
    → All IsPlain kept
    → All IsPlain (clean_from true segs kept)
unfolding clean_from
clean_from-IsPlain [] kept one h = h
clean_from-IsPlain (seg ∷ segs) kept one h =
    clean_from-IsPlain segs (clean_step true seg kept) one.1 (clean_step-IsPlain seg kept one.0 h)

All-reverse_aux :
    (xs acc : List Text) → All IsPlain xs → All IsPlain acc → All IsPlain (reverse_aux xs acc)
All-reverse_aux [] acc h k = k
All-reverse_aux (x ∷ xs) acc h k = All-reverse_aux xs (x ∷ acc) h.1 (h.0, k)

-- A clean absolute path has no `..` left.
pub elements-IsPlain : (p : Text) → is_abs p ≡ true → All IsPlain (elements p)
unfolding elements
elements-IsPlain p rooted = rw rooted (
    All-reverse_aux (clean_from true (split b'/' p) []) []
      (clean_from-IsPlain (split b'/' p) [] (split-lacks b'/' p) tt) tt)

clean-is_abs : (p : Text) → is_abs p ≡ true → is_abs (clean p) ≡ true
unfolding clean is_abs has_prefix
clean-is_abs p h = rw h refl

append-is_abs : (p s : Text) → is_abs p ≡ true → is_abs (p ++ s) ≡ true
unfolding is_abs has_prefix
append-is_abs [] s h = cc
append-is_abs (c ∷ p) s h = ground (arith, h)

unrooted : is_abs [] ≡ true → ⊥
unfolding is_abs has_prefix
unrooted h = cc

-- What is joined to an absolute path is absolute.
pub join_paths-is_abs : (p s : Text) → is_abs p ≡ true → is_abs (join_paths p s) ≡ true
unfolding join_paths
join_paths-is_abs [] s h = absurd (unrooted h)
join_paths-is_abs (c ∷ p) s h = elim (Bool-cases (is_empty s)) [
  | inl e ↦ rw e (clean-is_abs (c ∷ p) h)
  | inr n ↦ rw n (clean-is_abs (c ∷ p ++ b'/' ∷ s) (append-is_abs (c ∷ p) (b'/' ∷ s) h))
]
