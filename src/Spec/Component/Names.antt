-- ===== src/Spec/Component/Names.antt =====
-- The names that `ValidateComponentType` accepts.
use mathlib.Core.Bool.{true≢false}
use ocidoc_go.Base.{
  ◌≡◌, ◌≢◌, ◌↔◌, ◌⊎◌, inl, inr, refl, ℕ, Bool, true, false, ◌&&◌, not, none, List, [], ◌∷◌, ◌==◌,
  Text, codes, In, All, all, is_empty, has_prefix, split, onto_first, arith, Bool-cases,
  has_prefix-append, append_of_has_prefix, sym, subst, ◌++◌, All_at, split-ne-nil, and_iff,
  any-text_eq_iff,
}
use ocidoc_go.Spec.Component.{
  standard_components, is_name_byte, match_rest, matches_name, is_standard_component,
  is_extension_component, validate_component_type,
}

-- A word of a name: one or more lower-case letters and digits.
abbrev pub IsWord : Text → Type 0
IsWord w = (is_empty w ≡ false) × (all is_name_byte w ≡ true)

-- The parts behind a read prefix; the first may be empty, unless a dash was just read.
abbrev Continues : Bool → List Text → Type 0
Continues dashed [] = ⊥
Continues dashed (w ∷ ws) =
    ((dashed ≡ true) → is_empty w ≡ false) × (all is_name_byte w ≡ true) × All IsWord ws

Continues-onto_first :
    (dashed : Bool) (c : ℕ) (ws : List Text)
    → ws ≢ []
    → Continues dashed (onto_first c ws) ↔ ((is_name_byte c ≡ true) × Continues false ws)
Continues-onto_first dashed c [] h = absurd (h refl)
Continues-onto_first dashed c (w ∷ ws) h = ground arith

Continues-dashed : (ws : List Text) → ws ≢ [] → Continues true ws ↔ All IsWord ws
Continues-dashed [] h = absurd (h refl)
Continues-dashed (w ∷ ws) h = (λ a. ((a.0 refl, a.1), a.2), λ a. ((λ _. a.0.0), a.0.1, a.1))

is_name_byte-dash : (c : ℕ) → (c == b'-') ≡ true → is_name_byte c ≡ false
unfolding is_name_byte
is_name_byte-dash c h = ground arith

match_rest_iff :
    (dashed : Bool) (s : Text) → (match_rest dashed s ≡ true) ↔ Continues dashed (split b'-' s)
unfolding match_rest split
match_rest_iff dashed [] = ground arith
match_rest_iff dashed (c ∷ s) = elim (Bool-cases (c == b'-')) [
  | inl dash ↦
      let words = Continues-dashed (split b'-' s) (split-ne-nil b'-' s) in
      let ih = match_rest_iff true s in
      rw (dash, is_name_byte-dash c dash)
        (
          λ h.
              let (fresh, rest) = (and_iff (not dashed) (match_rest true s)).0 h in
              ((λ d. absurd (not_true dashed fresh d)), refl, words.0 (ih.0 rest)),
          λ h.
              (and_iff (not dashed) (match_rest true s)).1
                (not_of dashed (λ d. true≢false (h.0 d)), ih.1 (words.1 h.2)),
        )
  | inr other ↦
      let first = Continues-onto_first dashed c (split b'-' s) (split-ne-nil b'-' s) in
      let ih = match_rest_iff false s in
      rw other (
        λ h. first.1 (ground arith, ih.0 (ground arith)),
        λ h. let (byte, rest) = first.0 h in ground (arith, ih.1 rest),
      )
]
  where
    not_true : (d : Bool) → not d ≡ true → d ≡ true → ⊥
    not_true d f t = ground arith

    not_of : (d : Bool) → ((d ≡ true) → ⊥) → not d ≡ true
    not_of true f = absurd (f refl)
    not_of false f = refl

-- Behind the extension prefix the pattern asks for words.
matches_name-extension :
    (rest : Text) → (matches_name (codes "x-" ++ rest) ≡ true) ↔ All IsWord (split b'-' rest)
unfolding matches_name match_rest is_name_byte
matches_name-extension rest =
    let words = Continues-dashed (split b'-' rest) (split-ne-nil b'-' rest) in
    let ih = match_rest_iff true rest in (λ h. words.0 (ih.0 h), λ h. ih.1 (words.1 h))

standard-matches : (name : Text) → In name standard_components → matches_name name ≡ true
unfolding matches_name match_rest is_name_byte
standard-matches name m =
    All_at (λ n. matches_name n ≡ true) standard_components
      (refl, (refl, (refl, (refl, (refl, (refl, (refl, (refl, tt)))))))) m

-- An extension name: `x-` and words.
pub record IsExtension (name : Text) : Type 0 where
  pub rest : Text
  pub spelled : name ≡ codes "x-" ++ rest
  pub words : All IsWord (split b'-' rest)

is_extension_component_iff : (name : Text) → (is_extension_component name ≡ true) ↔ IsExtension name
unfolding is_extension_component
is_extension_component_iff name = (
  λ h.
      let (prefixed, matched) = (and_iff (has_prefix name (codes "x-")) (matches_name name)).0 h in
      let (rest, spelled) = append_of_has_prefix name (codes "x-") prefixed in
      record {
        rest = rest;
        spelled = spelled;
        words =
            (matches_name-extension rest).0 (subst (λ n. matches_name n ≡ true) spelled matched);
      },
  λ h.
      subst (λ n. (has_prefix n (codes "x-") && matches_name n) ≡ true) (sym h.spelled)
        ((and_iff _ _).1
          (has_prefix-append (codes "x-") h.rest, (matches_name-extension h.rest).1 h.words)),
)

is_standard_component_iff :
    (name : Text) → (is_standard_component name ≡ true) ↔ In name standard_components
unfolding is_standard_component
is_standard_component_iff name = any-text_eq_iff name standard_components

-- The function in terms of its three tests.
validate_component_type-tests :
    (name : Text)
    → (validate_component_type name ≡ none) ↔ (
        (matches_name name ≡ true)
        × ((is_standard_component name ≡ true) ⊎ (is_extension_component name ≡ true)))
unfolding validate_component_type
validate_component_type-tests name = ground arith

-- A component name is accepted exactly if it is one of the eight standard names, or `x-` followed by
-- words of lower-case letters and digits that single dashes join.
pub validate_component_type_iff :
    (name : Text)
    → (validate_component_type name ≡ none) ↔ (In name standard_components ⊎ IsExtension name)
validate_component_type_iff name =
    let tests = validate_component_type-tests name in
    let extension = is_extension_component_iff name in
    let standard = is_standard_component_iff name in
    (
      λ h. elim (tests.0 h).1 [ inl s ↦ inl (standard.0 s) | inr e ↦ inr (extension.0 e) ],
      λ h. elim h [
        | inl m ↦ tests.1 (standard-matches name m, inl (standard.1 m))
        | inr e ↦ tests.1 (
          subst (λ n. matches_name n ≡ true) (sym e.spelled)
              ((matches_name-extension e.rest).1 e.words),
          inr (extension.1 e),
        )
      ],
    )
