-- ===== src/Spec/BundlePath/Safety.antt =====
-- What `ValidateBundlePath` guarantees of the paths that it accepts.
use mathlib.Core.Bool.{false≢true}
use ocidoc_go.Base.{
  ℕ, ◌<◌, ◌≡◌, ◌≢◌, ◌⊎◌, inl, inr, refl, sym, ◌∙◌, true, false, none, List, [], ◌∷◌, ◌==◌, Text,
  codes, any, In, All, is_empty, ⨾-eq-none, text_eq, has_prefix, has_suffix, contains_byte, split,
  before, arith, Bool-cases, ==_iff, contains-split, subst,
}
use ocidoc_go.Unicode.{CaseTables, runes, valid_utf8, to_upper}
use ocidoc_go.Unicode.Ascii.{contains-runes}
use ocidoc_go.GoPath.{is_abs, clean}
use ocidoc_go.GoPath.Clean.{IsNormal, clean-IsNormal}
use ocidoc_go.Spec.BundlePath.{
  is_reserved_windows_name, is_drive_path, is_unportable, validate_segment, validate_segments,
  validate_bundle_path,
}

module _ (u : CaseTables) (p : Text) where
  -- What holds of an accepted segment.
  pub record IsPortable (seg : Text) : Type 0 where
    pub not_empty : is_empty seg ≡ false
    pub not_dot : text_eq seg (codes ".") ≡ false
    pub not_dot_dot : text_eq seg (codes "..") ≡ false
    pub no_end_dot : has_suffix seg (codes ".") ≡ false
    pub portable_runes : any is_unportable (runes seg) ≡ false
    pub not_device : is_reserved_windows_name (to_upper u (before b'.' seg)) ≡ false

  validate_segment-IsPortable : (seg : Text) → validate_segment u p seg ≡ none → IsPortable seg
  unfolding validate_segment
  validate_segment-IsPortable seg h = ground arith

  validate_segments-IsPortable :
      (segs : List Text) → validate_segments u p segs ≡ none → All IsPortable segs
  unfolding validate_segments
  validate_segments-IsPortable [] h = tt
  validate_segments-IsPortable (seg ∷ segs) h =
      let (first, others) =
        (⨾-eq-none (validate_segment u p seg) (validate_segments u p segs)).0 h in
      (validate_segment-IsPortable seg first, validate_segments-IsPortable segs others)

  accepted_parts :
      validate_bundle_path u p ≡ none
      → (is_empty p ≡ false)
        × (valid_utf8 p ≡ true)
        × (contains_byte 0 p ≡ false)
        × (contains_byte b'\\' p ≡ false)
        × (has_prefix p (codes "/") ≡ false)
        × (is_drive_path p ≡ false)
        × (validate_segments u p (split b'/' p) ≡ none)
  unfolding validate_bundle_path
  accepted_parts h = ground arith

  accepted-IsPortable : validate_bundle_path u p ≡ none → All IsPortable (split b'/' p)
  accepted-IsPortable h = validate_segments-IsPortable (split b'/' p) (accepted_parts h).6

  IsPortable-IsNormal : (segs : List Text) → All IsPortable segs → All IsNormal segs
  IsPortable-IsNormal [] h = tt
  IsPortable-IsNormal (seg ∷ segs) h = (
    record { not_empty = h.0.not_empty; not_dot = h.0.not_dot; not_dot_dot = h.0.not_dot_dot },
    IsPortable-IsNormal segs h.1,
  )

  -- An accepted path is relative and is its own lexical normal form: none of its segments is empty,
  -- `.` or `..`.
  pub accepted-clean :
      validate_bundle_path u p ≡ none
      → (is_abs p ≡ false) × All IsNormal (split b'/' p) × (clean p ≡ p)
  accepted-clean h =
      let normal = IsPortable-IsNormal (split b'/' p) (accepted-IsPortable h) in
      let relative : is_abs p ≡ false = unfold is_abs in (accepted_parts h).4 in
      (relative, normal, clean-IsNormal p relative normal)

-- The bytes that no accepted path holds: control bytes, the space, and what Windows forbids.
abbrev pub Forbidden : ℕ → Type 0
Forbidden c = (c < 0x20) ⊎ In c (0x7f ∷ codes "\\ <>:\"|?*")

Forbidden-is_unportable :
    (c : ℕ) → Forbidden c → (c ≡ b'\\') ⊎ ((c < 0x80) × (c ≢ b'/') × (is_unportable c ≡ true))
unfolding is_unportable
Forbidden-is_unportable c h = ground arith

any-runes-is_unportable :
    (c : ℕ) (rs : List ℕ)
    → is_unportable c ≡ true
    → any (λ r. r == c) rs ≡ true
    → any is_unportable rs ≡ true
any-runes-is_unportable c [] bad h = cc
any-runes-is_unportable c (r ∷ rs) bad h = elim (Bool-cases (r == c)) [
  | inl e ↦ rw ((==_iff r c).0 e, bad)
  | inr n ↦ ground (arith, any-runes-is_unportable c rs bad)
]

module _ (u : CaseTables) (p : Text) where
  segments-lack :
      (c : ℕ) (segs : List Text)
      → c < 0x80
      → is_unportable c ≡ true
      → All (IsPortable u p) segs
      → any (contains_byte c) segs ≡ false
  segments-lack c [] low bad h = refl
  segments-lack c (seg ∷ segs) low bad h = elim (Bool-cases (contains_byte c seg)) [
    | inr n ↦ rw n (segments-lack c segs low bad h.1)
    | inl e ↦
        let found = any-runes-is_unportable c (runes seg) bad (contains-runes c low seg e) in
        absurd (false≢true (sym h.0.portable_runes ∙ found))
  ]

  -- An accepted path holds no control byte, no space, and none of the bytes that Windows forbids in
  -- file names.
  pub accepted-lacks :
      (c : ℕ) → Forbidden c → validate_bundle_path u p ≡ none → contains_byte c p ≡ false
  accepted-lacks c bad h = elim (Bool-cases (contains_byte c p)) [
    | inr n ↦ n
    | inl e ↦ elim (Forbidden-is_unportable c bad) [
      | inl slash ↦ subst (λ d. contains_byte d p ≡ false) (sym slash) (accepted_parts u p h).3
      | inr (low, other, unportable) ↦
          let lack = segments-lack c (split b'/' p) low unportable (accepted-IsPortable u p h) in
          absurd (false≢true (sym lack ∙ contains-split b'/' c p other e))
    ]
  ]
