-- ===== src/Unicode/Ascii.antt =====
-- An ASCII byte of a string is a rune of it: the bytes inside of a longer rune are at least 0x80.
use ocidoc_go.Base.{
  ℕ, zero, suc, ◌-◌, ◌≤◌, ◌<◌, ◌≡◌, ◌⊎◌, sym, subst, true, some, [], ◌∷◌, map, ◌==◌, Text, any,
  contains_byte, arith, Option-cases, inl, inr,
}
use ocidoc_go.Unicode.{
  decode_rune, runes_from, runes, or_error, announced, second_ok, two, three, four,
}

-- The first `k` bytes of a text are at least 0x80.
abbrev Above : ℕ → Text → Type 0
Above zero s = Unit
Above (suc k) [] = Unit
Above (suc k) (b ∷ s) = (0x80 ≤ b) × Above k s

decode_low : (b : ℕ) (s : Text) → b < 0x80 → decode_rune b s ≡ some (b, 1)
unfolding decode_rune announced
decode_low b s h = ground arith

Above-two : (b : ℕ) (s : Text) (r w : ℕ) → two b s ≡ some (r, w) → (w ≡ 2) × Above 1 s
unfolding two second_ok
Above-two b [] r w h = cc
Above-two b (c ∷ s) r w h = ground arith

Above-three : (b : ℕ) (s : Text) (r w : ℕ) → three b s ≡ some (r, w) → (w ≡ 3) × Above 2 s
unfolding three second_ok
Above-three b [] r w h = cc
Above-three b (c ∷ []) r w h = cc
Above-three b (c ∷ d ∷ s) r w h = ground arith

Above-four : (b : ℕ) (s : Text) (r w : ℕ) → four b s ≡ some (r, w) → (w ≡ 4) × Above 3 s
unfolding four second_ok
Above-four b [] r w h = cc
Above-four b (c ∷ []) r w h = cc
Above-four b (c ∷ d ∷ []) r w h = cc
Above-four b (c ∷ d ∷ e ∷ s) r w h = ground arith

width_cases :
    (b : ℕ) (s : Text) (r w : ℕ)
    → decode_rune b s ≡ some (r, w)
    → (w ≡ 1) ⊎ (two b s ≡ some (r, w)) ⊎ (three b s ≡ some (r, w)) ⊎ (four b s ≡ some (r, w))
unfolding decode_rune announced
width_cases b s r w h = ground arith

-- The bytes behind the first one of a rune are at least 0x80.
Above-decode_rune : (b : ℕ) (s : Text) (r w : ℕ) → decode_rune b s ≡ some (r, w) → Above (w - 1) s
Above-decode_rune b s r w h = elim (width_cases b s r w h) [
  | inl e ↦ subst (λ k. Above (k - 1) s) (sym e) tt
  | inr more ↦ elim more [
    | inl e ↦
        let (two_bytes, above) = Above-two b s r w e in
        subst (λ k. Above (k - 1) s) (sym two_bytes) above
    | inr more ↦ elim more [
      | inl e ↦
          let (three_bytes, above) = Above-three b s r w e in
          subst (λ k. Above (k - 1) s) (sym three_bytes) above
      | inr e ↦
          let (four_bytes, above) = Above-four b s r w e in
          subst (λ k. Above (k - 1) s) (sym four_bytes) above
    ]
  ]
]

module _ (c : ℕ) (low : c < 0x80) where
  ascii_from :
      (skip : ℕ) (s : Text)
      → Above skip s
      → contains_byte c s ≡ true
      → any (λ r. r == c) (map or_error (runes_from skip s)) ≡ true
  unfolding runes_from contains_byte
  ascii_from skip [] a h = cc
  ascii_from (suc skip) (b ∷ s) a h = ascii_from skip s a.1 (ground arith)
  ascii_from zero (b ∷ s) a h = elim (Option-cases (decode_rune b s)) [
    | inl e ↦ rw (e, runes_from) (ground (arith, decode_low b s, ascii_from 0 s tt))
    | inr (found, e) ↦
        rw (e, runes_from)
          (ground (
            arith,
            decode_low b s,
            ascii_from (found.1 - 1) s (Above-decode_rune b s found.0 found.1 e),
          ))
  ]

  -- An ASCII byte of `s` is among the runes of `s`.
  pub contains-runes : (s : Text) → contains_byte c s ≡ true → any (λ r. r == c) (runes s) ≡ true
  unfolding runes
  contains-runes s h = ascii_from 0 s tt h
