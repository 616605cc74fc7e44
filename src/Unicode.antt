-- ===== src/Unicode.antt =====
-- Go's `range` over a string, `unicode/utf8` and the case mappings of `strings`. The mappings of
-- runes outside ASCII are tables of the `unicode` package and enter as an argument.
pub mod Ascii
use ocidoc_go.Base.{
  ℕ, zero, suc, ◌+◌, ◌-◌, ◌*◌, ◌/◌, ◌%◌, ◌≡◌, refl, Bool, true, false, ◌&&◌, ◌||◌, Option, none,
  some, List, [], ◌∷◌, ◌++◌, map, ltb, leb, ◌==◌, if◌then◌else◌, Text, all, codes,
}

-- The case tables of package `unicode` for runes from 128 on.
pub record CaseTables : Type 0 where
  pub lower_above : ℕ → ℕ
  pub upper_above : ℕ → ℕ

abbrev is_cont : ℕ → Bool
is_cont c = leb 0x80 c && leb c 0xbf

-- The range of the second byte, by the first (the `acceptRanges` of `unicode/utf8`).
second_ok : ℕ → ℕ → Bool
second_ok b c =
    if b == 0xe0
    then leb 0xa0 c && leb c 0xbf
    else if b == 0xed
    then leb 0x80 c && leb c 0x9f
    else if b == 0xf0
    then leb 0x90 c && leb c 0xbf
    else if b == 0xf4
    then leb 0x80 c && leb c 0x8f
    else is_cont c

-- The number of bytes that a first byte announces; 0 for a byte that cannot stand first.
announced : ℕ → ℕ
announced b =
    if ltb b 0x80
    then 1
    else if ltb b 0xc2
    then 0
    else if ltb b 0xe0
    then 2
    else if ltb b 0xf0
    then 3
    else if leb b 0xf4
    then 4
    else 0

two : ℕ → Text → Option (ℕ × ℕ)
two b (c ∷ _) = if second_ok b c then some ((b - 0xc0) * 64 + (c - 0x80), 2) else none
two b _ = none

three : ℕ → Text → Option (ℕ × ℕ)
three b (c ∷ d ∷ _) =
    if second_ok b c && is_cont d
    then some (((b - 0xe0) * 64 + (c - 0x80)) * 64 + (d - 0x80), 3)
    else none
three b _ = none

four : ℕ → Text → Option (ℕ × ℕ)
four b (c ∷ d ∷ e ∷ _) =
    if second_ok b c && (is_cont d && is_cont e)
    then some ((((b - 0xf0) * 64 + (c - 0x80)) * 64 + (d - 0x80)) * 64 + (e - 0x80), 4)
    else none
four b _ = none

-- The first rune and its width; `none` where Go reports `utf8.RuneError` at width 1.
pub decode_rune : ℕ → Text → Option (ℕ × ℕ)
decode_rune b s =
    let n = announced b in
    if n == 1
    then some (b, 1)
    else if n == 2
    then two b s
    else if n == 3
    then three b s
    else if n == 4
    then four b s
    else none

abbrev pub rune_error : ℕ
rune_error = 0xfffd

-- `skip` counts the bytes that are left of the rune before.
runes_from : ℕ → Text → List (Option ℕ)
runes_from skip [] = []
runes_from (suc skip) (b ∷ s) = runes_from skip s
runes_from zero (b ∷ s) = elim (decode_rune b s) [
  | none ↦ none ∷ runes_from 0 s
  | some (r, width) ↦ some r ∷ runes_from (width - 1) s
]

abbrev or_error : Option ℕ → ℕ
or_error none = rune_error
or_error (some r) = r

-- `for _, r := range s`
unfoldable pub runes : Text → List ℕ
unfolding runes_from decode_rune announced two three four second_ok
runes s = map or_error (runes_from 0 s)

-- `utf8.ValidString(s)`
unfoldable pub valid_utf8 : Text → Bool
unfolding runes_from decode_rune announced two three four second_ok
valid_utf8 s = all (λ o. elim o [ none ↦ false | some r ↦ true ]) (runes_from 0 s)

-- `utf8.AppendRune(nil, r)`
encode_rune : ℕ → Text
encode_rune r =
    if ltb r 0x80
    then r ∷ []
    else if ltb r 0x800
    then (0xc0 + r / 64) ∷ (0x80 + r % 64) ∷ []
    else if ltb 0x10ffff r || (leb 0xd800 r && leb r 0xdfff)
    then 0xef ∷ 0xbf ∷ 0xbd ∷ []
    else if ltb r 0x10000
    then (0xe0 + r / 4096) ∷ (0x80 + r / 64 % 64) ∷ (0x80 + r % 64) ∷ []
    else (0xf0 + r / 262144) ∷ (0x80 + r / 4096 % 64) ∷ (0x80 + r / 64 % 64) ∷ (0x80 + r % 64) ∷ []

encode : List ℕ → Text
unfolding encode_rune
encode [] = []
encode (r ∷ rs) = encode_rune r ++ encode rs

module _ (u : CaseTables) where
  lower_rune : ℕ → ℕ
  lower_rune r =
      if ltb r 0x80 then (if leb b'A' r && leb r b'Z' then r + 32 else r) else u.lower_above r

  upper_rune : ℕ → ℕ
  upper_rune r =
      if ltb r 0x80 then (if leb b'a' r && leb r b'z' then r - 32 else r) else u.upper_above r

  -- `strings.ToLower(s)`
  unfoldable pub to_lower : Text → Text
  unfolding lower_rune encode runes
  to_lower s = encode (map lower_rune (runes s))

  -- `strings.ToUpper(s)`
  unfoldable pub to_upper : Text → Text
  unfolding upper_rune encode runes
  to_upper s = encode (map upper_rune (runes s))

-- The tables of a program that meets no rune outside ASCII.
abbrev pub ascii_tables : CaseTables
ascii_tables = record { lower_above = λ r. r; upper_above = λ r. r }

to_lower_runs : to_lower ascii_tables (codes "READ-me.MD") ≡ codes "read-me.md"
unfolding to_lower
to_lower_runs = refl

superscript_runs : runes (b'M' ∷ 0xc2 ∷ 0xb9 ∷ []) ≡ b'M' ∷ 0xb9 ∷ []
unfolding runes
superscript_runs = refl

valid_utf8_runs : valid_utf8 (0xc0 ∷ 0x80 ∷ []) ≡ false
unfolding valid_utf8
valid_utf8_runs = refl
