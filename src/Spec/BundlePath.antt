-- ===== src/Spec/BundlePath.antt =====
-- spec/validate.go: `ValidateBundlePath` and the names that Windows reserves.
pub mod Safety
pub mod Reserved
use ocidoc_go.Base.{
  ℕ, Bool, true, false, ◌&&◌, ◌||◌, Option, none, some, List, [], ◌∷◌, ltb, leb, ◌==◌,
  if◌then◌else◌, Text, codes, any, is_empty, ◌⨾◌, fail_if, text_eq, has_prefix, has_suffix,
  trim_prefix, contains_byte, before, split, not,
}
use ocidoc_go.Unicode.{CaseTables, runes, valid_utf8, to_upper}
use ocidoc_go.Spec.Errors.{
  invalid_path, Message, empty_path, not_utf8, nul_byte, backslash, absolute, drive_letter,
  empty_segment, dot_segment, dot_dot_segment, segment_ends, not_portable, reserved_name,
  ValidationError,
}

-- `reservedWindowsNames`
abbrev pub reserved_windows_names : List Text
reserved_windows_names =
    codes "CON"
    ∷ codes "PRN"
    ∷ codes "AUX"
    ∷ codes "NUL"
    ∷ codes "COM1"
    ∷ codes "COM2"
    ∷ codes "COM3"
    ∷ codes "COM4"
    ∷ codes "COM5"
    ∷ codes "COM6"
    ∷ codes "COM7"
    ∷ codes "COM8"
    ∷ codes "COM9"
    ∷ codes "LPT1"
    ∷ codes "LPT2"
    ∷ codes "LPT3"
    ∷ codes "LPT4"
    ∷ codes "LPT5"
    ∷ codes "LPT6"
    ∷ codes "LPT7"
    ∷ codes "LPT8"
    ∷ codes "LPT9"
    ∷ []

-- The digits of a port, with the superscript digits in UTF-8.
abbrev pub port_suffixes : List Text
port_suffixes =
    codes "1"
    ∷ codes "2"
    ∷ codes "3"
    ∷ codes "4"
    ∷ codes "5"
    ∷ codes "6"
    ∷ codes "7"
    ∷ codes "8"
    ∷ codes "9"
    ∷ (0xc2 ∷ 0xb9 ∷ [])
    ∷ (0xc2 ∷ 0xb2 ∷ [])
    ∷ (0xc2 ∷ 0xb3 ∷ [])
    ∷ []

-- The lookup in `reservedWindowsNames`.
unfoldable pub is_listed : Text → Bool
is_listed base = any (text_eq base) reserved_windows_names

-- The `switch` over the suffix.
unfoldable pub is_port_suffix : Text → Bool
is_port_suffix suffix = any (text_eq suffix) port_suffixes

unfoldable pub is_reserved_windows_name : Text → Bool
is_reserved_windows_name base =
    if is_listed base
    then true
    else if not (has_prefix base (codes "COM")) && not (has_prefix base (codes "LPT"))
    then false
    else is_port_suffix (trim_prefix (trim_prefix base (codes "COM")) (codes "LPT"))

-- `driveLetterPattern`, `^[A-Za-z]:`
unfoldable pub is_drive_path : Text → Bool
is_drive_path (c ∷ d ∷ _) =
    ((leb b'A' c && leb c b'Z') || (leb b'a' c && leb c b'z')) && (d == b':')
is_drive_path _ = false

-- The set of `strings.ContainsRune` in the loop over a segment's runes.
abbrev pub unportable_set : Text
unportable_set = codes "< > : \" | ? *"

unfoldable pub is_unportable : ℕ → Bool
is_unportable r = ltb r 0x20 || (r == 0x7f || any (λ c. c == r) unportable_set)

abbrev pub path_error : Text → Message → ValidationError
path_error p m = record {
  code = invalid_path;
  component = [];
  path = p;
  annotation = [];
  locale = [];
  message = m;
}

module _ (u : CaseTables) where
  -- The body of the loop over the segments.
  unfoldable pub validate_segment : Text → Text → Option ValidationError
  validate_segment p seg =
      fail_if (is_empty seg) (path_error p empty_segment)
      ⨾ fail_if (text_eq seg (codes ".")) (path_error p dot_segment)
      ⨾ fail_if (text_eq seg (codes "..")) (path_error p dot_dot_segment)
      ⨾ fail_if
          (has_suffix seg (codes ".") || (has_suffix seg (codes " ") || has_prefix seg (codes " ")))
          (path_error p segment_ends)
      ⨾ fail_if (any is_unportable (runes seg)) (path_error p (not_portable seg))
      ⨾ (let base = to_upper u (before b'.' seg) in
          fail_if (is_reserved_windows_name base) (path_error p (reserved_name base)))

  unfoldable pub validate_segments : Text → List Text → Option ValidationError
  validate_segments p [] = none
  validate_segments p (seg ∷ segs) = validate_segment p seg ⨾ validate_segments p segs

  unfoldable pub validate_bundle_path : Text → Option ValidationError
  validate_bundle_path p =
      fail_if (is_empty p) (path_error p empty_path)
      ⨾ fail_if (not (valid_utf8 p)) (path_error p not_utf8)
      ⨾ fail_if (contains_byte 0 p) (path_error p nul_byte)
      ⨾ fail_if (contains_byte b'\\' p) (path_error p backslash)
      ⨾ fail_if (has_prefix p (codes "/")) (path_error p absolute)
      ⨾ fail_if (is_drive_path p) (path_error p drive_letter)
      ⨾ validate_segments p (split b'/' p)
