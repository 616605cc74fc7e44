-- ===== src/Spec/Configs/Levels.antt =====
-- The compression that a checked build config asks for.
use ocidoc_go.Base.{
  ◌≡◌, ◌⊎◌, refl, true, false, Option, none, some, Text, text_eq, text_eq_iff, text_eq_self,
  is_empty, [], ◌∷◌, if◌then◌else◌, inl, inr, Result-cases, ⨾-eq-none, ok, err, ℤ, pos, negsuc,
  is_negative, Within, arith, Result,
}
use ocidoc_go.Spec.Errors.{ValidationError}
use ocidoc_go.Spec.Settings.{
  CompressionSettings, gzip, zstd, max_gzip_level, max_zstd_level, media_type, resolve_compression,
  resolve_settings, effective_type, cap_level,
}
use ocidoc_go.Spec.Configs.{BuildConfig, validate_compression, validate_build_config}

-- A compression that an encoder supports.
abbrev pub IsSupported : Text → ℤ → Type 0
IsSupported t level =
    ((t ≡ gzip) × Within max_gzip_level level) ⊎ ((t ≡ zstd) × Within max_zstd_level level)

level-IsSupported :
    (t : Text) (l : ℤ)
    → is_negative l ≡ false
    → ((text_eq t gzip ≡ true) ⊎ (text_eq t zstd ≡ true))
    → IsSupported t (cap_level t l)
unfolding cap_level
level-IsSupported t (negsuc n) h k = cc
level-IsSupported t (pos n) h k = ground (arith, text_eq_iff t gzip, text_eq_iff t zstd)

media_type-text_eq :
    (t : Text) (m : Text) → media_type t ≡ ok m → (text_eq t gzip ≡ true) ⊎ (text_eq t zstd ≡ true)
unfolding media_type
media_type-text_eq t m h = ground arith

type_supported :
    (t : Text)
    → (if is_empty t then none else elim (media_type t) [ ok m ↦ none | err e ↦ some e ]) ≡ none
    → (text_eq (effective_type t) gzip ≡ true) ⊎ (text_eq (effective_type t) zstd ≡ true)
unfolding effective_type
type_supported [] h = inl (text_eq_self gzip)
type_supported (c ∷ t) h = elim (Result-cases (media_type (c ∷ t))) [
  | inl (m, e) ↦ media_type-text_eq (c ∷ t) m e
  | inr (x, e) ↦ absurd (failed x (media_type (c ∷ t)) e h)
]
  where
    failed :
        (x : ValidationError) (r : Result ValidationError Text)
        → r ≡ err x
        → elim r [ ok m ↦ none | err e ↦ some e ] ≡ none
        → ⊥
    failed x r e h = ground arith

type_checked :
    (c : CompressionSettings)
    → validate_compression (some c) ≡ none
    → (if is_empty c.type then none else elim (media_type c.type) [ ok m ↦ none | err e ↦ some e ])
      ≡ none
unfolding validate_compression
type_checked c h = ((⨾-eq-none (type_check c) _).0 h).0
  where
    type_check : CompressionSettings → Option ValidationError
    type_check c =
        if is_empty c.type then none else elim (media_type c.type) [ ok m ↦ none | err e ↦ some e ]

level_checked :
    (c : CompressionSettings)
    → validate_compression (some c) ≡ none
    → is_negative (elim c.level [ none ↦ pos 6 | some l ↦ l ]) ≡ false
unfolding validate_compression
level_checked c h = ground arith

compression-IsSupported :
    (o : Option CompressionSettings)
    → validate_compression o ≡ none
    → IsSupported (resolve_compression o).type (resolve_compression o).level
unfolding resolve_compression
compression-IsSupported none h = inl (refl, omega arith)
compression-IsSupported (some c) h =
    level-IsSupported (effective_type c.type) (elim c.level [ none ↦ pos 6 | some l ↦ l ])
      (level_checked c h) (type_supported c.type (type_checked c h))

checked_compression :
    (cfg : BuildConfig)
    → validate_build_config (some cfg) ≡ none
    → validate_compression cfg.settings.compression ≡ none
unfolding validate_build_config
checked_compression cfg h = ground arith

-- After a build config has been accepted, its resolved compression is gzip at a level from 0 to 9,
-- or zstd at a level from 0 to 19.
pub resolved-IsSupported :
    (cfg : BuildConfig)
    → validate_build_config (some cfg) ≡ none
    → IsSupported
        (resolve_settings (some cfg.settings)).compression.type
        (resolve_settings (some cfg.settings)).compression.level
unfolding resolve_settings
resolved-IsSupported cfg h =
    compression-IsSupported cfg.settings.compression (checked_compression cfg h)
