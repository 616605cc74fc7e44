-- ===== src/Spec/Settings.antt =====
-- spec/settings.go, the build settings of spec/config.go and the media types of spec/mediatypes.go.
use ocidoc_go.Base.{
  ℕ, Bool, false, Option, none, some, [], if◌then◌else◌, Text, codes, is_empty, text_eq, Result, ok,
  err, ℤ, pos, above,
}
use ocidoc_go.Spec.Errors.{unsupported_compression, unsupported_type, ValidationError}

pub record CompressionSettings : Type 0 where
  pub type : Text
  pub level : Option ℤ

pub record BuildSettings : Type 0 where
  pub strict : Option Bool
  pub compression : Option CompressionSettings

pub record EffectiveCompression : Type 0 where
  pub type : Text
  pub level : ℤ

pub record EffectiveSettings : Type 0 where
  pub compression : EffectiveCompression
  pub strict : Bool

abbrev pub gzip : Text
gzip = codes "gzip"

abbrev pub zstd : Text
zstd = codes "zstd"

abbrev pub max_gzip_level : ℕ
max_gzip_level = 9

abbrev pub max_zstd_level : ℕ
max_zstd_level = 19

abbrev pub component_layer_gzip : Text
component_layer_gzip = codes "application/vnd.ocidoc.documentation.component.v1beta.tar+gzip"

abbrev pub component_layer_zstd : Text
component_layer_zstd = codes "application/vnd.ocidoc.documentation.component.v1beta.tar+zstd"

-- `CompressionType.MediaType`
unfoldable pub media_type : Text → Result ValidationError Text
media_type c =
    if text_eq c gzip
    then ok component_layer_gzip
    else if text_eq c zstd
    then ok component_layer_zstd
    else err (record {
      code = unsupported_compression;
      component = [];
      path = [];
      annotation = [];
      locale = [];
      message = unsupported_type c;
    })

-- The defaults of `ResolveSettings`: not strict, gzip at level 6.
abbrev pub default_settings : EffectiveSettings
default_settings = record { compression = record { type = gzip; level = pos 6 }; strict = false }

unfoldable pub effective_type : Text → Text
effective_type t = if is_empty t then gzip else t

-- The `switch` that lowers a level to the maximum of its compressor.
unfoldable pub cap_level : Text → ℤ → ℤ
cap_level t level =
    if text_eq t gzip
    then (if above level max_gzip_level then pos max_gzip_level else level)
    else if text_eq t zstd
    then (if above level max_zstd_level then pos max_zstd_level else level)
    else level

-- What `ResolveSettings` makes of the compression section.
unfoldable pub resolve_compression : Option CompressionSettings → EffectiveCompression
unfolding effective_type cap_level
resolve_compression none = record { type = gzip; level = pos 6 }
resolve_compression (some c) =
    let t = effective_type c.type in
    record { type = t; level = cap_level t (elim c.level [ none ↦ pos 6 | some l ↦ l ]) }

unfoldable pub resolve_settings : Option BuildSettings → EffectiveSettings
unfolding resolve_compression
resolve_settings none = default_settings
resolve_settings (some s) = record {
  compression = resolve_compression s.compression;
  strict = elim s.strict [ none ↦ false | some b ↦ b ];
}
