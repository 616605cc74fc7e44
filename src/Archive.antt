-- ===== src/Archive.antt =====
-- internal/archive: reading tar streams under limits. archive/tar is another package: a stream is
-- what its reader gives, entry by entry, and the bytes that are left behind the last one.
pub mod Scan
pub mod Extract
pub mod Unpack
mod Tests
use ocidoc_go.Base.{
  Bool, true, false, ℕ, zero, suc, Option, none, some, List, [], ◌∷◌, if◌then◌else◌, Text, is_empty,
  length, Result, ok, err, ◌>>=◌, ℤ, pos, ltz, ◌+ℤ◌, ◌-ℤ◌,
}
use ocidoc_go.Unicode.{CaseTables}
use ocidoc_go.Spec.Errors.{ValidationError}
use ocidoc_go.Spec.BundlePath.{validate_bundle_path}
use ocidoc_go.Oci.{int_eq}

pub record ExtractOptions : Type 0 where
  pub max_files : ℤ
  pub max_total_size : ℤ
  pub max_file_size : ℤ
  pub compute_digest : Bool
  pub overwrite : Bool

pub record Info : Type 0 where
  pub file_count : ℕ
  pub uncompressed_size : ℤ

-- A tar entry: its header, the bytes that can be read of it, and the error that reading them meets.
pub record TarEntry (F : Type 0) : Type 0 where
  pub is_regular : Bool
  pub name : Text
  pub size : ℤ
  pub content : Text
  pub broken : Option F

-- How the entries end: with an error of the tar reader or of the context, or with the end of the
-- archive and then reads of so many bytes each, up to the end of the stream or an error.
pub data TarEnd (F : Type 0) : Type 0 where
  header_error : F → TarEnd F
  cancelled : F → TarEnd F
  tail : List ℕ → Option F → TarEnd F

pub data ArchiveError (F : Type 0) : Type 0 where
  read_header : F → ArchiveError F
  context_done : F → ArchiveError F
  read_tail : ArchiveError F → ArchiveError F
  tail_error : F → ArchiveError F
  not_regular : Text → ArchiveError F
  bad_name : Text → ValidationError → ArchiveError F
  too_many_files : ℤ → ArchiveError F
  file_too_large : Text → ℤ → ArchiveError F
  total_too_large : ℤ → ArchiveError F
  read_entry : Text → F → ArchiveError F
  short_entry : Text → ℕ → ℤ → ArchiveError F

-- `DefaultMaxFiles`, `DefaultMaxTotalSize` and `DefaultMaxFileSize`.
abbrev pub default_max_files : ℕ
default_max_files = 100000

abbrev pub default_max_total_size : ℕ
default_max_total_size = 4294967296

abbrev pub default_max_file_size : ℕ
default_max_file_size = 1073741824

unfoldable pub or_default : ℤ → ℕ → ℤ
or_default limit n = if int_eq limit (pos 0) then pos n else limit

unfoldable pub apply_extract_defaults : ExtractOptions → ExtractOptions
apply_extract_defaults opts = record opts {
  max_files = or_default opts.max_files default_max_files;
  max_total_size = or_default opts.max_total_size default_max_total_size;
  max_file_size = or_default opts.max_file_size default_max_file_size;
}

module _ {F : Type 0} where
  unfoldable pub sanitize_extract_path : CaseTables → Text → Result (ArchiveError F) Text
  sanitize_extract_path u name = elim (validate_bundle_path u name) [
    | some e ↦ err (bad_name name e)
    | none ↦ ok name
  ]

  -- The reads behind the end of the archive. An empty read goes on.
  unfoldable pub drain : ℤ → ℤ → ℤ → List ℕ → Option F → Result (ArchiveError F) ℤ
  drain limit already drained [] none = ok drained
  drain limit already drained [] (some f) = err (tail_error f)
  drain limit already drained (zero ∷ ns) end = drain limit already drained ns end
  drain limit already drained (suc n ∷ ns) end =
      let rest = drain limit already (drained +ℤ pos (suc n)) ns end in
      if ltz (limit -ℤ already -ℤ drained) (pos (suc n)) then err (total_too_large limit) else rest
