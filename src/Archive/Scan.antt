-- ===== src/Archive/Scan.antt =====
-- internal/archive/scan.go: a tar stream is read and checked, and nothing is written.
pub mod Limits
use ocidoc_go.Base.{
  Bool, true, false, not, ◌||◌, ℕ, zero, suc, ◌-◌, Option, none, some, List, [], ◌∷◌, ◌++◌,
  if◌then◌else◌, Text, codes, length, ltb, leb, Result, ok, err, ◌>>=◌, ℤ, pos, negsuc, is_negative,
  ltz, ◌+ℤ◌, ◌-ℤ◌,
}
use ocidoc_go.Unicode.{CaseTables}
use ocidoc_go.Oci.{int_eq}
use ocidoc_go.Archive.{
  ExtractOptions, Info, TarEntry, TarEnd, header_error, cancelled, tail, ArchiveError, read_header,
  context_done, read_tail, not_regular, too_many_files, file_too_large, total_too_large, read_entry,
  short_entry, apply_extract_defaults, sanitize_extract_path, drain,
}

pub record ScanEntry : Type 0 where
  pub name : Text
  pub digest : Text
  pub size : ℤ

-- The first `n` bytes.
unfoldable pub first_bytes : ℕ → Text → Text
first_bytes zero s = []
first_bytes (suc n) [] = []
first_bytes (suc n) (c ∷ s) = c ∷ first_bytes n s

-- `fmt.Errorf` around the error of `drain`.
abbrev pub in_tail :
    {F : Type 0} {A : Type 0} → Result (ArchiveError F) A → Result (ArchiveError F) A
in_tail (ok a) = ok a
in_tail (err e) = err (read_tail e)

module _ {F : Type 0} where
  -- The copy of an entry of that many bytes through `io.LimitReader`: an error of the reader is met
  -- only if the content ends before.
  unfoldable pub read_content : TarEntry F → ℕ → Result (ArchiveError F) Text
  read_content e n =
      if leb n (length e.content) then ok (first_bytes n e.content) else elim e.broken [
        | some f ↦ err (read_entry e.name f)
        | none ↦ err (short_entry e.name (length e.content) (pos n))
      ]

-- `entry.Digest`
abbrev pub digest_for : (Text → Text) → ExtractOptions → Text → Text
digest_for sha256_hex opts content =
    if opts.compute_digest then codes "sha256:" ++ sha256_hex content else []

module _ {F : Type 0} (u : CaseTables) (sha256_hex : Text → Text) (opts : ExtractOptions) where
  -- The entry, if its bytes fit; no entry of a negative size is read.
  unfoldable pub scan_content : Text → TarEntry F → ℤ → ℤ → Result (ArchiveError F) ScanEntry
  scan_content name e (negsuc n) total = err (total_too_large opts.max_total_size)
  scan_content name e (pos n) total =
      if ltz (opts.max_total_size -ℤ pos n) total
      then err (total_too_large opts.max_total_size)
      else (do
        content ← read_content e n
        ok (record { name = name; digest = digest_for sha256_hex opts content; size = pos n }))

  -- The checks of an entry with a valid name, behind `count` entries of `total` bytes.
  unfoldable pub scan_sized : TarEntry F → ℕ → ℤ → Text → Result (ArchiveError F) ScanEntry
  scan_sized e count total name =
      if not (ltz (pos count) opts.max_files)
      then err (too_many_files opts.max_files)
      else if ltz opts.max_file_size e.size
      then err (file_too_large e.name opts.max_file_size)
      else scan_content name e e.size total

  unfoldable pub scan_entry : TarEntry F → ℕ → ℤ → Result (ArchiveError F) ScanEntry
  scan_entry e count total =
      if not e.is_regular
      then err (not_regular e.name)
      else sanitize_extract_path u e.name >>= scan_sized e count total

  -- The loop; the entries found so far are counted and summed.
  unfoldable pub scan_from :
      ℕ → ℤ → List (TarEntry F) → TarEnd F → Result (ArchiveError F) (List ScanEntry × Info)
  scan_from count total [] (header_error f) = err (read_header f)
  scan_from count total [] (cancelled f) = err (context_done f)
  scan_from count total [] (tail ns end) = do
    more ← in_tail (drain opts.max_total_size total (pos 0) ns end)
    ok ([], record { file_count = count; uncompressed_size = total +ℤ more })
  scan_from count total (e ∷ es) end = do
    entry ← scan_entry e count total
    rest ← scan_from (suc count) (total +ℤ entry.size) es end
    ok (entry ∷ rest.0, rest.1)

unfoldable pub scan :
    {F : Type 0}
    → CaseTables
    → (Text → Text)
    → ExtractOptions
    → List (TarEntry F)
    → TarEnd F
    → Result (ArchiveError F) (List ScanEntry × Info)
scan u sha256_hex opts es end =
    scan_from u sha256_hex (apply_extract_defaults opts) 0 (pos 0) es end
