-- ===== src/Archive/Unpack.antt =====
-- internal/archive/extract.go: `ExtractContext`, the loop over the entries.
pub mod Within
pub mod Entries
pub mod Agree
use ocidoc_go.Base.{
  Bool, true, false, not, ℕ, suc, Option, none, some, List, [], ◌∷◌, if◌then◌else◌, Text, Result,
  ok, err, ◌>>=◌, ℤ, pos, ltz, ◌+ℤ◌,
}
use ocidoc_go.GoPath.{join_paths}
use ocidoc_go.Unicode.{CaseTables}
use ocidoc_go.Archive.{
  ExtractOptions, Info, TarEntry, TarEnd, header_error, cancelled, tail, ArchiveError, read_header,
  context_done, not_regular, too_many_files, file_too_large, total_too_large,
  apply_extract_defaults, sanitize_extract_path, drain,
}
use ocidoc_go.Archive.Scan.{in_tail}
use ocidoc_go.Archive.Extract.{
  FileSystem, FsError, ExtractError, destination, archive_error, escapes, entry_failed,
  is_within_root, make_directories, extract_file,
}

module _ {F : Type 0} (u : CaseTables) (opts : ExtractOptions) where
  -- The checks of a valid name's entry, behind `count` entries of `total` bytes: the new total.
  unfoldable pub check_limits : TarEntry F → ℕ → ℤ → Text → Result (ArchiveError F) ℤ
  check_limits e count total name =
      if ltz opts.max_files (pos (suc count))
      then err (too_many_files opts.max_files)
      else if ltz opts.max_file_size e.size
      then err (file_too_large e.name opts.max_file_size)
      else if ltz opts.max_total_size (total +ℤ e.size)
      then err (total_too_large opts.max_total_size)
      else ok (total +ℤ e.size)

  unfoldable pub check_entry : TarEntry F → ℕ → ℤ → Result (ArchiveError F) ℤ
  check_entry e count total =
      if not e.is_regular
      then err (not_regular e.name)
      else sanitize_extract_path u e.name >>= check_limits e count total

-- What is behind the last entry.
unfoldable pub end_of_stream :
    {F : Type 0} → ExtractOptions → ℕ → ℤ → TarEnd F → Result (ArchiveError F) Info
end_of_stream opts count total (header_error f) = err (read_header f)
end_of_stream opts count total (cancelled f) = err (context_done f)
end_of_stream opts count total (tail ns end) = do
  more ← in_tail (drain opts.max_total_size total (pos 0) ns end)
  ok (record { file_count = count; uncompressed_size = total +ℤ more })

abbrev pub from_archive :
    {F : Type 0} {A : Type 0} → Result (ArchiveError F) A → Result (ExtractError F) A
from_archive (ok a) = ok a
from_archive (err e) = err (archive_error e)

module _ {S : Type 0} {F : Type 0} where
  abbrev pub for_entry : Text → S × Option (FsError F) → S × Option (ExtractError F)
  for_entry name (st, none) = (st, none)
  for_entry name (st, some x) = (st, some (entry_failed name x))

  abbrev pub for_destination : S × Option (FsError F) → S × Option (ExtractError F)
  for_destination (st, none) = (st, none)
  for_destination (st, some x) = (st, some (destination x))

  -- `if err != nil { return Info{}, err }` behind a call that changes the file system.
  abbrev pub go_on :
      S × Option (ExtractError F)
      → (S → S × Result (ExtractError F) Info)
      → S × Result (ExtractError F) Info
  go_on (st, none) f = f st
  go_on (st, some x) f = (st, err x)

module _ {S F : Type 0} (fs : FileSystem S F) (u : CaseTables) (opts : ExtractOptions)
    (root : Text) where
  -- One checked entry is written.
  unfoldable pub write_entry : S → TarEntry F → S × Option (ExtractError F)
  write_entry st e =
      if not (is_within_root root (join_paths root e.name))
      then (st, some (escapes e.name))
      else for_entry e.name (extract_file fs st (join_paths root e.name) e opts.overwrite)

  unfoldable pub extract_from :
      S → ℕ → ℤ → List (TarEntry F) → TarEnd F → S × Result (ExtractError F) Info
  extract_from st count total [] end = (st, from_archive (end_of_stream opts count total end))
  extract_from st count total (e ∷ es) end = elim (check_entry u opts e count total) [
    | err x ↦ (st, err (archive_error x))
    | ok total' ↦ go_on (write_entry st e) (λ st'. extract_from st' (suc count) total' es end)
  ]

-- `root` is `filepath.Abs(destDir)`.
unfoldable pub extract :
    {S : Type 0} {F : Type 0}
    → FileSystem S F
    → CaseTables
    → ExtractOptions
    → Text
    → S
    → List (TarEntry F)
    → TarEnd F
    → S × Result (ExtractError F) Info
extract fs u opts root st es end =
    go_on (for_destination (make_directories fs st root))
      (λ st'. extract_from fs u (apply_extract_defaults opts) root st' 0 (pos 0) es end)
