-- ===== src/Archive/Tests.antt =====
-- internal/archive: runs on concrete streams.
use ocidoc_go.Base.{
  ◌≡◌, refl, arith, true, false, none, some, List, [], ◌∷◌, Text, codes, ok, All, pos, split,
  contains_byte, has_prefix, text_eq, has_suffix, before, trim_prefix, ◌+ℤ◌, ◌-ℤ◌, has_prefix, join,
}
use ocidoc_go.Unicode.{ascii_tables, runes, valid_utf8, to_upper}
use ocidoc_go.GoPath.{
  join_paths, clean, elements, clean_from, clean_step, is_abs, rel, rel_elements,
}
use ocidoc_go.GoPath.Clean.{IsNormal}
use ocidoc_go.Archive.{ExtractOptions, Info, TarEntry, TarEnd, tail, apply_extract_defaults}
use ocidoc_go.Archive.Scan.{
  ScanEntry, scan, scan_from, scan_entry, scan_sized, scan_content, read_content, first_bytes,
}
use ocidoc_go.Archive.Scan.Limits.{AllScanned, IsSummary, scan-AllScanned}
use ocidoc_go.Archive.Extract.{
  FileSystem, escapes, is_within_root, make_directories, extract_file, finish_file, copied,
  ensure_safe_target, ensure_directory_path, check_components, check_component, path_prefixes,
  climb, path_of, without_first, dir,
}
use ocidoc_go.Archive.Unpack.{
  extract, extract_from, check_entry, check_limits, write_entry, end_of_stream, for_entry,
}
use ocidoc_go.Archive.Unpack.Agree.{extract-scan}
use ocidoc_go.Archive.Unpack.Within.{IsConfined, write_entry-IsConfined, write_entry-sanitized}
use ocidoc_go.Spec.BundlePath.{
  is_unportable, is_drive_path, is_listed, is_port_suffix, is_reserved_windows_name,
  validate_segment, validate_segments, validate_bundle_path,
}
use ocidoc_go.Archive.{or_default, sanitize_extract_path, drain}
use ocidoc_go.Oci.{int_eq}

-- A file system that has nothing and takes everything: it keeps the paths that were opened.
abbrev empty_disk : FileSystem (List Text) Text
empty_disk = record {
  lstat = λ st p. ok none;
  mkdir_all = λ st p. (st, none);
  open_file = λ st p overwrite. (p ∷ st, none);
  write = λ st p content. (st, none);
  close = λ st p. (st, none);
  remove = λ st p. st;
}

abbrev options : ExtractOptions
options = record {
  max_files = pos 0;
  max_total_size = pos 8;
  max_file_size = pos 0;
  compute_digest = false;
  overwrite = false;
}

abbrev entry : Text → TarEntry Text
entry name = record {
  is_regular = true;
  name = name;
  size = pos 2;
  content = codes "hi";
  broken = none;
}

abbrev stream : List (TarEntry Text)
stream = entry (codes "a.md") ∷ []

abbrev stream_end : TarEnd Text
stream_end = tail (3 ∷ 0 ∷ 2 ∷ []) none

abbrev found : List ScanEntry
found = record { name = codes "a.md"; digest = []; size = pos 2 } ∷ []

abbrev summary : Info
summary = record { file_count = 1; uncompressed_size = pos 7 }

scanned : scan ascii_tables (λ content. content) options stream stream_end ≡ ok (found, summary)
unfolding scan scan_from scan_entry scan_sized scan_content read_content first_bytes
    apply_extract_defaults or_default sanitize_extract_path drain ◌+ℤ◌ ◌-ℤ◌ int_eq
    validate_bundle_path validate_segments validate_segment is_drive_path is_unportable
    is_reserved_windows_name is_listed is_port_suffix valid_utf8 contains_byte has_prefix split
    text_eq has_suffix runes before to_upper trim_prefix
scanned = refl

scan-AllScanned_example :
    AllScanned ascii_tables
      (λ content. content)
      (apply_extract_defaults options)
      stream
      found
      0
      (pos 0)
    × IsSummary (apply_extract_defaults options) 0 (pos 0) found summary
unfolding apply_extract_defaults or_default int_eq
scan-AllScanned_example =
    scan-AllScanned ascii_tables (λ content. content) options stream stream_end found summary
      (omega arith) scanned

extracted :
    extract empty_disk ascii_tables options (codes "/out") [] stream stream_end
    ≡ (codes "/out/a.md" ∷ [], ok summary)
unfolding extract extract_from check_entry check_limits write_entry end_of_stream make_directories
    extract_file finish_file copied ensure_safe_target ensure_directory_path check_components
    check_component path_prefixes climb path_of without_first dir is_within_root first_bytes
    apply_extract_defaults or_default sanitize_extract_path drain ◌+ℤ◌ ◌-ℤ◌ int_eq join_paths clean
    elements clean_from clean_step is_abs rel rel_elements join validate_bundle_path
    validate_segments validate_segment is_drive_path is_unportable is_reserved_windows_name
    is_listed is_port_suffix valid_utf8 contains_byte has_prefix split text_eq has_suffix runes
    before to_upper trim_prefix
extracted = refl

extract-scan_example :
    (ss : List ScanEntry) × (scan ascii_tables (λ content. content) options stream stream_end
      ≡ ok (ss, summary))
extract-scan_example =
    extract-scan empty_disk ascii_tables (λ content. content) options (codes "/out") []
      (codes "/out/a.md" ∷ []) stream stream_end summary (omega arith, tt) extracted

destination_parts : All IsNormal (split b'/' (codes "var/out"))
unfolding split text_eq
destination_parts = (
  record { not_empty = refl; not_dot = refl; not_dot_dot = refl },
  (record { not_empty = refl; not_dot = refl; not_dot_dot = refl }, tt),
)

name_sanitized : sanitize_extract_path {F = Text} ascii_tables (codes "a.md") ≡ ok (codes "a.md")
unfolding sanitize_extract_path validate_bundle_path validate_segments validate_segment
    is_drive_path is_unportable is_reserved_windows_name is_listed is_port_suffix valid_utf8
    contains_byte has_prefix split text_eq has_suffix runes before to_upper trim_prefix
name_sanitized = refl

write_entry-sanitized_example :
    (codes "a.md" ≡ codes "a.md")
    × (write_entry empty_disk ascii_tables options (codes "/var/out") [] (entry (codes "a.md"))
        ≡ for_entry
            (codes "a.md")
            (extract_file empty_disk [] (codes "/var/out/a.md") (entry (codes "a.md")) false))
write_entry-sanitized_example =
    write_entry-sanitized empty_disk ascii_tables options [] (entry (codes "a.md"))
      (codes "var/out") (codes "a.md") destination_parts name_sanitized

escapes_above :
    write_entry empty_disk ascii_tables options (codes "/out") [] (entry (codes "../outer/x"))
    ≡ ([], some (escapes (codes "../outer/x")))
unfolding write_entry is_within_root has_prefix text_eq join_paths clean elements clean_from
    clean_step is_abs rel rel_elements join split
escapes_above = refl

destination_is_abs : is_abs (codes "/out") ≡ true
unfolding is_abs has_prefix
destination_is_abs = refl

write_entry-IsConfined_example :
    IsConfined empty_disk ascii_tables options []
      (entry (codes "../outer/x"))
      (codes "/out")
      (write_entry empty_disk ascii_tables options (codes "/out") [] (entry (codes "../outer/x")))
write_entry-IsConfined_example =
    write_entry-IsConfined empty_disk ascii_tables options [] (entry (codes "../outer/x"))
      (codes "/out") destination_is_abs
