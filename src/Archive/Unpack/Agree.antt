-- ===== src/Archive/Unpack/Agree.antt =====
-- internal/archive: what an extraction accepts, against what a scan of the same stream accepts.
use ocidoc_go.Base.{
  ◌≡◌, refl, sym, ap, ◌∙◌, Bool, true, false, ℕ, suc, Option, none, some, List, [], ◌∷◌, Text,
  Result, ok, err, All, arith, ℤ, pos, ◌≤ℤ◌,
}
use ocidoc_go.Unicode.{CaseTables}
use ocidoc_go.GoPath.{join_paths}
use ocidoc_go.Archive.{ExtractOptions, Info, TarEntry, TarEnd, ArchiveError, apply_extract_defaults}
use ocidoc_go.Archive.Scan.{ScanEntry, scan_from, scan}
use ocidoc_go.Archive.Extract.{
  FileSystem, FsError, ExtractError, make_directories, copied, extract_file, is_within_root,
  archive_error,
}
use ocidoc_go.Archive.Unpack.{
  check_entry, for_entry, for_destination, go_on, write_entry, extract_from, extract,
}
use ocidoc_go.Archive.Unpack.Entries.{
  extract_file_complete, copied-complete, scan_entry_complete, scan_from-step, ended,
}

-- The sizes of the headers.
abbrev pub NoneNegative : {F : Type 0} → List (TarEntry F) → Type 0
NoneNegative es = All (λ e. pos 0 ≤ℤ e.size) es

module _ {S : Type 0} {F : Type 0} where
  gone_on :
      (r : S × Option (ExtractError F)) (f : S → S × Result (ExtractError F) Info) (last : S)
      (info : Info)
      → go_on r f ≡ (last, ok info)
      → (st : S) × (r ≡ (st, none)) × (f st ≡ (last, ok info))
  gone_on (st, none) f last info h = (st, refl, h)
  gone_on (st, some x) f last info h = cc

  for_entry-done :
      (name : Text) (r : S × Option (FsError F)) (last : S)
      → for_entry name r ≡ (last, none)
      → r ≡ (last, none)
  for_entry-done name (st, none) last h = ap (λ (x : S × Option (ExtractError F)). (x.0, none)) h
  for_entry-done name (st, some x) last h = cc

module _ {S F : Type 0} (fs : FileSystem S F) (u : CaseTables) (sha256_hex : Text → Text)
    (opts : ExtractOptions) (root : Text) where
  write_entry_complete :
      (st next : S) (e : TarEntry F)
      → write_entry fs u opts root st e ≡ (next, none)
      → (copied e).1 ≡ false
  unfolding write_entry
  write_entry_complete st next e h =
      extract_file_complete fs st (join_paths root e.name) e opts.overwrite next (
        for_entry-done e.name (extract_file fs st (join_paths root e.name) e opts.overwrite) next
          (inside (is_within_root root (join_paths root e.name)) refl))
    where
      inside :
          (b : Bool)
          → is_within_root root (join_paths root e.name) ≡ b
          → for_entry e.name (extract_file fs st (join_paths root e.name) e opts.overwrite)
            ≡ (next, none)
      inside true it = ground (arith, it, h)
      inside false it = ground (arith, it, h)

  extract_from_complete :
      (es : List (TarEntry F)) (end : TarEnd F) (st last : S) (count : ℕ) (total : ℤ) (info : Info)
      → NoneNegative es
      → extract_from fs u opts root st count total es end ≡ (last, ok info)
      → (ss : List ScanEntry) × (scan_from u sha256_hex opts count total es end ≡ ok (ss, info))
  unfolding extract_from scan_from
  extract_from_complete [] end st last count total info sizes h = (
    [],
    ended u sha256_hex opts count total end info
        (ap (λ (x : S × Result (ExtractError F) Info). x.1) h),
  )
  extract_from_complete (e ∷ es) end st last count total info sizes h =
      go (check_entry u opts e count total) refl h
        (λ st' total'. extract_from_complete es end st' last (suc count) total' info sizes.1)
    where
      go :
          (r : Result (ArchiveError F) ℤ)
          → check_entry u opts e count total ≡ r
          → ◌≡◌ {A = S × Result (ExtractError F) Info}
              (elim r [
                | err x ↦ (st, err (archive_error x))
                | ok total' ↦
                    go_on
                      (write_entry fs u opts root st e)
                      (λ st'. extract_from fs u opts root st' (suc count) total' es end)
              ])
              (last, ok info)
          → ((st' : S) (total' : ℤ)
              → extract_from fs u opts root st' (suc count) total' es end ≡ (last, ok info)
              → (ss : List ScanEntry) × (scan_from u sha256_hex opts (suc count) total' es end
                  ≡ ok (ss, info)))
          → (ss : List ScanEntry) × (scan_from u sha256_hex opts count total (e ∷ es) end
              ≡ ok (ss, info))
      go (err x) checked h again = cc
      go (ok total') checked h again =
          let (st', written, h1) =
            gone_on (write_entry fs u opts root st e)
              (λ st'. extract_from fs u opts root st' (suc count) total' es end) last info h in
          let full = copied-complete e sizes.0 (write_entry_complete st st' e written) in
          let (s, scanned, same) =
            scan_entry_complete u sha256_hex opts e count total total' sizes.0 full checked in
          let (ss, rest) = again st' total' h1 in
          (
            s ∷ ss,
            scan_from-step u sha256_hex opts e es end count total s (ss, info) scanned
                (ap (λ z. scan_from u sha256_hex opts (suc count) z es end) (sym same) ∙ rest),
          )

-- If an extraction succeeds on a stream in which no header has a negative size, then a scan of the
-- same stream with the same options succeeds, with the same summary.
pub extract-scan :
    {S F : Type 0} (fs : FileSystem S F) (u : CaseTables) (sha256_hex : Text → Text)
    (opts : ExtractOptions) (root : Text) (st last : S) (es : List (TarEntry F)) (end : TarEnd F)
    (info : Info)
    → NoneNegative es
    → extract fs u opts root st es end ≡ (last, ok info)
    → (ss : List ScanEntry) × (scan u sha256_hex opts es end ≡ ok (ss, info))
unfolding extract scan
extract-scan fs u sha256_hex opts root st last es end info sizes h =
    let (st', made, h1) =
      gone_on (for_destination (make_directories fs st root))
        (λ st'. extract_from fs u (apply_extract_defaults opts) root st' 0 (pos 0) es end) last info
        h in
    extract_from_complete fs u sha256_hex (apply_extract_defaults opts) root es end st' last 0
      (pos 0) info sizes h1
