-- ===== src/Archive/Unpack/Entries.antt =====
-- internal/archive: an entry that is extracted, and the end of a stream, under a scan.
use ocidoc_go.Base.{
  ◌≡◌, refl, sym, ap, ◌∙◌, Bool, true, false, ℕ, suc, Option, none, some, List, [], ◌∷◌, Text,
  Result, ok, err, ◌>>=◌, ok_inj, through, arith, if◌then◌else◌, ℤ, pos, negsuc, ◌≤ℤ◌, ◌+ℤ◌,
  +ℤ_parts, -ℤ_parts, length,
}
use ocidoc_go.Unicode.{CaseTables}
use ocidoc_go.Archive.{
  ExtractOptions, Info, TarEntry, TarEnd, header_error, cancelled, tail, ArchiveError,
  sanitize_extract_path, drain,
}
use ocidoc_go.Archive.Scan.{
  ScanEntry, read_content, digest_for, first_bytes, scan_content, scan_sized, scan_entry, scan_from,
  in_tail,
}
use ocidoc_go.Archive.Extract.{
  FileSystem, FsError, ExtractError, ◌then◌, wrap, check, make_directories, copied, finish_file,
  dir, extract_file, ensure_safe_target, create_file,
}
use ocidoc_go.Archive.Unpack.{check_limits, check_entry, end_of_stream, from_archive}

module _ {S F : Type 0} (fs : FileSystem S F) where
  then-done :
      (r : S × Option (FsError F)) (f : S → S × Option (FsError F)) (last : S)
      → (r then f) ≡ (last, none)
      → (middle : S) × (f middle ≡ (last, none))
  then-done (st, none) f last h = (st, h)
  then-done (st, some x) f last h = cc

  finished :
      (target : Text) (e : TarEntry F) (r : S × Option F) (last : S)
      → finish_file fs target e r ≡ (last, none)
      → (copied e).1 ≡ false
  unfolding finish_file
  finished target e (st, none) last h = ground arith
  finished target e (st, some f) last h = cc

  pub extract_file_complete :
      (st : S) (target : Text) (e : TarEntry F) (overwrite : Bool) (last : S)
      → extract_file fs st target e overwrite ≡ (last, none)
      → (copied e).1 ≡ false
  unfolding extract_file
  extract_file_complete st target e overwrite last h =
      let (opened, done) =
        then-done
          (make_directories fs st (dir target)
            then (λ st. check (ensure_safe_target target overwrite (fs.lstat st target)) st)
            then (λ st. wrap create_file (fs.open_file st target overwrite)))
          (λ st. finish_file fs target e (fs.write st target (copied e).0)) last h in
      finished target e (fs.write opened target (copied e).0) last done

pub copied-complete :
    {F : Type 0} (e : TarEntry F)
    → pos 0 ≤ℤ e.size
    → (copied e).1 ≡ false
    → e.size ≤ℤ pos (length e.content)
unfolding copied
copied-complete e positive h = ground arith

module _ {F : Type 0} (u : CaseTables) (sha256_hex : Text → Text) (opts : ExtractOptions) where
  regular-checked :
      (e : TarEntry F) (count : ℕ) (total total' : ℤ)
      → check_entry u opts e count total ≡ ok total'
      → (e.is_regular ≡ true)
        × ((sanitize_extract_path u e.name >>= check_limits u opts e count total) ≡ ok total')
  unfolding check_entry
  regular-checked e count total total' h = ground arith

  -- What `check_limits` lets pass.
  abbrev Passes : TarEntry F → ℕ → ℤ → ℤ → Type 0
  Passes e count total total' =
      (pos (suc count) ≤ℤ opts.max_files)
      × (e.size ≤ℤ opts.max_file_size)
      × ((total +ℤ e.size) ≤ℤ opts.max_total_size)
      × (total' ≡ total +ℤ e.size)

  check_limits-Passes :
      (e : TarEntry F) (count : ℕ) (total total' : ℤ) (name : Text)
      → check_limits u opts e count total name ≡ ok total'
      → Passes e count total total'
  unfolding check_limits
  check_limits-Passes e count total total' name h = ground arith

  scan_content_complete :
      (name : Text) (e : TarEntry F) (size total : ℤ)
      → pos 0 ≤ℤ size
      → (total +ℤ size) ≤ℤ opts.max_total_size
      → size ≤ℤ pos (length e.content)
      → (s : ScanEntry) × (s.size ≡ size)
        × (scan_content u sha256_hex opts name e size total ≡ ok s)
  unfolding scan_content read_content
  scan_content_complete name e (negsuc n) total positive fits full = absurd (omega arith)
  scan_content_complete name e (pos n) total positive fits full = (
    record {
      name = name;
      digest = digest_for sha256_hex opts (first_bytes n e.content);
      size = pos n;
    },
    refl,
    ground (arith, +ℤ_parts total (pos n), -ℤ_parts opts.max_total_size (pos n)),
  )

  scan_sized_complete :
      (e : TarEntry F) (count : ℕ) (total total' : ℤ) (name : Text) (s : ScanEntry)
      → Passes e count total total'
      → scan_content u sha256_hex opts name e e.size total ≡ ok s
      → scan_sized u sha256_hex opts e count total name ≡ ok s
  unfolding scan_sized
  scan_sized_complete e count total total' name s passes h = ground arith

  scan_entry-of :
      (e : TarEntry F) (count : ℕ) (total : ℤ) (name : Text) (s : ScanEntry)
      → e.is_regular ≡ true
      → sanitize_extract_path {F = F} u e.name ≡ ok name
      → scan_sized u sha256_hex opts e count total name ≡ ok s
      → scan_entry u sha256_hex opts e count total ≡ ok s
  unfolding scan_entry
  scan_entry-of e count total name s regular named h = simp (regular, named, h)

  pub scan_entry_complete :
      (e : TarEntry F) (count : ℕ) (total total' : ℤ)
      → pos 0 ≤ℤ e.size
      → e.size ≤ℤ pos (length e.content)
      → check_entry u opts e count total ≡ ok total'
      → (s : ScanEntry) × (scan_entry u sha256_hex opts e count total ≡ ok s)
        × (total' ≡ total +ℤ s.size)
  scan_entry_complete e count total total' positive full h =
      let (regular, h1) = regular-checked e count total total' h in
      let (name, named, h2) =
        through (check_limits u opts e count total) total' (sanitize_extract_path u e.name) h1 in
      let passes : Passes e count total total' = check_limits-Passes e count total total' name h2 in
      let (counted, small, fits, same) = passes in
      let (s, sized, h3) = scan_content_complete name e e.size total positive fits full in
      (
        s,
        scan_entry-of e count total name s regular named
            (scan_sized_complete e count total total' name s passes h3),
        same ∙ ap (λ z. total +ℤ z) (sym sized),
      )

  pub scan_from-step :
      (e : TarEntry F) (es : List (TarEntry F)) (end : TarEnd F) (count : ℕ) (total : ℤ)
      (s : ScanEntry) (rest : List ScanEntry × Info)
      → scan_entry u sha256_hex opts e count total ≡ ok s
      → scan_from u sha256_hex opts (suc count) (total +ℤ s.size) es end ≡ ok rest
      → scan_from u sha256_hex opts count total (e ∷ es) end ≡ ok (s ∷ rest.0, rest.1)
  unfolding scan_from
  scan_from-step e es end count total s rest h h1 = simp (h, h1)

  pub ended :
      (count : ℕ) (total : ℤ) (end : TarEnd F) (info : Info)
      → from_archive (end_of_stream opts count total end) ≡ ok info
      → scan_from u sha256_hex opts count total [] end ≡ ok ([], info)
  unfolding end_of_stream scan_from
  ended count total (header_error f) info h = cc
  ended count total (cancelled f) info h = cc
  ended count total (tail ns end) info h = go (drain opts.max_total_size total (pos 0) ns end) h
    where
      go :
          (r : Result (ArchiveError F) ℤ)
          → ◌≡◌ {A = Result (ExtractError F) Info}
              (from_archive (
                in_tail r >>= λ more.
                ok (record { file_count = count; uncompressed_size = total +ℤ more })))
              (ok info)
          → ◌≡◌ {A = Result (ArchiveError F) (List ScanEntry × Info)}
              (in_tail r >>= λ more.
                ok ([], record { file_count = count; uncompressed_size = total +ℤ more }))
              (ok ([], info))
      go (ok more) h = ap (λ i. ok ([], i)) (ok_inj h)
      go (err x) h = cc
