-- ===== src/Archive/Scan/Limits.antt =====
-- What a successful scan says of the stream.
use ocidoc_go.Base.{
  ok_inj, ◌≡◌, refl, sym, subst, ◌∙◌, true, ◌+◌, ℕ, suc, zero, Option, none, some, List, [], ◌∷◌,
  Text, length, Result, ok, err, ◌>>=◌, through, arith, ℤ, pos, negsuc, ◌≤ℤ◌, ◌+ℤ◌, ◌-ℤ◌, +ℤ_parts,
  -ℤ_parts,
}
use ocidoc_go.Unicode.{CaseTables}
use ocidoc_go.Spec.Errors.{ValidationError}
use ocidoc_go.Spec.BundlePath.{validate_bundle_path}
use ocidoc_go.Archive.{
  bad_name, header_error, cancelled, ExtractOptions, Info, TarEntry, TarEnd, tail, ArchiveError,
  apply_extract_defaults, sanitize_extract_path, drain,
}
use ocidoc_go.Archive.Scan.{
  ScanEntry, read_content, scan_content, scan_sized, scan_entry, scan_from, scan, in_tail,
}

abbrev pub sum_sizes : List ScanEntry → ℤ
sum_sizes [] = pos 0
sum_sizes (e ∷ es) = e.size +ℤ sum_sizes es

-- The summary of a scan that began behind `count` entries of `total` bytes.
pub record IsSummary (opts : ExtractOptions) (count : ℕ) (total : ℤ) (ss : List ScanEntry)
    (info : Info) : Type 0 where
  pub file_count : info.file_count ≡ count + length ss
  pub read : (total +ℤ sum_sizes ss) ≤ℤ info.uncompressed_size
  pub within : info.uncompressed_size ≤ℤ opts.max_total_size

module _ {F : Type 0} (u : CaseTables) (sha256_hex : Text → Text) (opts : ExtractOptions) where
  -- An accepted entry, with `count` entries of `total` bytes before it.
  pub record IsScanned (e : TarEntry F) (count : ℕ) (total : ℤ) (s : ScanEntry) : Type 0 where
    pub regular : e.is_regular ≡ true
    pub valid : validate_bundle_path u e.name ≡ none
    pub name : s.name ≡ e.name
    pub size : s.size ≡ e.size
    pub not_negative : pos 0 ≤ℤ e.size
    pub counted : pos (suc count) ≤ℤ opts.max_files
    pub file_fits : e.size ≤ℤ opts.max_file_size
    pub total_fits : (total +ℤ e.size) ≤ℤ opts.max_total_size
    pub complete : e.size ≤ℤ pos (length e.content)

  scan_content-ok :
      (name : Text) (e : TarEntry F) (size total : ℤ) (s : ScanEntry)
      → scan_content u sha256_hex opts name e size total ≡ ok s
      → (s.name ≡ name)
        × (s.size ≡ size)
        × (pos 0 ≤ℤ size)
        × ((total +ℤ size) ≤ℤ opts.max_total_size)
        × (size ≤ℤ pos (length e.content))
  unfolding scan_content read_content
  scan_content-ok name e (negsuc n) total s h = cc
  scan_content-ok name e (pos n) total s h =
      ground (arith, +ℤ_parts total (pos n), -ℤ_parts opts.max_total_size (pos n))

  pub sanitize-ok :
      (name name' : Text)
      → sanitize_extract_path {F = F} u name ≡ ok name'
      → (validate_bundle_path u name ≡ none) × (name' ≡ name)
  unfolding sanitize_extract_path
  sanitize-ok name name' h = go (validate_bundle_path u name) refl h
    where
      go :
          (o : Option ValidationError)
          → validate_bundle_path u name ≡ o
          → ◌≡◌ {A = Result (ArchiveError F) Text}
              (elim o [ some e ↦ err (bad_name name e) | none ↦ ok name ])
              (ok name')
          → (validate_bundle_path u name ≡ none) × (name' ≡ name)
      go none e h = (e, cc)
      go (some x) e h = cc

  scan_sized-ok :
      (e : TarEntry F) (count : ℕ) (total : ℤ) (name : Text) (s : ScanEntry)
      → scan_sized u sha256_hex opts e count total name ≡ ok s
      → (pos (suc count) ≤ℤ opts.max_files)
        × (e.size ≤ℤ opts.max_file_size)
        × (scan_content u sha256_hex opts name e e.size total ≡ ok s)
  unfolding scan_sized
  scan_sized-ok e count total name s h = ground arith

  regular-ok :
      (e : TarEntry F) (count : ℕ) (total : ℤ) (s : ScanEntry)
      → scan_entry u sha256_hex opts e count total ≡ ok s
      → (e.is_regular ≡ true)
        × ((sanitize_extract_path u e.name >>= scan_sized u sha256_hex opts e count total) ≡ ok s)
  unfolding scan_entry
  regular-ok e count total s h = ground arith

  scan_entry-IsScanned :
      (e : TarEntry F) (count : ℕ) (total : ℤ) (s : ScanEntry)
      → scan_entry u sha256_hex opts e count total ≡ ok s
      → IsScanned e count total s
  scan_entry-IsScanned e count total s h =
      let (regular, h1) = regular-ok e count total s h in
      let (name, h2, h3) =
        through (scan_sized u sha256_hex opts e count total) s (sanitize_extract_path u e.name)
          h1 in
      let (valid, same) = sanitize-ok e.name name h2 in
      let (counted, file_fits, h4) = scan_sized-ok e count total name s h3 in
      let (named, sized, positive, total_fits, complete) =
        scan_content-ok name e e.size total s h4 in
      record {
        regular = regular;
        valid = valid;
        name = named ∙ same;
        size = sized;
        not_negative = positive;
        counted = counted;
        file_fits = file_fits;
        total_fits = total_fits;
        complete = complete;
      }

  -- Every entry was accepted in its place.
  abbrev pub AllScanned : List (TarEntry F) → List ScanEntry → ℕ → ℤ → Type 0
  AllScanned [] [] count total = Unit
  AllScanned [] (s ∷ ss) count total = ⊥
  AllScanned (e ∷ es) [] count total = ⊥
  AllScanned (e ∷ es) (s ∷ ss) count total =
      IsScanned e count total s × AllScanned es ss (suc count) (total +ℤ e.size)

  drain-le :
      (limit already drained more : ℤ) (ns : List ℕ) (end : Option F)
      → drain limit already drained ns end ≡ ok more
      → (already +ℤ drained) ≤ℤ limit
      → (drained ≤ℤ more) × ((already +ℤ more) ≤ℤ limit)
  unfolding drain
  drain-le limit already drained more [] none h fits =
      subst (λ m. (drained ≤ℤ m) × ((already +ℤ m) ≤ℤ limit)) (ok_inj h) (omega arith, fits)
  drain-le limit already drained more [] (some f) h fits = cc
  drain-le limit already drained more (zero ∷ ns) end h fits =
      drain-le limit already drained more ns end h fits
  drain-le limit already drained more (suc n ∷ ns) end h fits =
      let (room, h1) = within h in
      let (grows, below) = drain-le limit already (drained +ℤ pos (suc n)) more ns end h1 (
        omega (
          arith,
          room,
          -ℤ_parts (limit -ℤ already) drained,
          -ℤ_parts limit already,
          +ℤ_parts drained (pos (suc n)),
          +ℤ_parts already (drained +ℤ pos (suc n)),
        )) in
      (omega (arith, grows, +ℤ_parts drained (pos (suc n))), below)
    where
      within :
          drain limit already drained (suc n ∷ ns) end ≡ ok more
          → (pos (suc n) ≤ℤ (limit -ℤ already -ℤ drained))
            × (drain limit already (drained +ℤ pos (suc n)) ns end ≡ ok more)
      within h = ground arith

  scan_from-ok :
      (es : List (TarEntry F)) (end : TarEnd F) (count : ℕ) (total : ℤ) (ss : List ScanEntry)
      (info : Info)
      → scan_from u sha256_hex opts count total es end ≡ ok (ss, info)
      → total ≤ℤ opts.max_total_size
      → AllScanned es ss count total × IsSummary opts count total ss info
  unfolding scan_from
  scan_from-ok [] (header_error f) count total ss info h fits = cc
  scan_from-ok [] (cancelled f) count total ss info h fits = cc
  scan_from-ok [] (tail ns end) count total ss info h fits =
      let (more, drained, same) =
        through (λ more. ok ([], record { file_count = count; uncompressed_size = total +ℤ more }))
          (ss, info) (in_tail (drain opts.max_total_size total (pos 0) ns end)) h in
      let (grows, below) =
        drain-le opts.max_total_size total (pos 0) more ns end
          (drained_ok (drain opts.max_total_size total (pos 0) ns end) more drained)
          (omega (arith, fits, +ℤ_parts total (pos 0))) in
      subst
        (λ (x : List ScanEntry × Info).
          AllScanned [] x.0 count total × IsSummary opts count total x.0 x.1)
        (ok_inj same)
        (
          tt,
          record {
            file_count = omega arith;
            read = omega (arith, grows, +ℤ_parts total (pos 0), +ℤ_parts total more);
            within = below;
          },
        )
    where
      drained_ok : (r : Result (ArchiveError F) ℤ) (more : ℤ) → in_tail r ≡ ok more → r ≡ ok more
      drained_ok (ok n) more e = e
      drained_ok (err x) more e = cc
  scan_from-ok (e ∷ es) end count total ss info h fits =
      let (s, scanned, h1) =
        through
          (λ s. scan_from u sha256_hex opts (suc count) (total +ℤ s.size) es end >>= λ rest.
            ok (s ∷ rest.0, rest.1))
          (ss, info) (scan_entry u sha256_hex opts e count total) h in
      let (rest, found, same) =
        through (λ rest. ok (s ∷ rest.0, rest.1)) (ss, info)
          (scan_from u sha256_hex opts (suc count) (total +ℤ s.size) es end) h1 in
      let it : IsScanned e count total s = scan_entry-IsScanned e count total s scanned in
      let step : (total +ℤ s.size) ≤ℤ opts.max_total_size =
        subst (λ z. (total +ℤ z) ≤ℤ opts.max_total_size) (sym it.size) it.total_fits in
      let (all, summary) =
        scan_from-ok es end (suc count) (total +ℤ s.size) rest.0 rest.1 found step in
      subst
        (λ (x : List ScanEntry × Info).
          AllScanned (e ∷ es) x.0 count total × IsSummary opts count total x.0 x.1)
        (ok_inj same)
        (
          (it, subst (λ z. AllScanned es rest.0 (suc count) (total +ℤ z)) it.size all),
          record {
            file_count = omega (arith, summary.file_count);
            read = omega (
              arith,
              summary.read,
              +ℤ_parts total s.size,
              +ℤ_parts (total +ℤ s.size) (sum_sizes rest.0),
              +ℤ_parts total (s.size +ℤ sum_sizes rest.0),
              +ℤ_parts s.size (sum_sizes rest.0),
            );
            within = summary.within;
          },
        )

-- If a scan whose total limit is not negative succeeds, then with the default limits filled in: each
-- entry is a regular file with a valid name and its full content, its position is within the file limit,
-- its size within the file size limit, and the running total within the total limit; the results are the
-- entries in order; the summary counts them, and its size covers them and is within the total limit.
pub scan-AllScanned :
    {F : Type 0} (u : CaseTables) (sha256_hex : Text → Text) (opts : ExtractOptions)
    (es : List (TarEntry F)) (end : TarEnd F) (ss : List ScanEntry) (info : Info)
    → pos 0 ≤ℤ (apply_extract_defaults opts).max_total_size
    → scan u sha256_hex opts es end ≡ ok (ss, info)
    → AllScanned u sha256_hex (apply_extract_defaults opts) es ss 0 (pos 0)
      × IsSummary (apply_extract_defaults opts) 0 (pos 0) ss info
unfolding scan
scan-AllScanned u sha256_hex opts es end ss info fits h =
    scan_from-ok u sha256_hex (apply_extract_defaults opts) es end 0 (pos 0) ss info h fits
