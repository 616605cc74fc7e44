-- ===== src/Store/Verify/Valid.antt =====
-- What a verification that finds nothing says of the store.
use mathlib.Core.Bool.{false≢true}
use ocidoc_go.Base.{
  ◌≡◌, ◌⊎◌, inl, inr, refl, sym, ap, subst, ◌∙◌, Bool, true, false, ◌&&◌, Option, none, some, List,
  [], ◌∷◌, map, any, any-text_eq_iff, is_empty, Text, text_eq, Result, ok, err, ok_inj, In, All,
  All_at, All-of, length, Bool-cases, arith,
}
use ocidoc_go.Oci.{Descriptor}
use ocidoc_go.Store.{Disk, DocumentRecord, CatalogFile, StoreError, Foreign, read_index}
use ocidoc_go.Store.Catalog.{load_catalog}
use ocidoc_go.Store.Remove.{has_record}
use ocidoc_go.Store.Verify.{
  Repair, Verification, Checker, Progress, is_missing, add_issue, add_issues, usable_catalog,
  note_record, note_sound, note_close, note_verified, visit_root, visit_roots, visit_records,
  checked_store, saved, verified, with_index, verify_store, open_issue, document_issue,
  missing_root,
}

add_issues-valid :
    {F : Type 0} (root : Text) (ms : List Text) (p : Progress F)
    → (add_issues root ms p).report.valid ≡ (is_empty ms && p.report.valid)
unfolding add_issues add_issue
add_issues-valid root [] p = refl
add_issues-valid root (m ∷ ms) p =
    ground (arith, add_issues-valid root ms (add_issue (document_issue root m) p))

module _ {F : Type 0} (check : Checker F) where
  -- The verifier gives a reason with each refusal.
  abbrev pub GivesReasons : Type 0
  GivesReasons =
      (root : Descriptor) (ms : List Text)
      → check.verify_document root ≡ ok (false, ms)
      → is_empty ms ≡ false

module _ {F : Type 0} (check : Checker F) (cat : CatalogFile) where
  -- A document that opens, is accepted, closes, and has a record.
  pub record IsSound (root : Descriptor) : Type 0 where
    pub opens : check.open_document root ≡ none
    pub messages : List Text
    pub accepted : check.verify_document root ≡ ok (true, messages)
    pub closes : check.close_document root ≡ none
    pub recorded : has_record root.digest cat.documents ≡ true

  sound-valid :
      (root : Descriptor) (p : Progress F)
      → (note_sound check false cat root p).report.valid ≡ true
      → (p.report.valid ≡ true)
        × (has_record root.digest cat.documents ≡ true)
        × ((note_sound check false cat root p).seen ≡ root.digest ∷ p.seen)
  unfolding note_sound note_record add_issue
  sound-valid root p h = ground arith

  closed-valid :
      (root : Text) (o : Option F) (p : Progress F)
      → (note_close check false cat root o p).report.valid ≡ true
      → (o ≡ none) × (p.report.valid ≡ true) × ((note_close check false cat root o p).seen ≡ p.seen)
  unfolding note_close add_issue
  closed-valid root none p h = (refl, h, refl)
  closed-valid root (some f) p h = cc

  -- What a step that leaves the report valid says.
  abbrev Passed : Descriptor → Progress F → Progress F → Type 0
  Passed root p p' = (p.report.valid ≡ true) × IsSound root × (p'.seen ≡ root.digest ∷ p.seen)

  verified-valid :
      (root : Descriptor) (r : Result F (Bool × List Text)) (p : Progress F)
      → GivesReasons check
      → check.open_document root ≡ none
      → check.verify_document root ≡ r
      → (note_verified check false cat root r p).report.valid ≡ true
      → Passed root p (note_verified check false cat root r p)
  unfolding note_verified add_issue
  verified-valid root (err f) p reasons opens e h = cc
  verified-valid root (ok (false, ms)) p reasons opens e h = absurd (
      false≢true (
        sym (
          ap
            (λ b.
              b
              && (note_close check false cat root.digest (check.close_document root)
                  p).report.valid)
            (reasons root ms e))
        ∙ sym (
            add_issues-valid root.digest ms
              (note_close check false cat root.digest (check.close_document root) p))
        ∙ h))
  verified-valid root (ok (true, ms)) p reasons opens e h =
      let (valid, recorded, seen) =
        sound-valid root (note_close check false cat root.digest (check.close_document root) p) h in
      let (closes, before, same) = closed-valid root.digest (check.close_document root) p valid in
      (
        before,
        record { opens = opens; messages = ms; accepted = e; closes = closes; recorded = recorded },
        seen ∙ ap (λ s. root.digest ∷ s) same,
      )

  visit-valid :
      (root : Descriptor) (p : Progress F)
      → GivesReasons check
      → (visit_root check false cat root p).report.valid ≡ true
      → Passed root p (visit_root check false cat root p)
  unfolding visit_root add_issue
  visit-valid root p reasons h = go (check.open_document root) refl h
    where
      go :
          (o : Option F)
          → check.open_document root ≡ o
          → (elim o as (λ _. Progress F) [
            | some f ↦ add_issue (open_issue root.digest f) p
            | none ↦ note_verified check false cat root (check.verify_document root) p
          ]).report.valid
            ≡ true
          → Passed root p (elim o as (λ _. Progress F) [
            | some f ↦ add_issue (open_issue root.digest f) p
            | none ↦ note_verified check false cat root (check.verify_document root) p
          ])
      go none e h = verified-valid root (check.verify_document root) p reasons e refl h
      go (some f) e h = cc

  roots-valid :
      (roots : List Descriptor) (p : Progress F)
      → GivesReasons check
      → (visit_roots check false cat roots p).report.valid ≡ true
      → (p.report.valid ≡ true)
        × All IsSound roots
        × ((k : Text)
            → In k (visit_roots check false cat roots p).seen
            → In k (map (λ r. r.digest) roots) ⊎ In k p.seen)
  unfolding visit_roots
  roots-valid [] p reasons h = (h, tt, λ k m. inr m)
  roots-valid (root ∷ roots) p reasons h =
      let (valid, all, seen) = roots-valid roots (visit_root check false cat root p) reasons h in
      let (before, sound, same) = visit-valid root p reasons valid in
      (
        before,
        (sound, all),
        λ k m. elim (seen k m) [
          | inl i ↦ inl (inr i)
          | inr i ↦ elim (subst (In k) same i) [ inl e ↦ inl (inl e) | inr j ↦ inr j ]
        ],
      )

  records-valid :
      (docs : List (Text × DocumentRecord)) (p : Progress F)
      → (visit_records check false cat docs p).report.valid ≡ true
      → (p.report.valid ≡ true) × All (λ e. In e.0 p.seen) docs
  unfolding visit_records add_issue
  records-valid [] p h = (h, tt)
  records-valid ((k, x) ∷ rest) p h = elim (Bool-cases (any (text_eq k) p.seen)) [
    | inl e ↦
        let (valid, all) = records-valid rest p (ground (arith, e)) in
        (valid, ((any-text_eq_iff k p.seen).0 e, all))
    | inr n ↦
        let (valid, all) = records-valid rest (add_issue (missing_root k) p) (ground (arith, n)) in
        absurd (false≢true valid)
  ]

  -- The records are of documents in the index.
  checked-valid :
      (roots : List Descriptor) (repaired : List Repair)
      → GivesReasons check
      → (checked_store check false cat roots repaired).report.valid ≡ true
      → All IsSound roots × All (λ e. In e.0 (map (λ r. r.digest) roots)) cat.documents
  unfolding checked_store
  checked-valid roots repaired reasons h =
      let start : Progress F = record {
        report = record {
          issues = [];
          repaired = repaired;
          documents = length roots;
          valid = true;
        };
        seen = [];
        rebuilt = [];
      } in
      let (valid, known) =
        records-valid cat.documents (visit_roots check false cat roots start) h in
      let (_, all, seen) = roots-valid roots start reasons valid in
      (
        all,
        All-of (λ e. In e.0 (map (λ r. r.digest) roots)) cat.documents
            (λ e m.
              elim (seen e.0 (
                All_at (λ e. In e.0 (visit_roots check false cat roots start).seen) cat.documents
                  known m)) [ inl i ↦ i | inr never ↦ absurd never ]),
      )

module _ {F : Type 0} (lib : Foreign F) (check : Checker F) (disk : Disk) where
  -- The catalog and the index agree on documents that are all sound.
  pub record IsConsistent : Type 0 where
    pub roots : List Descriptor
    pub catalog : CatalogFile
    pub indexed : read_index lib disk ≡ ok roots
    pub loads : load_catalog lib disk ≡ ok catalog
    pub sound : All (IsSound check catalog) roots
    pub known : All (λ e. In e.0 (map (λ r. r.digest) roots)) catalog.documents

  loaded-valid :
      (roots : List Descriptor) (c : Result (StoreError F) CatalogFile) (disk' : Disk)
      (v : Verification F)
      → GivesReasons check
      → read_index lib disk ≡ ok roots
      → load_catalog lib disk ≡ c
      → verified lib check false disk roots (usable_catalog false (is_missing disk.catalog) c)
        ≡ (disk', ok v)
      → v.valid ≡ true
      → (disk' ≡ disk) × IsConsistent
  unfolding saved
  loaded-valid roots (err e) disk' v reasons i l h valid = cc
  loaded-valid roots (ok cat) disk' v reasons i l h valid =
      let same : (checked_store check false cat roots []).report ≡ v =
        ok_inj (ap (λ (x : Disk × Result (StoreError F) (Verification F)). x.1) h) in
      let (sound, known) =
        checked-valid check cat roots [] reasons
          (ap (λ (v : Verification F). v.valid) same ∙ valid) in
      (
        sym (ap (λ (x : Disk × Result (StoreError F) (Verification F)). x.0) h),
        record {
          roots = roots;
          catalog = cat;
          indexed = i;
          loads = l;
          sound = sound;
          known = known;
        },
      )

  -- If the verifier gives a reason with each refusal, and a verification without repair answers that
  -- the store is valid, then it changed no file, every document of the index opens, is accepted, closes
  -- and has a record in the catalog, and every record is of a document in the index.
  pub verify_store-IsConsistent :
      (disk' : Disk) (v : Verification F)
      → GivesReasons check
      → verify_store lib check false disk ≡ (disk', ok v)
      → v.valid ≡ true
      → (disk' ≡ disk) × IsConsistent
  unfolding verify_store
  verify_store-IsConsistent disk' v reasons h valid = go (read_index lib disk) refl h
    where
      go :
          (r : Result (StoreError F) (List Descriptor))
          → read_index lib disk ≡ r
          → with_index lib check false disk r ≡ (disk', ok v)
          → (disk' ≡ disk) × IsConsistent
      go (err e) i h = cc
      go (ok roots) i h = loaded-valid roots (load_catalog lib disk) disk' v reasons i refl h valid
