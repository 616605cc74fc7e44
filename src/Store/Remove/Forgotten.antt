-- ===== src/Store/Remove/Forgotten.antt =====
-- What a removal forgets, and what it keeps.
use ocidoc_go.Base.{
  ◌≡◌, refl, sym, ap, subst, ◌∙◌, false, Option, none, some, List, [], ◌∷◌, Text, text_eq,
  text_eq_iff, text_eq_self, not, ◌&&◌, Result, ok, err, ◌>>=◌, ok_inj, through, In, inl, inr,
  Bool-cases, arith, length, ltb,
}
use ocidoc_go.Oci.{Digests, Descriptor}
use ocidoc_go.OciBlob.{BlobError, validate_digest}
use ocidoc_go.Store.{
  Disk, DocumentRecord, CatalogFile, StoreError, Foreign, read_index, max_store_metadata_size,
}
use ocidoc_go.Store.Catalog.{record_at, load_catalog, load_catalog_file, save_catalog}
use ocidoc_go.Store.Catalog.Recorded.{load_catalog-written, load_catalog-1, save_catalog-eq-ok}
use ocidoc_go.Store.Remove.{
  RemoveError, invalid_manifest, has_record, without_record, forget, from_store, find_root,
  root_descriptor, looked_up, saved_without, forgotten, remove_root, remove,
}

record_at-without_record :
    (k j : Text) (docs : List (Text × DocumentRecord))
    → text_eq k j ≡ false
    → record_at j (without_record k docs) ≡ record_at j docs
unfolding record_at without_record
record_at-without_record k j [] apart = refl
record_at-without_record k j ((l, x) ∷ rest) apart = ground (
  arith,
  record_at-without_record k j rest apart,
  text_eq_iff l k,
  text_eq_iff l j,
  text_eq_iff k j,
)

has_record-without_record :
    (k j : Text) (docs : List (Text × DocumentRecord))
    → has_record j (without_record k docs) ≡ (not (text_eq k j) && has_record j docs)
unfolding has_record without_record
has_record-without_record k j [] = ground arith
has_record-without_record k j ((l, x) ∷ rest) =
    ground
      (arith, has_record-without_record k j rest, text_eq_iff l k, text_eq_iff l j, text_eq_iff k j)

-- The records but the one of `k`: it is not there, and the others are as before, or as absent.
pub record IsWithout (k : Text) (before after : List (Text × DocumentRecord)) : Type 0 where
  pub absent : has_record k after ≡ false
  pub others :
      (j : Text)
      → text_eq k j ≡ false
      → (record_at j after ≡ record_at j before) × (has_record j after ≡ has_record j before)

without_record-IsWithout :
    (k : Text) (docs : List (Text × DocumentRecord)) → IsWithout k docs (without_record k docs)
without_record-IsWithout k docs = record {
  absent = rw (has_record-without_record k k docs, text_eq_self k) refl;
  others = λ j apart. (
    record_at-without_record k j docs apart,
    rw (has_record-without_record k j docs, apart) refl,
  );
}

module _ {F : Type 0} where
  stored : {A : Type 0} (r : Result (StoreError F) A) (a : A) → from_store r ≡ ok a → r ≡ ok a
  stored (ok b) a h = ap ok (ok_inj h)
  stored (err e) a h = cc

  find_root-In :
      (k : Text) (roots : List Descriptor) (root : Descriptor)
      → find_root {F = F} k roots ≡ ok root
      → In root roots × (root.digest ≡ k)
  find_root-In k [] root h = cc
  find_root-In k (r ∷ roots) root h = elim (Bool-cases (text_eq r.digest k)) [
    | inl e ↦
        let same : r ≡ root = ground (arith, e) in
        (
          inl (sym same),
          ap (λ (r : Descriptor). r.digest) (sym same) ∙ (text_eq_iff r.digest k).0 e,
        )
    | inr n ↦ let (m, e) = find_root-In k roots root (ground (arith, n)) in (inr m, e)
  ]

module _ {F : Type 0} (lib : Foreign F) (d : Digests)
    (delete_root : Disk → Descriptor → Disk × Option F) (k : Text) (disk : Disk)
    (cat : CatalogFile) where
  -- What holds behind a successful removal.
  pub record Forgets (disk' : Disk) : Type 0 where
    pub root : Descriptor
    pub roots : List Descriptor
    pub indexed : read_index lib disk ≡ ok roots
    pub was_root : In root roots × (root.digest ≡ k)
    pub deleted : (delete_root disk root).1 ≡ none
    pub catalog : CatalogFile
    pub loads : load_catalog lib disk' ≡ ok catalog
    pub records : IsWithout k cat.documents catalog.documents

  -- The catalog without the record, if it can be marshalled, is read as it was written.
  abbrev pub ReadsBack : Type 0
  ReadsBack =
      (bytes : Text)
      → lib.print_catalog (forget k cat) ≡ ok bytes
      → (lib.parse_catalog bytes ≡ some (forget k cat))
        × (ltb max_store_metadata_size (length bytes) ≡ false)

  load_catalog-same :
      (disk' : Disk) → disk'.catalog ≡ disk.catalog → load_catalog lib disk' ≡ load_catalog lib disk
  unfolding load_catalog
  load_catalog-same disk' e = ap (load_catalog_file lib) e

  looked_up-ok :
      (root : Descriptor) (cat' : CatalogFile)
      → looked_up lib k disk ≡ ok (root, cat')
      → ((roots : List Descriptor) × (read_index lib disk ≡ ok roots)
          × (In root roots × (root.digest ≡ k)))
        × (load_catalog lib disk ≡ ok cat')
  unfolding looked_up root_descriptor
  looked_up-ok root cat' h =
      let (root', found, h1) =
        through (λ root. from_store (load_catalog lib disk) >>= λ cat. ok (root, cat)) (root, cat')
          (root_descriptor lib k disk) h in
      let (cat'', loaded, same) =
        through (λ cat. ok (root', cat)) (root, cat') (from_store (load_catalog lib disk)) h1 in
      let (roots, indexed, here) =
        through (find_root k) root' (from_store (read_index lib disk)) found in
      let pair = ok_inj same in
      (
        (
          roots,
          stored (read_index lib disk) roots indexed,
          subst (λ r. In r roots × (r.digest ≡ k)) (ap (λ (p : Descriptor × CatalogFile). p.0) pair)
              (find_root-In {F = F} k roots root' here),
        ),
        stored (load_catalog lib disk) cat' (
            subst (λ c. from_store (load_catalog lib disk) ≡ ok c)
              (ap (λ (p : Descriptor × CatalogFile). p.1) pair) loaded),
      )

  saved_without-eq-none :
      (r : Result (StoreError F) Disk) (deleted disk' : Disk)
      → saved_without k deleted r ≡ (disk', none)
      → r ≡ ok disk'
  saved_without-eq-none (ok x) deleted disk' h =
      ap (λ (p : Disk × Option (RemoveError F)). ok p.0) h
  saved_without-eq-none (err e) deleted disk' h = cc

  -- The two ways behind the deletion.
  behind-deletion :
      (after : Disk × Option F) (disk' : Disk)
      → after.0.catalog ≡ disk.catalog
      → load_catalog lib disk ≡ ok cat
      → ReadsBack
      → forgotten lib k cat after ≡ (disk', none)
      → (after.1 ≡ none)
        × ((cat' : CatalogFile) × (load_catalog lib disk' ≡ ok cat')
            × IsWithout k cat.documents cat'.documents)
  unfolding forgotten
  behind-deletion (deleted, some f) disk' kept loaded readable h = cc
  behind-deletion (deleted, none) disk' kept loaded readable h =
      elim (Bool-cases (has_record k cat.documents)) [
        | inl e ↦
            let (bytes, printed, same) = save_catalog-eq-ok lib (forget k cat) deleted disk' (
              saved_without-eq-none (save_catalog lib (forget k cat) deleted) deleted disk'
                (ground (arith, e))) in
            let (parsed, small) = readable bytes printed in
            (
              refl,
              (
                forget k cat,
                subst (λ x. load_catalog lib x ≡ ok (forget k cat)) same
                    (load_catalog-written lib (forget k cat) deleted bytes
                      (load_catalog-1 lib disk cat loaded) parsed small),
                without_record-IsWithout k cat.documents,
              ),
            )
        | inr n ↦
            let same : deleted ≡ disk' = ground (arith, n) in
            (
              refl,
              (
                cat,
                subst (λ x. load_catalog lib x ≡ ok cat) same
                    (load_catalog-same deleted kept ∙ loaded),
                record { absent = n; others = λ j apart. (refl, refl) },
              ),
            )
      ]

  removed :
      (found : Result (RemoveError F) (Descriptor × CatalogFile)) (disk' : Disk)
      → looked_up lib k disk ≡ found
      → ((root : Descriptor) → (delete_root disk root).0.catalog ≡ disk.catalog)
      → load_catalog lib disk ≡ ok cat
      → ReadsBack
      → remove_root lib delete_root k disk found ≡ (disk', none)
      → Forgets disk'
  removed (err e) disk' looked kept loaded readable h = cc
  removed (ok (root, cat')) disk' looked kept loaded readable h =
      let ((roots, indexed, here), loads) = looked_up-ok root cat' looked in
      let same : cat' ≡ cat = ok_inj (sym loads ∙ loaded) in
      let (gone, (last, again, records)) =
        behind-deletion (delete_root disk root) disk' (kept root) loaded readable
          (subst (λ c. forgotten lib k c (delete_root disk root) ≡ (disk', none)) same h) in
      record {
        root = root;
        roots = roots;
        indexed = indexed;
        was_root = here;
        deleted = gone;
        catalog = last;
        loads = again;
        records = records;
      }

  -- If the deletion of a root leaves the catalog file, and the catalog without the manifest's record, if
  -- it can be marshalled, parses as it and is within the size limit, then a successful removal
  -- from a store whose catalog loads deleted a root of the index with that digest, and the catalog loads
  -- again with no entry for the manifest, and for every other one the entry that it had, or none.
  pub remove-Forgets :
      (disk' : Disk)
      → ((root : Descriptor) → (delete_root disk root).0.catalog ≡ disk.catalog)
      → load_catalog lib disk ≡ ok cat
      → ReadsBack
      → remove lib d delete_root k disk ≡ (disk', none)
      → Forgets disk'
  unfolding remove
  remove-Forgets disk' kept loaded readable h = go (validate_digest d k) h
    where
      go :
          (o : Option BlobError)
          → ◌≡◌ {A = Disk × Option (RemoveError F)}
              (elim o [
                | some e ↦ (disk, some (invalid_manifest e))
                | none ↦ remove_root lib delete_root k disk (looked_up lib k disk)
              ])
              (disk', none)
          → Forgets disk'
      go (some e) h = cc
      go none h = removed (looked_up lib k disk) disk' refl kept loaded readable h
