-- ===== src/Store/Tests.antt =====
-- Runs on a small store: one document with its config, and a blob that nothing reaches.
use ocidoc_go.Base.{
  ◌≡◌, ◌≢◌, ◌↔◌, ◌⊎◌, refl, inl, inr, ap, true, false, none, some, List, [], ◌∷◌, ◌++◌, Text, codes,
  text_eq, ok, pos, In, Pairs,
}
use ocidoc_go.Oci.{Descriptor, Manifest, int_eq}
use ocidoc_go.OciBlob.{validate, validate_digest, verify}
use ocidoc_go.OciBlob.Tests.{plain_digests}
use ocidoc_go.Store.{BlobFile, Disk, Foreign, read_store_metadata, read_index, fetch_metadata}
use ocidoc_go.Store.Prune.{
  is_reachable, reachable_blobs, measure_unreachable, remove_unreachable, survey, result_of, prune,
}
use ocidoc_go.Store.Prune.Documents.{prune-In}
use ocidoc_go.Store.Prune.Removed.{prune-Swept, Swept}
use ocidoc_go.Store.Catalog.{
  Document, empty_catalog, new_origins, merge_origins, load_catalog_file, load_catalog,
  with_document, record_document,
}
use ocidoc_go.Store.{CatalogFile, max_store_metadata_size}
use ocidoc_go.Store.Catalog.{put_record, check_version, publish_catalog, save_catalog}
use ocidoc_go.Store.Remove.{has_record, forget, root_descriptor, looked_up, forgotten, remove}
use ocidoc_go.Store.Remove.Forgotten.{Forgets, remove-Forgets}
use ocidoc_go.Base.{Option}
use mathlib.Core.Bool.{true≢false}
use ocidoc_go.Base.{Bool, Result, err, ltb, length, subst, ok_inj}
use ocidoc_go.Store.Verify.{
  Checker, Verification, verify_store, checked_store, saved, visit_records, visit_roots, visit_root,
  note_verified, note_close, note_sound, note_record,
}
use ocidoc_go.Store.Verify.Valid.{GivesReasons, IsConsistent, verify_store-IsConsistent}
use ocidoc_go.Store.Catalog.Origins.{merge_origins-In}
use ocidoc_go.Store.Catalog.Recorded.{record_document-load, IsRecorded}

abbrev descriptor_of : Text → Descriptor
descriptor_of t = record {
  digest = t;
  media_type = [];
  artifact_type = [];
  size = pos 3;
  annotations = [];
  unread = [];
}

abbrev root : Descriptor
root = descriptor_of (codes "a:m")

abbrev manifest : Manifest
manifest = record {
  artifact_type = [];
  subject = none;
  config = descriptor_of (codes "a:c");
  layers = [];
  annotations = [];
}

abbrev doc : Document
doc = record {
  updated_at = [];
  manifest = codes "a:m";
  subject = [];
  source = codes "pull";
  origins = codes "r" ∷ [];
}

-- JSON that only knows the files of this store.
abbrev lib : Foreign Text
lib = record {
  parse_index = λ t. some (root ∷ []);
  parse_manifest = λ t. some manifest;
  parse_catalog = λ t. some (with_document empty_catalog doc);
  print_catalog = λ c. ok [];
  fetch = λ disk desc. ok desc.digest;
  remove_file = λ b. none;
  create_temp = λ disk. none;
  write_temp = λ disk bytes. none;
  rename_temp = λ disk bytes. none;
}

abbrev file : Text → Text → BlobFile
file name content = record { directory = codes "a"; name = name; content = content }

abbrev config_file : BlobFile
config_file = file (codes "c") (codes "{}")

abbrev disk : Disk
disk = record {
  index = some [];
  catalog = none;
  blobs = config_file ∷ file (codes "m") [] ∷ file (codes "x") (codes "old") ∷ [];
}

abbrev swept : Disk
swept = record { index = some []; catalog = none; blobs = config_file ∷ file (codes "m") [] ∷ [] }

reads_index : read_index lib disk ≡ ok (root ∷ [])
unfolding read_index read_store_metadata
reads_index = refl

reads_root : fetch_metadata lib plain_digests disk root ≡ ok (codes "a:m")
unfolding fetch_metadata validate validate_digest verify int_eq text_eq
reads_root = refl

prunes_x : prune lib plain_digests false disk ≡ (swept, ok (result_of false 1 3))
unfolding prune survey read_index read_store_metadata reachable_blobs fetch_metadata validate
    validate_digest verify int_eq text_eq measure_unreachable remove_unreachable is_reachable
prunes_x = refl

prune-In_example : In config_file (prune lib plain_digests false disk).0.blobs
prune-In_example =
    prune-In lib plain_digests disk false (root ∷ []) root manifest config_file reads_index
      (inl refl) (codes "a:m", reads_root, refl) (inr (inl refl)) (inl refl)

prune-Swept_example :
    (r : List Text) × (survey lib plain_digests disk ≡ ok (r, 1, 3))
    × Swept lib plain_digests disk r 1 3 swept
    × (prune lib plain_digests true disk ≡ (disk, ok (result_of true 1 3)))
prune-Swept_example =
    prune-Swept lib plain_digests disk swept (result_of false 1 3) (ap (λ p. p.0) prunes_x)
      (ap (λ p. p.1) prunes_x)

merge_origins-In_example :
    ((x : Text)
      → In x (merge_origins (codes "a" ∷ []) (codes "a" ∷ codes "b" ∷ []))
        ↔ (In x (codes "a" ∷ []) ⊎ In x (codes "a" ∷ codes "b" ∷ [])))
    × ((rest : List Text) × (merge_origins (codes "a" ∷ []) (codes "a" ∷ codes "b" ∷ [])
          ≡ (codes "a" ∷ []) ++ rest))
    × (Pairs (λ a b. a ≢ b) (codes "a" ∷ [])
        → Pairs (λ a b. a ≢ b) (merge_origins (codes "a" ∷ []) (codes "a" ∷ codes "b" ∷ [])))
merge_origins-In_example = merge_origins-In (codes "a" ∷ []) (codes "a" ∷ codes "b" ∷ [])

merges_b : merge_origins (codes "a" ∷ []) (codes "a" ∷ codes "b" ∷ []) ≡ codes "a" ∷ codes "b" ∷ []
unfolding merge_origins new_origins text_eq
merges_b = refl

abbrev recorded_catalog : CatalogFile
recorded_catalog = with_document empty_catalog doc

-- A store whose catalog has a record of the document, and JSON that tells its two files apart.
abbrev kept_store : Disk
kept_store = record { index = some []; catalog = some (codes "1"); blobs = config_file ∷ [] }

abbrev pulled_again : Document
pulled_again = record doc { origins = codes "s" ∷ codes "r" ∷ [] }

-- JSON that tells the catalog before from the one behind a second pull.
abbrev merging_files : Foreign Text
merging_files = record {
  parse_index = λ t. some (root ∷ []);
  parse_manifest = λ t. some manifest;
  parse_catalog = λ t. elim t [
    | [] ↦ some (with_document recorded_catalog pulled_again)
    | c ∷ cs ↦ some recorded_catalog
  ];
  print_catalog = λ c. ok [];
  fetch = λ disk desc. ok desc.digest;
  remove_file = λ b. none;
  create_temp = λ disk. none;
  write_temp = λ disk bytes. none;
  rename_temp = λ disk bytes. none;
}

loads_first_pull : load_catalog merging_files kept_store ≡ ok recorded_catalog
unfolding load_catalog load_catalog_file read_store_metadata check_version int_eq with_document
loads_first_pull = refl

record_document-load_example :
    (disk' : Disk) × (done : Document) × (record_document merging_files pulled_again kept_store
      ≡ ok (disk', done))
    × IsRecorded merging_files pulled_again recorded_catalog kept_store disk' done
record_document-load_example =
    record_document-load merging_files pulled_again kept_store recorded_catalog [] loads_first_pull
      refl refl refl refl refl refl

abbrev two_files : Foreign Text
two_files = record {
  parse_index = λ t. some (root ∷ []);
  parse_manifest = λ t. some manifest;
  parse_catalog = λ t. elim t [
    | [] ↦ some (forget (codes "a:m") recorded_catalog)
    | c ∷ cs ↦ some recorded_catalog
  ];
  print_catalog = λ c. ok [];
  fetch = λ disk desc. ok desc.digest;
  remove_file = λ b. none;
  create_temp = λ disk. none;
  write_temp = λ disk bytes. none;
  rename_temp = λ disk bytes. none;
}

abbrev delete_nothing : Disk → Descriptor → Disk × Option Text
delete_nothing st r = (st, none)

abbrev forgotten_store : Disk
forgotten_store = record { index = some []; catalog = some []; blobs = config_file ∷ [] }

loads_record : load_catalog two_files kept_store ≡ ok recorded_catalog
unfolding load_catalog load_catalog_file read_store_metadata check_version int_eq with_document
loads_record = refl

removes_record :
    remove two_files plain_digests delete_nothing (codes "a:m") kept_store ≡ (forgotten_store, none)
unfolding remove looked_up root_descriptor forgotten has_record save_catalog publish_catalog
    read_index load_catalog load_catalog_file read_store_metadata check_version int_eq with_document
    validate_digest put_record text_eq
removes_record = refl

reads_back :
    (bytes : Text)
    → two_files.print_catalog (forget (codes "a:m") recorded_catalog) ≡ ok bytes
    → (two_files.parse_catalog bytes ≡ some (forget (codes "a:m") recorded_catalog))
      × (ltb max_store_metadata_size (length bytes) ≡ false)
reads_back bytes h =
    subst
      (λ t.
        (two_files.parse_catalog t ≡ some (forget (codes "a:m") recorded_catalog))
        × (ltb max_store_metadata_size (length t) ≡ false))
      (ok_inj h) (refl, refl)

remove-Forgets_example :
    Forgets two_files plain_digests delete_nothing
      (codes "a:m")
      kept_store
      recorded_catalog
      forgotten_store
remove-Forgets_example =
    remove-Forgets two_files plain_digests delete_nothing (codes "a:m") kept_store recorded_catalog
      forgotten_store (λ r. refl) loads_record reads_back removes_record

abbrev all_sound : Checker Text
all_sound = record {
  open_document = λ r. none;
  verify_document = λ r. ok (true, []);
  close_document = λ r. none;
  read_manifest = λ r. ok manifest;
}

always_accepts : GivesReasons all_sound
always_accepts r ms h = absurd (true≢false (ap accepted h))
  where
    accepted : Result Text (Bool × List Text) → Bool
    accepted (ok x) = x.0
    accepted (err f) = true

abbrev found_valid : Verification Text
found_valid = record { issues = []; repaired = []; documents = 1; valid = true }

verifies : verify_store two_files all_sound false kept_store ≡ (kept_store, ok found_valid)
unfolding verify_store checked_store saved visit_records visit_roots visit_root note_verified
    note_close note_sound note_record has_record read_index load_catalog load_catalog_file
    read_store_metadata check_version int_eq with_document put_record text_eq
verifies = refl

verify_store-IsConsistent_example :
    (kept_store ≡ kept_store) × IsConsistent two_files all_sound kept_store
verify_store-IsConsistent_example =
    verify_store-IsConsistent two_files all_sound kept_store kept_store found_valid always_accepts
      verifies refl
