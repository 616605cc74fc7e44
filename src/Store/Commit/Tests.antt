-- ===== src/Store/Commit/Tests.antt =====
-- A commit into an empty store.
use ocidoc_go.Base.{
  ◌≡◌, refl, ap, subst, ◌∙◌, Bool, true, ◌||◌, Option, none, some, List, [], ◌∷◌, any, Text, codes,
  text_eq, text_eq_self, ok, ok_inj, arith, pos,
}
use ocidoc_go.Oci.{Descriptor, Manifest}
use ocidoc_go.Store.{BlobFile, Disk, Foreign}
use ocidoc_go.Store.Catalog.{
  Document, record_document, load_catalog, load_catalog_file, publish_catalog, save_catalog,
  with_document, with_origins, merge_origins, new_origins, record_at, put_record,
}
use ocidoc_go.Store.Commit.{
  Origin, Contents, CommitSource, commit, source_graph, commit_graph, commit_blob, push_if_missing,
  commit_components, commit_each, new_document,
}
use ocidoc_go.Store.Commit.Pushed.{IsContentStore}
use ocidoc_go.Store.Commit.Stored.{IsCommitted, commit-IsCommitted}

abbrev has_blob : Text → List BlobFile → Bool
has_blob digest blobs = any (λ (b : BlobFile). text_eq b.name digest) blobs

-- Blobs under their digests.
abbrev blob_store : Contents Text
blob_store = record {
  exists = λ disk desc. ok (has_blob desc.digest disk.blobs);
  push = λ disk desc content. (
    record disk {
      blobs = record { directory = []; name = desc.digest; content = content } ∷ disk.blobs;
    },
    none,
  );
}

is_content_store : IsContentStore blob_store
is_content_store = record {
  pushes = λ disk disk' desc content h.
      subst (λ (x : Disk × Option Text). blob_store.exists x.0 desc ≡ ok true) h
        (ap (λ b. ok (b || has_blob desc.digest disk.blobs)) (text_eq_self desc.digest));
  keeps = λ disk desc other content held. ap ok (ground (arith, ok_inj held));
  apart =
      λ disk disk' other blobs index held. ap (λ bs. ok (has_blob other.digest bs)) blobs ∙ held;
}

abbrev blob_descriptor : Text → Descriptor
blob_descriptor digest = record {
  digest = digest;
  media_type = [];
  artifact_type = [];
  size = pos 1;
  annotations = [];
  unread = [];
}

abbrev guide : Manifest
guide = record {
  artifact_type = [];
  subject = none;
  config = blob_descriptor (codes "c");
  layers = blob_descriptor (codes "l") ∷ [];
  annotations = [];
}

abbrev guide_source : CommitSource Text
guide_source = record {
  validate_metadata = none;
  manifest = ok guide;
  root = ok (blob_descriptor (codes "m"));
  components = ok ((codes "license", blob_descriptor (codes "l")) ∷ []);
  open_blob = λ desc. ok (codes "x");
  open_component = λ t. ok (codes "y");
}

abbrev json : Foreign Text
json = record {
  parse_index = λ t. none;
  parse_manifest = λ t. none;
  parse_catalog = λ t. none;
  print_catalog = λ c. ok (codes "{}");
  fetch = λ disk desc. ok [];
  remove_file = λ b. none;
  create_temp = λ disk. none;
  write_temp = λ disk bytes. none;
  rename_temp = λ disk bytes. none;
}

abbrev empty_store : Disk
empty_store = record { index = none; catalog = none; blobs = [] }

abbrev built_here : Origin
built_here = record { reference = []; source = codes "build" }

abbrev blob : Text → Text → BlobFile
blob name content = record { directory = []; name = name; content = content }

abbrev full_store : Disk
full_store = record {
  index = none;
  catalog = some (codes "{}");
  blobs =
      blob (codes "m") (codes "x")
      ∷ blob (codes "l") (codes "y")
      ∷ blob (codes "c") (codes "x")
      ∷ [];
}

abbrev committed_guide : Document
committed_guide = record {
  updated_at = codes "now";
  manifest = codes "m";
  subject = [];
  source = codes "build";
  origins = [];
}

commits :
    commit blob_store json (codes "now") guide_source built_here empty_store
    ≡ (full_store, ok committed_guide)
unfolding commit source_graph commit_graph commit_blob push_if_missing commit_components commit_each
    new_document record_document load_catalog load_catalog_file save_catalog publish_catalog
    with_document with_origins merge_origins new_origins record_at put_record text_eq
commits = refl

commit-IsCommitted_example : IsCommitted blob_store guide_source committed_guide full_store
commit-IsCommitted_example =
    commit-IsCommitted blob_store json (codes "now") guide_source built_here empty_store full_store
      committed_guide is_content_store commits
