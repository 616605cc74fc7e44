-- ===== src/Store/Commit.antt =====
-- store/commit.go: `Commit`, which copies a document into the store and records it. The source and the
-- content operations of the OCI store are parameters, and so are the metadata check and the time.
pub mod Pushed
pub mod Stored
mod Tests
use ocidoc_go.Base.{
  Bool, true, false, Option, none, some, List, [], ◌∷◌, if◌then◌else◌, Text, is_empty, Result, ok,
  err, ◌>>=◌,
}
use ocidoc_go.Oci.{Descriptor, Manifest}
use ocidoc_go.Store.{Disk, StoreError, Foreign}
use ocidoc_go.Store.Catalog.{Document, record_document}

pub record Origin : Type 0 where
  pub reference : Text
  pub source : Text

-- `Exists` and `Push` of the OCI store of oras-go.
pub record Contents (F : Type 0) : Type 0 where
  pub exists : Disk → Descriptor → Result F Bool
  pub push : Disk → Descriptor → Text → Disk × Option F

-- The operations of an `artifact.Reader` that are called, and `artifact.ValidateMetadata`.
pub record CommitSource (F : Type 0) : Type 0 where
  pub validate_metadata : Option F
  pub manifest : Result F Manifest
  pub root : Result F Descriptor
  pub components : Result F (List (Text × Descriptor))
  pub open_blob : Descriptor → Result F Text
  pub open_component : Text → Result F Text

pub data CommitError (F : Type 0) : Type 0 where
  source_failed : F → CommitError F
  check_failed : Text → F → CommitError F
  push_failed : Text → F → CommitError F
  config_failed : CommitError F → CommitError F
  component_failed : Text → CommitError F → CommitError F
  record_failed : StoreError F → CommitError F

-- `doc.Origins` and `doc.Subject`, each only if there is one.
unfoldable pub new_document : Text → Manifest → Descriptor → Origin → Document
new_document now m root origin = record {
  updated_at = now;
  manifest = root.digest;
  subject = elim m.subject [ none ↦ [] | some s ↦ s.digest ];
  source = origin.source;
  origins = if is_empty origin.reference then [] else origin.reference ∷ [];
}

module _ {F : Type 0} where
  -- `if err != nil { return err }` behind a call that writes.
  infixl 5 ◌thereafter◌
  abbrev pub ◌thereafter◌ :
      Disk × Option (CommitError F)
      → (Disk → Disk × Option (CommitError F))
      → Disk × Option (CommitError F)
  (disk, none) thereafter f = f disk
  (disk, some e) thereafter f = (disk, some e)

  -- An error with its context.
  abbrev pub within :
      (CommitError F → CommitError F)
      → Disk × Option (CommitError F)
      → Disk × Option (CommitError F)
  within context (disk, none) = (disk, none)
  within context (disk, some e) = (disk, some (context e))

  abbrev pub pushed : Text → Disk × Option F → Disk × Option (CommitError F)
  pushed digest (disk, none) = (disk, none)
  pushed digest (disk, some f) = (disk, some (push_failed digest f))

  module _ (oci : Contents F) where
    -- The push, for what `Exists` says.
    abbrev pub push_missing :
        Disk → Descriptor → Text → Result F Bool → Disk × Option (CommitError F)
    push_missing disk desc content (err f) = (disk, some (check_failed desc.digest f))
    push_missing disk desc content (ok true) = (disk, none)
    push_missing disk desc content (ok false) = pushed desc.digest (oci.push disk desc content)

    unfoldable pub push_if_missing : Disk → Descriptor → Text → Disk × Option (CommitError F)
    push_if_missing disk desc content = push_missing disk desc content (oci.exists disk desc)

    -- `commitConfig`, `commitComponent` and `commitManifest`: what the source opens is pushed.
    unfoldable pub commit_blob : Disk → Descriptor → Result F Text → Disk × Option (CommitError F)
    commit_blob disk desc (err f) = (disk, some (source_failed f))
    commit_blob disk desc (ok content) = push_if_missing disk desc content

    unfoldable pub commit_each :
        CommitSource F → List (Text × Descriptor) → Disk → Disk × Option (CommitError F)
    commit_each source [] disk = (disk, none)
    commit_each source (c ∷ cs) disk =
        within (component_failed c.0) (commit_blob disk c.1 (source.open_component c.0))
        thereafter commit_each source cs

    unfoldable pub commit_components :
        CommitSource F → Result F (List (Text × Descriptor)) → Disk → Disk × Option (CommitError F)
    commit_components source (err f) disk = (disk, some (source_failed f))
    commit_components source (ok cs) disk = commit_each source cs disk

    -- The graph, the root behind what it refers to.
    unfoldable pub commit_graph :
        CommitSource F → Manifest → Descriptor → Disk → Disk × Option (CommitError F)
    commit_graph source m root disk =
        within config_failed (commit_blob disk m.config (source.open_blob m.config))
        thereafter commit_components source source.components
        thereafter (λ disk. commit_blob disk root (source.open_blob root))

  -- The record in the catalog.
  abbrev pub recorded :
      Disk → Result (StoreError F) (Disk × Document) → Disk × Result (CommitError F) Document
  recorded disk (err e) = (disk, err (record_failed e))
  recorded disk (ok (disk', doc)) = (disk', ok doc)

  abbrev pub and_record :
      Foreign F → Document → Disk × Option (CommitError F) → Disk × Result (CommitError F) Document
  and_record lib doc (disk, some e) = (disk, err e)
  and_record lib doc (disk, none) = recorded disk (record_document lib doc disk)

  -- What the source says, before anything is written.
  unfoldable pub source_graph : CommitSource F → Result (CommitError F) (Manifest × Descriptor)
  source_graph source = elim source.validate_metadata [
    | some f ↦ err (source_failed f)
    | none ↦ elim source.manifest [
      | err f ↦ err (source_failed f)
      | ok m ↦ elim source.root [ err f ↦ err (source_failed f) | ok root ↦ ok (m, root) ]
    ]
  ]

  abbrev pub commit_source :
      Contents F
      → Foreign F
      → Text
      → CommitSource F
      → Origin
      → Disk
      → Result (CommitError F) (Manifest × Descriptor)
      → Disk × Result (CommitError F) Document
  commit_source oci lib now source origin disk (err e) = (disk, err e)
  commit_source oci lib now source origin disk (ok (m, root)) =
      and_record lib (new_document now m root origin) (commit_graph oci source m root disk)

  unfoldable pub commit :
      Contents F
      → Foreign F
      → Text
      → CommitSource F
      → Origin
      → Disk
      → Disk × Result (CommitError F) Document
  commit oci lib now source origin disk =
      commit_source oci lib now source origin disk (source_graph source)
