-- ===== src/Store/Commit/Stored.antt =====
-- What a commit leaves in the store.
use ocidoc_go.Base.{
  ◌≡◌, refl, sym, ap, subst, ◌∙◌, Option, none, some, List, Text, Result, ok, err, ok_inj, through,
  All, All-of, All_at, arith, ◌>>=◌,
}
use ocidoc_go.Oci.{Descriptor, Manifest}
use ocidoc_go.Store.{Disk, StoreError, Foreign}
use ocidoc_go.Store.Catalog.{
  Document, record_document, load_catalog, save_catalog, with_document, with_origins,
}
use ocidoc_go.Store.Catalog.Recorded.{save_catalog-eq-ok}
use ocidoc_go.Store.Commit.{
  Origin, Contents, CommitSource, CommitError, config_failed, ◌thereafter◌, within, new_document,
  commit_blob, commit_components, commit_graph, recorded, and_record, source_graph, commit_source,
  commit,
}
use ocidoc_go.Store.Commit.Pushed.{
  Holds, IsContentStore, commit_blob-Holds, first_done, second_done, components-Holds,
}

module _ {F : Type 0} (oci : Contents F) where
  -- Everything that a document consists of.
  pub record HasGraph (source : CommitSource F) (m : Manifest) (root : Descriptor) (disk : Disk)
      : Type 0 where
    pub config : Holds oci disk m.config
    pub components : List (Text × Descriptor)
    pub listed : source.components ≡ ok components
    pub blobs : All (λ c. Holds oci disk c.1) components
    pub manifest : Holds oci disk root

  commit_graph-HasGraph :
      (source : CommitSource F) (m : Manifest) (root : Descriptor) (disk disk' : Disk)
      → IsContentStore oci
      → commit_graph oci source m root disk ≡ (disk', none)
      → HasGraph source m root disk'
  unfolding commit_graph
  commit_graph-HasGraph source m root disk disk' laws h =
      let config =
        within config_failed (commit_blob oci disk m.config (source.open_blob m.config)) in
      let (all_done, before, h1) =
        second_done (config thereafter commit_components oci source source.components)
          (λ disk. commit_blob oci disk root (source.open_blob root)) disk' h in
      let (config_done, first, h2) =
        first_done (commit_blob oci disk m.config (source.open_blob m.config)) config_failed
          (commit_components oci source source.components) all_done before in
      let (held, _) =
        commit_blob-Holds oci disk config_done m.config (source.open_blob m.config) laws first in
      let (cs, listed, all, grown) =
        components-Holds oci source source.components config_done all_done laws h2 in
      let (last, kept) =
        commit_blob-Holds oci all_done disk' root (source.open_blob root) laws h1 in
      record {
        config = kept m.config (grown m.config held);
        components = cs;
        listed = listed;
        blobs =
            All-of (λ c. Holds oci disk' c.1) cs
              (λ c x. kept c.1 (All_at (λ c. Holds oci all_done c.1) cs all x));
        manifest = last;
      }

  recorded_graph :
      (source : CommitSource F) (m : Manifest) (root : Descriptor) (disk disk' : Disk)
      → IsContentStore oci
      → disk'.blobs ≡ disk.blobs
      → disk'.index ≡ disk.index
      → HasGraph source m root disk
      → HasGraph source m root disk'
  recorded_graph source m root disk disk' laws blobs index g =
      let keep : (other : Descriptor) → Holds oci disk other → Holds oci disk' other =
        λ other held. laws.apart disk disk' other blobs index held in
      record {
        config = keep m.config g.config;
        components = g.components;
        listed = g.listed;
        blobs =
            All-of (λ c. Holds oci disk' c.1) g.components
              (λ c x. keep c.1 (All_at (λ c. Holds oci disk c.1) g.components g.blobs x));
        manifest = keep root g.manifest;
      }

record_document-keeps :
    {F : Type 0} (lib : Foreign F) (doc last : Document) (disk disk' : Disk)
    → record_document lib doc disk ≡ ok (disk', last)
    → (disk'.blobs ≡ disk.blobs) × (disk'.index ≡ disk.index) × (last.manifest ≡ doc.manifest)
unfolding record_document with_origins
record_document-keeps lib doc last disk disk' h =
    let (cat, _, h1) =
      through
        (λ cat. save_catalog lib (with_document cat doc) disk >>= λ disk'.
          ok (disk', with_origins cat doc))
        (disk', last) (load_catalog lib disk) h in
    let (found, saved, same) =
      through (λ disk'. ok (disk', with_origins cat doc)) (disk', last)
        (save_catalog lib (with_document cat doc) disk) h1 in
    let (bytes, _, put) = save_catalog-eq-ok lib (with_document cat doc) disk found saved in
    let pair = ok_inj same in
    (
      sym (ap (λ (x : Disk × Document). x.0.blobs) pair) ∙ sym (ap (λ (x : Disk). x.blobs) put),
      sym (ap (λ (x : Disk × Document). x.0.index) pair) ∙ sym (ap (λ (x : Disk). x.index) put),
      sym (ap (λ (x : Disk × Document). x.1.manifest) pair),
    )

-- A document that the source describes and the store has.
pub record IsCommitted {F : Type 0} (oci : Contents F) (source : CommitSource F) (doc : Document)
    (disk : Disk) : Type 0 where
  pub manifest : Manifest
  pub root : Descriptor
  pub from_source : source.manifest ≡ ok manifest
  pub rooted : source.root ≡ ok root
  pub named : doc.manifest ≡ root.digest
  pub graph : HasGraph oci source manifest root disk

module _ {F : Type 0} (oci : Contents F) (lib : Foreign F) (now : Text) (source : CommitSource F)
    (origin : Origin) where
  graph-IsCommitted :
      (m : Manifest) (root : Descriptor) (r : Disk × Option (CommitError F)) (disk' : Disk)
      (doc : Document)
      → IsContentStore oci
      → source.manifest ≡ ok m
      → source.root ≡ ok root
      → (r.1 ≡ none → HasGraph oci source m root r.0)
      → and_record lib (new_document now m root origin) r ≡ (disk', ok doc)
      → IsCommitted oci source doc disk'
  unfolding new_document
  graph-IsCommitted m root (disk, some e) disk' doc laws em er graph h = cc
  graph-IsCommitted m root (disk, none) disk' doc laws em er graph h =
      go (record_document lib (new_document now m root origin) disk) refl h
    where
      go :
          (r : Result (StoreError F) (Disk × Document))
          → record_document lib (new_document now m root origin) disk ≡ r
          → recorded {F = F} disk r ≡ (disk', ok doc)
          → IsCommitted oci source doc disk'
      go (err e) eq h = cc
      go (ok (last, done)) eq h =
          let (blobs, index, named) =
            record_document-keeps lib (new_document now m root origin) done disk last eq in
          let disk_same = ap (λ (x : Disk × Result (CommitError F) Document). x.0) h in
          let doc_same : done ≡ doc =
            ok_inj (ap (λ (x : Disk × Result (CommitError F) Document). x.1) h) in
          record {
            manifest = m;
            root = root;
            from_source = em;
            rooted = er;
            named = ap (λ (d : Document). d.manifest) (sym doc_same) ∙ named;
            graph =
                subst (HasGraph oci source m root) disk_same
                  (recorded_graph oci source m root disk last laws blobs index (graph refl));
          }

  described_source :
      (m : Manifest) (root : Descriptor)
      → source_graph source ≡ ok (m, root)
      → (source.manifest ≡ ok m) × (source.root ≡ ok root)
  unfolding source_graph
  described_source m root h = ground arith

  committed :
      (found : Result (CommitError F) (Manifest × Descriptor)) (disk disk' : Disk) (doc : Document)
      → IsContentStore oci
      → source_graph source ≡ found
      → commit_source oci lib now source origin disk found ≡ (disk', ok doc)
      → IsCommitted oci source doc disk'
  committed (err e) disk disk' doc laws eq h = cc
  committed (ok (m, root)) disk disk' doc laws eq h =
      let (em, er) = described_source m root eq in
      graph-IsCommitted m root (commit_graph oci source m root disk) disk' doc laws em er
        (λ done.
          commit_graph-HasGraph oci source m root disk (commit_graph oci source m root disk).0 laws
            (ap (λ o. ((commit_graph oci source m root disk).0, o)) done))
        h

  -- If a push puts its content into the content store, takes none away, and content does not depend on
  -- the catalog file, then behind a successful commit the store has the config, each component and the
  -- manifest that the source describes, and the document is named by the digest of the root.
  pub commit-IsCommitted :
      (disk disk' : Disk) (doc : Document)
      → IsContentStore oci
      → commit oci lib now source origin disk ≡ (disk', ok doc)
      → IsCommitted oci source doc disk'
  unfolding commit
  commit-IsCommitted disk disk' doc laws h =
      committed (source_graph source) disk disk' doc laws refl h
