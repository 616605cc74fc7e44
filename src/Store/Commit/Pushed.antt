-- ===== src/Store/Commit/Pushed.antt =====
-- What the pushes of a commit leave in the store.
use ocidoc_go.Base.{
  ◌≡◌, refl, ap, subst, Bool, true, false, Option, none, some, List, [], ◌∷◌, Text, Result, ok, err,
  All,
}
use ocidoc_go.Oci.{Descriptor}
use ocidoc_go.Store.{Disk}
use ocidoc_go.Store.Commit.{
  Contents, CommitSource, CommitError, component_failed, ◌thereafter◌, within, pushed, push_missing,
  push_if_missing, commit_blob, commit_each, commit_components,
}

module _ {F : Type 0} where
  -- A chain that succeeds went through a first step that did.
  pub first_done :
      (r : Disk × Option (CommitError F)) (context : CommitError F → CommitError F)
      (f : Disk → Disk × Option (CommitError F)) (disk' : Disk)
      → (within context r thereafter f) ≡ (disk', none)
      → (middle : Disk) × (r ≡ (middle, none)) × (f middle ≡ (disk', none))
  first_done (disk, none) context f disk' h = (disk, refl, h)
  first_done (disk, some e) context f disk' h = cc

  pub second_done :
      (r : Disk × Option (CommitError F)) (f : Disk → Disk × Option (CommitError F)) (disk' : Disk)
      → (r thereafter f) ≡ (disk', none)
      → (middle : Disk) × (r ≡ (middle, none)) × (f middle ≡ (disk', none))
  second_done (disk, none) f disk' h = (disk, refl, h)
  second_done (disk, some e) f disk' h = cc

module _ {F : Type 0} (oci : Contents F) where
  -- The store has the content.
  abbrev pub Holds : Disk → Descriptor → Type 0
  Holds disk desc = oci.exists disk desc ≡ ok true

  -- What a content store does: a push puts its content there, and takes none away; nor does a change of
  -- the catalog file.
  pub record IsContentStore : Type 0 where
    pub pushes :
        (disk disk' : Disk) (desc : Descriptor) (content : Text)
        → oci.push disk desc content ≡ (disk', none)
        → Holds disk' desc
    pub keeps :
        (disk : Disk) (desc other : Descriptor) (content : Text)
        → Holds disk other
        → Holds (oci.push disk desc content).0 other
    pub apart :
        (disk disk' : Disk) (other : Descriptor)
        → disk'.blobs ≡ disk.blobs
        → disk'.index ≡ disk.index
        → Holds disk other
        → Holds disk' other

  -- A step that succeeds keeps what is there.
  abbrev pub Grows : Disk → Disk → Type 0
  Grows disk disk' = (other : Descriptor) → Holds disk other → Holds disk' other

  push_done :
      (digest : Text) (r : Disk × Option F) (disk' : Disk)
      → pushed digest r ≡ (disk', none)
      → r ≡ (disk', none)
  push_done digest (disk, none) disk' h = ap (λ (x : Disk × Option (CommitError F)). (x.0, none)) h
  push_done digest (disk, some f) disk' h = cc

  push_missing-Holds :
      (disk disk' : Disk) (desc : Descriptor) (content : Text) (found : Result F Bool)
      → IsContentStore
      → oci.exists disk desc ≡ found
      → push_missing oci disk desc content found ≡ (disk', none)
      → Holds disk' desc × Grows disk disk'
  push_missing-Holds disk disk' desc content (err f) laws e h = cc
  push_missing-Holds disk disk' desc content (ok true) laws e h =
      let same : disk ≡ disk' = ap (λ (x : Disk × Option (CommitError F)). x.0) h in
      (
        subst (λ disk. Holds disk desc) same e,
        λ other held. subst (λ disk. Holds disk other) same held,
      )
  push_missing-Holds disk disk' desc content (ok false) laws e h =
      let done = push_done desc.digest (oci.push disk desc content) disk' h in
      (
        laws.pushes disk disk' desc content done,
        λ other held.
            subst (λ (x : Disk × Option F). Holds x.0 other) done
              (laws.keeps disk desc other content held),
      )

  pub commit_blob-Holds :
      (disk disk' : Disk) (desc : Descriptor) (opened : Result F Text)
      → IsContentStore
      → commit_blob oci disk desc opened ≡ (disk', none)
      → Holds disk' desc × Grows disk disk'
  unfolding commit_blob push_if_missing
  commit_blob-Holds disk disk' desc (err f) laws h = cc
  commit_blob-Holds disk disk' desc (ok content) laws h =
      push_missing-Holds disk disk' desc content (oci.exists disk desc) laws refl h

  commit_each-Holds :
      (source : CommitSource F) (cs : List (Text × Descriptor)) (disk disk' : Disk)
      → IsContentStore
      → commit_each oci source cs disk ≡ (disk', none)
      → All (λ c. Holds disk' c.1) cs × Grows disk disk'
  unfolding commit_each
  commit_each-Holds source [] disk disk' laws h = (
    tt,
    λ other held.
        subst (λ disk. Holds disk other) (ap (λ (x : Disk × Option (CommitError F)). x.0) h) held,
  )
  commit_each-Holds source (c ∷ cs) disk disk' laws h =
      let (middle, first, h1) =
        first_done (commit_blob oci disk c.1 (source.open_component c.0)) (component_failed c.0)
          (commit_each oci source cs) disk' h in
      let (held, grown) =
        commit_blob-Holds disk middle c.1 (source.open_component c.0) laws first in
      let (all, later) = commit_each-Holds source cs middle disk' laws h1 in
      ((later c.1 held, all), λ other x. later other (grown other x))

  pub components-Holds :
      (source : CommitSource F) (listed : Result F (List (Text × Descriptor))) (disk disk' : Disk)
      → IsContentStore
      → commit_components oci source listed disk ≡ (disk', none)
      → (cs : List (Text × Descriptor)) × (listed ≡ ok cs)
        × All (λ c. Holds disk' c.1) cs
        × Grows disk disk'
  unfolding commit_components
  components-Holds source (err f) disk disk' laws h = cc
  components-Holds source (ok cs) disk disk' laws h =
      let (all, grown) = commit_each-Holds source cs disk disk' laws h in (cs, refl, all, grown)
