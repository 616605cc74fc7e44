-- ===== src/Lib.antt =====
-- A model of ocidoc-go: documentation bundles as OCI artifacts, checked, stored and published.
--
-- The parts, and how they interact. spec says which paths, names, locales and configs are valid; all
-- other packages call it before they act. internal/ociblob checks descriptors and content of blobs,
-- and internal/orasrepo classifies the failures of a remote registry. registry finds the artifacts
-- attached to a subject, by a documentation tag and by the list of referrers, and prunes superseded
-- ones. store keeps documents in a local OCI layout with a catalog beside it, and removes blobs that
-- no document reaches. internal/archive reads the tar streams of components under limits, and writes
-- their files below a directory. internal/pathplan says which component owns which file of a source
-- tree. artifact compares two artifacts.
--
-- Which file models which part.
-- - Base: results, lists, permutations, signed numbers and texts that the parts share.
-- - Unicode: the functions of the Unicode tables that the code calls; the tables are an argument.
-- - GoPath: path.Clean, path.Join and filepath.Rel of Go, for slash-separated paths; GoPath.Clean,
--   GoPath.Rooted and GoPath.Below have their lexical facts.
-- - Spec.Errors, Spec.BundlePath, Spec.Locales, Spec.Configs: spec/errors.go, spec/validate.go,
--   spec/validate_buildconfig.go, spec/config.go (ValidateBundlePath, ValidateArtifactLocales,
--   ValidateBuildConfig and the others).
-- - Spec.BundleTree: spec/paths.go (ValidateBundlePaths and its tree of segments).
-- - Spec.Component: spec/component.go. Spec.Settings: spec/settings.go and spec/mediatypes.go.
-- - Oci: the values of go-digest and of the OCI image specification, as records.
-- - OciBlob: internal/ociblob/blob.go; OciBlob.Stream: internal/ociblob/verify_reader.go.
-- - Registry.Errors: registry/errors.go and internal/orasrepo/errors.go. Registry.Fetch: fetchBlob of
--   registry/pull.go. Registry.Discovery, Registry.Lookup, Registry.Selection: registry/discovery.go.
--   Registry.Prune: registry/prune.go.
-- - Store: the files of a store, and reads of store/catalog.go, store/maintenance.go, store/reader.go.
--   Store.Prune: Prune of store/maintenance.go. Store.Verify: Verify of the same file. Store.Remove:
--   store/remove.go. Store.Catalog: store/catalog.go and recordDocument of store/commit.go.
--   Store.Commit: Commit of store/commit.go, over the content operations of the OCI store.
-- - Archive: options and errors of internal/archive, drain.go. Archive.Scan: scan.go. Archive.Extract:
--   extractFile and the path checks of extract.go, on a file system that is a parameter.
--   Archive.Unpack: ExtractContext.
-- - Spec.PathKind: IsMarkdownPath and IsDocumentPath of spec/paths.go.
-- - PathPlan.Compile: internal/pathplan/matchers.go. PathPlan.Ownership and PathPlan.Plan: plan.go.
--   PathPlan.Entrypoint: entrypoint.go. PathPlan.Dependencies: dependencies.go.
-- - Artifact.Diff: diffAnnotations and diffComponentFiles of artifact/diff.go; Artifact.Diff.Report:
--   Diff, diffLocales and diffComponents, over the reading operations of two artifacts.
-- Proofs stand in the child modules, runs on concrete inputs in the modules named Tests.
--
-- How the code is modelled. A Go string is the list of its bytes. A Go map is a list, in the order
-- in which the code meets its keys; a theorem holds for each order. An error is a constructor with
-- the values that its message shows; errors.Is reads the sentinels in it. A function that returns
-- only an error returns an Option of it. A size is an integer: the code compares sizes and counts up
-- to content that is read, which an int64 holds. Loops are recursion on the list they run over; only
-- the waves of DiscoverDependencies run on fuel, and one unit more than the tree has paths is
-- enough. A tar stream is the list of its entries and the reads behind its end. The code of other
-- packages is a parameter: oras-go as a record of its operations, JSON as functions from and to
-- bytes, go-digest as the record Digests, pathrules as the record PathRules, reflect.DeepEqual on
-- subjects as a function, package os and internal/sourcepath as records of their calls, the removal
-- of a file as a function that may fail, and so are the three steps that write the catalog: the
-- temporary file is created, written and renamed, and the old catalog stays if one of them fails.
-- The two lookups of Discover run at once in the code; they only read, so each gives here what it
-- gives alone. The store takes an exclusive lock for each operation; here an operation is one step.
--
-- What is not modelled: the walk of internal/sourcepath and the writing of tar streams, the building
-- and verifying of artifacts, attaching, copying and pulling, and the reader of a stored document,
-- which are mostly calls of the file system and of a registry; transport, credentials, compression
-- and atomic files, which are calls of other packages.
pub mod Archive
pub mod Artifact
pub mod Base
pub mod GoPath
pub mod Oci
pub mod OciBlob
pub mod PathPlan
pub mod Registry
pub mod Spec
pub mod Store
pub mod Unicode
