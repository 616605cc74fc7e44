-- ===== src/Artifact/Diff/Changes.antt =====
-- An empty diff says that nothing differs.
use ocidoc_go.Base.{◌≡◌, ◌↔◌, refl, Option, none, some, List, [], Text, text_eq, text_eq_iff, arith}
use ocidoc_go.Oci.{int_eq_iff}
use ocidoc_go.Archive.Scan.{ScanEntry}
use ocidoc_go.Artifact.Diff.{
  lookup, is_set, value_or_empty, same_bool, annotation_change, diff_annotations, file_change,
  by_name, diff_component_files,
}
use ocidoc_go.Artifact.Diff.Keys.{union-eq-nil}

annotation_change-eq-none :
    (k : Text) (b a : Option Text) → (annotation_change k b a ≡ none) ↔ (b ≡ a)
unfolding annotation_change value_or_empty is_set same_bool text_eq
annotation_change-eq-none k none none = (λ _. refl, λ _. refl)
annotation_change-eq-none k none (some y) = ground arith
annotation_change-eq-none k (some x) none = ground arith
annotation_change-eq-none k (some x) (some y) = ground (arith, text_eq_iff x y)

-- diffAnnotations reports nothing exactly when both maps hold the same at every key, absence and an
-- empty value told apart.
pub diff_annotations-eq-nil :
    (before after : List (Text × Text))
    → (diff_annotations before after ≡ []) ↔ ((k : Text) → lookup k before ≡ lookup k after)
unfolding diff_annotations
diff_annotations-eq-nil before after =
    let all =
      union-eq-nil before after annotation_change
        (λ k. (annotation_change-eq-none k none none).1 refl) in
    (
      λ h k. (annotation_change-eq-none k (lookup k before) (lookup k after)).0 (all.0 h k),
      λ h. all.1 (λ k. (annotation_change-eq-none k (lookup k before) (lookup k after)).1 (h k)),
    )

-- Two scans hold the same at a path: no file, or files of one size and digest.
abbrev pub SameFile : Option ScanEntry → Option ScanEntry → Type 0
SameFile none none = Unit
SameFile none (some y) = ⊥
SameFile (some x) none = ⊥
SameFile (some x) (some y) = (x.size ≡ y.size) × (x.digest ≡ y.digest)

file_change-eq-none :
    (p : Text) (x y : Option ScanEntry) → (file_change p x y ≡ none) ↔ SameFile x y
unfolding file_change
file_change-eq-none p none none = (λ _. tt, λ _. refl)
file_change-eq-none p none (some y) = (λ h. cc, λ h. absurd h)
file_change-eq-none p (some x) none = (λ h. cc, λ h. absurd h)
file_change-eq-none p (some x) (some y) =
    ground (arith, int_eq_iff x.size y.size, text_eq_iff x.digest y.digest)

-- diffComponentFiles reports nothing exactly when, at every path, the last entries of both scans are
-- absent on both sides or have one size and one digest.
pub diff_component_files-eq-nil :
    (a b : List ScanEntry)
    → (diff_component_files a b ≡ [])
      ↔ ((p : Text) → SameFile (lookup p (by_name a [])) (lookup p (by_name b [])))
unfolding diff_component_files
diff_component_files-eq-nil a b =
    let all =
      union-eq-nil (by_name a []) (by_name b []) file_change
        (λ p. (file_change-eq-none p none none).1 tt) in
    (
      λ h p.
          (file_change-eq-none p (lookup p (by_name a [])) (lookup p (by_name b []))).0 (all.0 h p),
      λ h. all.1 (λ p.
          (file_change-eq-none p (lookup p (by_name a [])) (lookup p (by_name b []))).1 (h p)),
    )
