-- ===== src/Artifact/Diff.antt =====
-- artifact/diff.go: changed annotations, and changed files of a component. Go maps are lists of
-- keys and values here, read at the first entry of a key.
pub mod Keys
pub mod Changes
pub mod Report
use ocidoc_go.Base.{
  sort_texts, Bool, true, false, not, ◌&&◌, ◌||◌, Option, none, some, List, [], ◌∷◌, ◌++◌, map,
  if◌then◌else◌, any, Text, text_eq, ℤ, pos,
}
use ocidoc_go.Oci.{int_eq}
use ocidoc_go.Archive.Scan.{ScanEntry}

pub record AnnotationDiff : Type 0 where
  pub key : Text
  pub before : Text
  pub after : Text
  pub before_set : Bool
  pub after_set : Bool

pub data FileChange : Type 0 where
  file_added : FileChange
  file_removed : FileChange
  file_modified : FileChange

pub record FileDiff : Type 0 where
  pub path : Text
  pub change : FileChange
  pub size_before : ℤ
  pub size_after : ℤ

module _ {V : Type 0} where
  -- `v, ok := m[k]`
  unfoldable pub lookup : Text → List (Text × V) → Option V
  lookup k [] = none
  lookup k ((j, v) ∷ rest) = let found = lookup k rest in if text_eq j k then some v else found

  unfoldable pub key_list : List (Text × V) → List Text
  key_list [] = []
  key_list ((k, v) ∷ rest) = k ∷ key_list rest

-- Each text once: the keys of a Go map that the texts were put into.
unfoldable pub distinct : List Text → List Text
distinct [] = []
distinct (t ∷ ts) = let rest = distinct ts in if any (text_eq t) ts then rest else t ∷ rest

unfoldable pub union_keys : {V : Type 0} → List (Text × V) → List (Text × V) → List Text
union_keys a b = sort_texts (distinct (key_list a ++ key_list b))

-- The loop that appends what `f` finds at each key.
unfoldable pub collect : {D : Type 0} → (Text → Option D) → List Text → List D
collect f [] = []
collect f (k ∷ ks) = let rest = collect f ks in elim (f k) [ none ↦ rest | some d ↦ d ∷ rest ]

unfoldable pub is_set : {V : Type 0} → Option V → Bool
is_set none = false
is_set (some v) = true

unfoldable pub value_or_empty : Option Text → Text
value_or_empty none = []
value_or_empty (some v) = v

-- `a == b` on Booleans.
unfoldable pub same_bool : Bool → Bool → Bool
same_bool true b = b
same_bool false b = not b

-- The body of the loop of `diffAnnotations`, for what the two maps hold at the key.
unfoldable pub annotation_change : Text → Option Text → Option Text → Option AnnotationDiff
annotation_change k b a =
    if text_eq (value_or_empty b) (value_or_empty a) && same_bool (is_set b) (is_set a)
    then none
    else some (record {
      key = k;
      before = value_or_empty b;
      after = value_or_empty a;
      before_set = is_set b;
      after_set = is_set a;
    })

unfoldable pub diff_annotations : List (Text × Text) → List (Text × Text) → List AnnotationDiff
diff_annotations before after =
    collect (λ k. annotation_change k (lookup k before) (lookup k after)) (union_keys before after)

-- The body of the loop of `diffComponentFiles`.
unfoldable pub file_change : Text → Option ScanEntry → Option ScanEntry → Option FileDiff
file_change p none none = none
file_change p (some x) none =
    some (record { path = p; change = file_removed; size_before = x.size; size_after = pos 0 })
file_change p none (some y) =
    some (record { path = p; change = file_added; size_before = pos 0; size_after = y.size })
file_change p (some x) (some y) =
    if not (int_eq x.size y.size) || not (text_eq x.digest y.digest)
    then some
        (record { path = p; change = file_modified; size_before = x.size; size_after = y.size })
    else none

-- `sizes[f.Name] = f` for each file: the last one of a name counts.
unfoldable pub by_name : List ScanEntry → List (Text × ScanEntry) → List (Text × ScanEntry)
by_name [] sizes = sizes
by_name (f ∷ fs) sizes = by_name fs ((f.name, f) ∷ sizes)

-- `diffComponentFiles` on the two scans; a component that is not there has no files.
unfoldable pub diff_component_files : List ScanEntry → List ScanEntry → List FileDiff
diff_component_files a b =
    collect (λ p. file_change p (lookup p (by_name a [])) (lookup p (by_name b [])))
      (union_keys (by_name a []) (by_name b []))
