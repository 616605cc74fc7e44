-- ===== src/PathPlan/Ownership.antt =====
-- internal/pathplan/plan.go: ownerships.
use ocidoc_go.Base.{
  sort_texts, ◌≡◌, refl, Option, none, some, List, [], ◌∷◌, ◌++◌, if◌then◌else◌, Text, text_eq,
  text_eq_iff, arith,
}

abbrev pub Ownership : Type 0
Ownership = List (Text × List Text)

-- `files, owned := ownership[component]`
unfoldable pub entry : Ownership → Text → Option (List Text)
entry [] c = none
entry ((d, ps) ∷ rest) c = let found = entry rest c in if text_eq d c then some ps else found

-- `ownership[component]`
unfoldable pub files_of : Ownership → Text → List Text
files_of ow c = elim (entry ow c) [ none ↦ [] | some ps ↦ ps ]

-- `ownership[component] = append(ownership[component], path)`
unfoldable pub own : Ownership → Text → Text → Ownership
own [] c p = (c, p ∷ []) ∷ []
own ((d, ps) ∷ rest) c p =
    let others = own rest c p in if text_eq d c then (d, ps ++ p ∷ []) ∷ rest else (d, ps) ∷ others

unfoldable pub sort_files : Ownership → Ownership
sort_files [] = []
sort_files ((c, ps) ∷ rest) = (c, sort_texts ps) ∷ sort_files rest

unfoldable pub all_paths : Ownership → List Text
all_paths [] = []
all_paths ((c, ps) ∷ rest) = ps ++ all_paths rest

pub files_of-own :
    (ow : Ownership) (c p d : Text)
    → files_of (own ow c p) d ≡ (if text_eq c d then files_of ow d ++ p ∷ [] else files_of ow d)
unfolding files_of entry own
files_of-own [] c p d = ground arith
files_of-own ((e, ps) ∷ rest) c p d =
    ground (arith, files_of-own rest c p d, text_eq_iff e c, text_eq_iff e d, text_eq_iff c d)

pub files_of-sort_files :
    (ow : Ownership) (c : Text) → files_of (sort_files ow) c ≡ sort_texts (files_of ow c)
unfolding files_of entry sort_files sort_texts
files_of-sort_files [] c = refl
files_of-sort_files ((d, ps) ∷ rest) c = ground (arith, files_of-sort_files rest c)
