-- ===== src/GoPath.antt =====
-- Package `path` of Go's standard library, and `path/filepath` where the separator is a slash:
-- lexical operations on slash-separated paths.
pub mod Clean
pub mod Rooted
pub mod Below
use mathlib.Core.List.{reverse}
use ocidoc_go.Base.{
  ◌≡◌, Bool, true, false, ◌||◌, not, Option, none, some, List, [], ◌∷◌, ◌++◌, if◌then◌else◌, Text,
  codes, is_empty, text_eq, has_prefix, split, join, from_last, map,
}

-- One element against the elements kept so far, the last one first.
unfoldable pub clean_step : Bool → Text → List Text → List Text
clean_step rooted seg kept =
    if is_empty seg || text_eq seg (codes ".")
    then kept
    else if not (text_eq seg (codes ".."))
    then seg ∷ kept
    else elim kept [
      | [] ↦ if rooted then [] else codes ".." ∷ []
      | last ∷ others ↦ if text_eq last (codes "..") then codes ".." ∷ last ∷ others else others
    ]

unfoldable pub clean_from : Bool → List Text → List Text → List Text
clean_from rooted [] kept = kept
clean_from rooted (seg ∷ segs) kept = clean_from rooted segs (clean_step rooted seg kept)

unfoldable pub is_abs : Text → Bool
is_abs p = has_prefix p (codes "/")

-- The elements of `Clean(p)`.
unfoldable pub elements : Text → List Text
elements p = reverse (clean_from (is_abs p) (split b'/' p) [])

-- `Clean(p)`
unfoldable pub clean : Text → Text
clean p =
    if is_abs p
    then b'/' ∷ join b'/' (elements p)
    else if is_empty (elements p)
    then codes "."
    else join b'/' (elements p)

-- `Join(a, b)`: empty elements are left out.
unfoldable pub join_paths : Text → Text → Text
join_paths a b =
    if is_empty a
    then (if is_empty b then [] else clean b)
    else if is_empty b
    then clean a
    else clean (a ++ b'/' ∷ b)

-- `Rel(base, target)` between cleaned absolute paths, as elements: a `..` for each element of
-- `base` behind the common ones, and the rest of `target`.
unfoldable pub rel_elements : List Text → List Text → List Text
rel_elements [] ts = ts
rel_elements (b ∷ bs) [] = map (λ _. codes "..") (b ∷ bs)
rel_elements (b ∷ bs) (t ∷ ts) =
    let same = rel_elements bs ts in
    if text_eq b t then same else map (λ _. codes "..") (b ∷ bs) ++ t ∷ ts

unfoldable pub rel : Text → Text → Text
rel base target =
    let parts = rel_elements (elements base) (elements target) in
    if is_empty parts then codes "." else join b'/' parts
