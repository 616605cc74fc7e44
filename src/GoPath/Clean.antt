-- ===== src/GoPath/Clean.antt =====
-- Lexical facts: ordinary elements are left alone by `clean`, and stay below what they are joined to.
use mathlib.Core.List.{reverse_aux, reverse-reverse}
use ocidoc_go.Base.{
  ◌≡◌, ◌≢◌, refl, Bool, false, List, [], ◌∷◌, ◌++◌, Text, codes, is_empty, text_eq, text_eq_self,
  split, join-split, split-ne-nil, All,
}
use ocidoc_go.GoPath.{clean_step, clean_from, is_abs, elements, clean, rel_elements}

-- An element that names something: not empty, `.` or `..`.
pub record IsNormal (seg : Text) : Type 0 where
  pub not_empty : is_empty seg ≡ false
  pub not_dot : text_eq seg (codes ".") ≡ false
  pub not_dot_dot : text_eq seg (codes "..") ≡ false

pub clean_from-IsNormal :
    (rooted : Bool) (segs kept : List Text)
    → All IsNormal segs
    → clean_from rooted segs kept ≡ reverse_aux segs kept
unfolding clean_from clean_step
clean_from-IsNormal rooted [] kept h = refl
clean_from-IsNormal rooted (seg ∷ segs) kept h =
    rw (h.0.not_empty, h.0.not_dot, h.0.not_dot_dot, clean_step)
      (clean_from-IsNormal rooted segs (seg ∷ kept) h.1)

elements-IsNormal : (p : Text) → All IsNormal (split b'/' p) → elements p ≡ split b'/' p
unfolding elements
elements-IsNormal p h =
    rw (clean_from-IsNormal (is_abs p) (split b'/' p) [] h) (reverse-reverse (split b'/' p))

is_empty_of_ne_nil : (segs : List Text) → segs ≢ [] → is_empty segs ≡ false
is_empty_of_ne_nil [] h = absurd (h refl)
is_empty_of_ne_nil (seg ∷ segs) h = refl

-- A relative path of ordinary elements is its own lexical normal form.
pub clean-IsNormal : (p : Text) → is_abs p ≡ false → All IsNormal (split b'/' p) → clean p ≡ p
unfolding clean
clean-IsNormal p relative h =
    rw (relative, elements-IsNormal p h, is_empty_of_ne_nil _ (split-ne-nil b'/' p))
      (join-split b'/' p)

-- From a directory to one of its descendants, `Rel` is the path below the directory.
pub rel_elements-append : (bs ts : List Text) → rel_elements bs (bs ++ ts) ≡ ts
unfolding rel_elements
rel_elements-append [] ts = refl
rel_elements-append (b ∷ bs) ts = rw (text_eq_self b) (rel_elements-append bs ts)
