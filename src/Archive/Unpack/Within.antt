-- ===== src/Archive/Unpack/Within.antt =====
-- internal/archive/extract.go: where an entry's target stands.
use mathlib.Core.List.{reverse, reverse-reverse}
use mathlib.Core.Bool.{false≢true}
use ocidoc_go.Base.{
  ◌≡◌, ◌≢◌, refl, sym, ap, subst, ◌∙◌, true, false, ◌==◌, List, [], ◌∷◌, ◌++◌, Text, codes,
  is_empty, text_eq, text_eq_self, text_eq_iff, has_prefix, split, join, All, All-append, arith,
  none, Bool-cases, inl, inr, onto_first, join-split, append_of_has_prefix, split-ne-nil, ℕ, ◌↔◌,
  ◌⊎◌, Option, some, ◌||◌, ok,
}
use ocidoc_go.Unicode.{CaseTables}
use ocidoc_go.GoPath.{
  clean_step, clean_from, is_abs, elements, clean, join_paths, rel_elements, rel,
}
use ocidoc_go.GoPath.Rooted.{join_paths-is_abs}
use ocidoc_go.GoPath.Below.{Below, Stays, rel-Stays}
use ocidoc_go.GoPath.Clean.{IsNormal, clean_from-IsNormal, rel_elements-append}
use ocidoc_go.Spec.BundlePath.{validate_bundle_path}
use ocidoc_go.Spec.BundlePath.Safety.{accepted-clean}
use ocidoc_go.Archive.{ExtractOptions, TarEntry, sanitize_extract_path}
use ocidoc_go.Archive.Extract.{FileSystem, ExtractError, escapes, is_within_root, extract_file}
use ocidoc_go.Archive.Unpack.{for_entry, write_entry}

onto_first-append :
    (c : ℕ) (ps qs : List Text) → ps ≢ [] → onto_first c (ps ++ qs) ≡ onto_first c ps ++ qs
onto_first-append c [] qs h = absurd (h refl)
onto_first-append c (p ∷ ps) qs h = refl

split-append : (b : ℕ) (x y : Text) → split b (x ++ b ∷ y) ≡ split b x ++ split b y
unfolding split
split-append b [] y = ground arith
split-append b (c ∷ x) y = elim (Bool-cases (c == b)) [
  | inl e ↦ rw e (ap (λ ps. [] ∷ ps) (split-append b x y))
  | inr n ↦ rw n (
      ap (onto_first c) (split-append b x y)
      ∙ onto_first-append c (split b x) (split b y) (split-ne-nil b x))
]

is_empty-split : (b : ℕ) (x : Text) → is_empty (split b x) ≡ false
is_empty-split b x = go (split b x) (split-ne-nil b x)
  where
    go : (ps : List Text) → ps ≢ [] → is_empty ps ≡ false
    go [] h = absurd (h refl)
    go (p ∷ ps) h = refl

-- The elements of an absolute path whose parts are ordinary.
elements_lem : (p : Text) → All IsNormal (split b'/' p) → elements (b'/' ∷ p) ≡ split b'/' p
unfolding elements split is_abs has_prefix clean_from clean_step
elements_lem p h =
    ap reverse (clean_from-IsNormal true (split b'/' p) [] h) ∙ reverse-reverse (split b'/' p)

clean_lem : (p : Text) → All IsNormal (split b'/' p) → clean (b'/' ∷ p) ≡ b'/' ∷ p
unfolding clean is_abs has_prefix
clean_lem p h =
    ap (λ ps. b'/' ∷ join b'/' ps) (elements_lem p h) ∙ ap (λ t. b'/' ∷ t) (join-split b'/' p)

no_parent : {A : Type 0} (rest : List Text) → All IsNormal (codes ".." ∷ rest) → A
no_parent rest h = absurd (false≢true (sym h.0.not_dot_dot ∙ text_eq_self (codes "..")))

not_above : (name : Text) → All IsNormal (split b'/' name) → text_eq name (codes "..") ≡ false
unfolding split
not_above name h = elim (Bool-cases (text_eq name (codes ".."))) [
  | inr n ↦ n
  | inl e ↦
      no_parent []
        (subst (λ t. All IsNormal (split b'/' t)) ((text_eq_iff name (codes "..")).0 e) h)
]

not_below_parent :
    (name : Text) → All IsNormal (split b'/' name) → has_prefix name (codes "../") ≡ false
unfolding split
not_below_parent name h = elim (Bool-cases (has_prefix name (codes "../"))) [
  | inr n ↦ n
  | inl e ↦
      let (r, same) = append_of_has_prefix name (codes "../") e in
      no_parent (split b'/' r) (subst (λ t. All IsNormal (split b'/' t)) same h)
]

not_empty : (name : Text) → All IsNormal (split b'/' name) → is_empty name ≡ false
unfolding split
not_empty [] h = absurd (false≢true (sym h.0.not_empty))
not_empty (c ∷ name) h = refl

join_paths_lem :
    (p name : Text)
    → All IsNormal (split b'/' (p ++ b'/' ∷ name))
    → is_empty name ≡ false
    → join_paths (b'/' ∷ p) name ≡ b'/' ∷ (p ++ b'/' ∷ name)
unfolding join_paths
join_paths_lem p name h full = rw full (clean_lem (p ++ b'/' ∷ name) h)

-- The target of a valid name is the name below the destination, as it is spelt.
target_lem :
    (u : CaseTables) (p name : Text)
    → All IsNormal (split b'/' p)
    → validate_bundle_path u name ≡ none
    → (join_paths (b'/' ∷ p) name ≡ b'/' ∷ (p ++ b'/' ∷ name))
      × (is_within_root (b'/' ∷ p) (join_paths (b'/' ∷ p) name) ≡ true)
unfolding is_within_root rel
target_lem u p name h valid =
    let (relative, normal, _) = accepted-clean u name valid in
    let both : All IsNormal (split b'/' (p ++ b'/' ∷ name)) =
      subst (All IsNormal) (sym (split-append b'/' p name))
        (All-append IsNormal (split b'/' p) (split b'/' name) h normal) in
    let target = join_paths_lem p name both (not_empty name normal) in
    let parts : rel_elements (elements (b'/' ∷ p)) (elements (b'/' ∷ (p ++ b'/' ∷ name)))
        ≡ split b'/' name =
      rw (elements_lem p h, elements_lem (p ++ b'/' ∷ name) both, split-append b'/' p name)
        (rel_elements-append (split b'/' p) (split b'/' name)) in
    let below : rel (b'/' ∷ p) (b'/' ∷ (p ++ b'/' ∷ name)) ≡ name =
      rw (parts, is_empty-split b'/' name) (join-split b'/' name) in
    (
      target,
      rw (target, below, not_above name normal, not_below_parent name normal, relative) ground
          arith,
    )

sanitized_name :
    {F : Type 0} (u : CaseTables) (name clean : Text)
    → sanitize_extract_path {F = F} u name ≡ ok clean
    → (validate_bundle_path u name ≡ none) × (clean ≡ name)
unfolding sanitize_extract_path
sanitized_name u name clean h = ground arith

-- What the check says of a path that stays, and of one that goes up.
is_within_root-here :
    (root target : Text) → rel root target ≡ codes "." → is_within_root root target ≡ true
unfolding is_within_root text_eq
is_within_root-here root target here = rw here refl

is_within_root-up :
    (root target : Text)
    → text_eq (rel root target) (codes ".") ≡ false
    → (text_eq (rel root target) (codes "..") || has_prefix (rel root target) (codes "../")) ≡ true
    → is_within_root root target ≡ false
unfolding is_within_root
is_within_root-up root target elsewhere up = ground (arith, elsewhere, up)

is_within_root-Stays :
    (root target : Text) → Stays (rel root target) → is_within_root root target ≡ true
unfolding is_within_root
is_within_root-Stays root target (not_up, not_far, not_abs) =
    ground (arith, not_up, not_far, not_abs)

-- The check of an absolute target: its first elements are those of the destination.
is_within_root_iff :
    (root target : Text)
    → is_abs target ≡ true
    → (is_within_root root target ≡ true) ↔ Below (elements root) (elements target)
is_within_root_iff root target rooted = elim (rel-Stays root target rooted) [
  | inl (below, inl here) ↦ (λ _. below, λ _. is_within_root-here root target here)
  | inl (below, inr stay) ↦ (λ _. below, λ _. is_within_root-Stays root target stay)
  | inr (outside, (elsewhere, up)) ↦ (
    λ h. absurd (false≢true (sym (is_within_root-up root target elsewhere up) ∙ h)),
    λ below. absurd (outside below),
  )
]

module _ {S F : Type 0} (fs : FileSystem S F) (u : CaseTables) (opts : ExtractOptions) (st : S)
    (e : TarEntry F) where
  -- An entry whose target is below the destination is written to it; any other one is refused, and
  -- then nothing is changed.
  abbrev pub IsConfined : Text → S × Option (ExtractError F) → Type 0
  IsConfined root done =
      (Below (elements root) (elements (join_paths root e.name))
        × (done ≡ for_entry e.name (extract_file fs st (join_paths root e.name) e opts.overwrite)))
      ⊎ ((¬ Below (elements root) (elements (join_paths root e.name)))
          × (done ≡ (st, some (escapes e.name))))

  -- Whatever the name of an entry, below an absolute destination exactly one of two things happens:
  -- either the first elements of its cleaned target are those of the destination, and the entry is
  -- written to that target, or they are not, and the entry is refused with the error that it escapes,
  -- the file system as it was.
  pub write_entry-IsConfined :
      (root : Text) → is_abs root ≡ true → IsConfined root (write_entry fs u opts root st e)
  unfolding write_entry
  write_entry-IsConfined root rooted =
      let target = join_paths root e.name in
      let within = is_within_root_iff root target (join_paths-is_abs root e.name rooted) in
      elim (Bool-cases (is_within_root root target)) [
        | inl yes_within ↦ inl (within.0 yes_within, rw yes_within refl)
        | inr no_within ↦
            inr (λ below. false≢true (sym no_within ∙ within.1 below), rw no_within refl)
      ]

  -- If a destination is an absolute path of ordinary elements and the name of an entry is
  -- sanitized without an error, then the name is left as it is, and the entry is not refused but
  -- written to the path that is spelt as the destination followed by the name.
  pub write_entry-sanitized :
      (p name : Text)
      → All IsNormal (split b'/' p)
      → sanitize_extract_path {F = F} u e.name ≡ ok name
      → (name ≡ e.name)
        × (write_entry fs u opts (b'/' ∷ p) st e
            ≡ for_entry e.name (extract_file fs st (b'/' ∷ (p ++ b'/' ∷ e.name)) e opts.overwrite))
  unfolding write_entry
  write_entry-sanitized p name h sanitized =
      let (valid, same) = sanitized_name {F = F} u e.name name sanitized in
      let (target, within) = target_lem u p e.name h valid in (same, rw (within, target) refl)
