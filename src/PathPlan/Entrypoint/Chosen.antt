-- ===== src/PathPlan/Entrypoint/Chosen.antt =====
-- Which entrypoints are chosen.
use ocidoc_go.Base.{
  ◌≡◌, inl, inr, refl, sym, ap, subst, ◌∙◌, Bool, true, false, not, ◌||◌, Option, none, some, List,
  [], ◌∷◌, ◌++◌, if◌then◌else◌, Text, codes, any, text_eq, text_eq_iff, any-text_eq_iff,
  trim_prefix, ok, ◌>>=◌, ok_inj, through, arith, In, In-append, Bool-cases, All, All-of,
  All-append, map, ◌&&◌,
}
use ocidoc_go.PathPlan.Ownership.{Ownership, entry}
use ocidoc_go.PathPlan.Entrypoint.{
  matches_entrypoint_candidate, first_file, first_match, entrypoints_for, is_text_document,
  detect_entrypoint, check_explicit, explicit_entrypoints, explicitly_set, detected_entrypoints,
  resolve_entrypoints,
}

-- The outcome of a search: a file that passes, or none does.
abbrev pub Found : (Text → Bool) → List Text → Option Text → Type 0
Found test files none = All (λ p. test p ≡ false) files
Found test files (some p) = In p files × (test p ≡ true)

module _ (f g : Text → Bool) where
  All-or :
      (files : List Text)
      → All (λ p. f p ≡ false) files
      → All (λ p. g p ≡ false) files
      → All (λ p. (f p || g p) ≡ false) files
  All-or [] hf hg = tt
  All-or (p ∷ ps) hf hg = (ground (arith, hf.0, hg.0), All-or ps hf.1 hg.1)

  -- A search for what passes `f`, and else for what passes `g`.
  Found-or_else :
      (files : List Text) (first second : Option Text)
      → Found f files first
      → Found g files second
      → Found (λ p. f p || g p) files (elim first [ some p ↦ some p | none ↦ second ])
  Found-or_else files (some p) second (m, e) h2 = (m, rw e refl)
  Found-or_else files none none h1 h2 = All-or files h1 h2
  Found-or_else files none (some p) h1 (m, e) = (m, ground (arith, e))

first_file-Found :
    (test : Text → Bool) (files : List Text) → Found test files (first_file test files)
unfolding first_file
first_file-Found test [] = tt
first_file-Found test (p ∷ ps) = elim (Bool-cases (test p)) [
  | inl e ↦ rw e (inl refl, e)
  | inr n ↦ rw n (later (first_file test ps) n (first_file-Found test ps))
]
  where
    later : (o : Option Text) → test p ≡ false → Found test ps o → Found test (p ∷ ps) o
    later none n h = (n, h)
    later (some q) n (m, e) = (inr m, e)

-- A file that is a candidate's.
abbrev pub is_candidate : List Text → Text → Bool
is_candidate cs p = any (λ c. matches_entrypoint_candidate c p) cs

first_match-Found : (cs files : List Text) → Found (is_candidate cs) files (first_match cs files)
unfolding first_match
first_match-Found [] files = All-of (λ p. false ≡ false) files (λ p m. refl)
first_match-Found (c ∷ cs) files =
    Found-or_else (matches_entrypoint_candidate c) (is_candidate cs) files
      (first_file (matches_entrypoint_candidate c) files) (first_match cs files)
      (first_file-Found (matches_entrypoint_candidate c) files) (first_match-Found cs files)

-- A file that can be a component's entrypoint without being declared one.
abbrev pub is_eligible : Text → Text → Bool
is_eligible component p =
    is_candidate (entrypoints_for component) p
    || (text_eq component (codes "documentation") && is_text_document p)

-- A detected entrypoint is one of the files, and is a candidate of the component, or a text document
-- of the documentation; if none is detected, then no file is either.
pub detect_entrypoint-Found :
    (component : Text) (files : List Text)
    → Found (is_eligible component) files (detect_entrypoint component files)
unfolding detect_entrypoint
detect_entrypoint-Found component files =
    Found-or_else (is_candidate (entrypoints_for component))
      (λ p. text_eq component (codes "documentation") && is_text_document p) files
      (first_match (entrypoints_for component) files)
      (if not (text_eq component (codes "documentation"))
        then none
        else first_file is_text_document files)
      (first_match-Found (entrypoints_for component) files)
      (elim (Bool-cases (text_eq component (codes "documentation"))) [
        | inl e ↦ rw e (first_file-Found is_text_document files)
        | inr n ↦ rw n (All-of (λ p. false ≡ false) files (λ p m. refl))
      ])

-- An entry of the result names a file of its component.
abbrev pub IsPlanned : Ownership → Text × Text → Type 0
IsPlanned ow r = (files : List Text) × In (r.0, files) ow × In r.1 files

entry-In :
    (ow : Ownership) (c : Text) (files : List Text) → entry ow c ≡ some files → In (c, files) ow
unfolding entry
entry-In [] c files h = cc
entry-In ((d, ps) ∷ rest) c files h = ground (arith, text_eq_iff d c, entry-In rest c files)

checked :
    (ow : Ownership) (c p q : Text) (o : Option (List Text))
    → entry ow c ≡ o
    → check_explicit c p o ≡ ok q
    → (q ≡ trim_prefix p (codes "/")) × IsPlanned ow (c, q)
checked ow c p q none e h = cc
checked ow c p q (some files) e h =
    let (there, same) = picked in
    (
      sym same,
      (
        files,
        entry-In ow c files e,
        subst (λ q. In q files) same ((any-text_eq_iff (trim_prefix p (codes "/")) files).0 there),
      ),
    )
  where
    picked :
        (any (text_eq (trim_prefix p (codes "/"))) files ≡ true) × (trim_prefix p (codes "/") ≡ q)
    picked = ground arith

-- What `explicit_entrypoints` makes of one entry.
abbrev pub bundled : Text × Text → Text × Text
bundled r = (r.0, trim_prefix r.1 (codes "/"))

explicit-planned :
    (ow : Ownership) (explicit result : List (Text × Text))
    → explicit_entrypoints ow explicit ≡ ok result
    → All (IsPlanned ow) result × (result ≡ map bundled explicit)
unfolding explicit_entrypoints
explicit-planned ow [] result h = subst (λ r. All (IsPlanned ow) r × (r ≡ [])) (ok_inj h) (tt, refl)
explicit-planned ow ((c, p) ∷ rest) result h =
    let (q, here, h1) =
      through (λ q. explicit_entrypoints ow rest >>= λ others. ok ((c, q) ∷ others)) result
        (check_explicit c p (entry ow c)) h in
    let (others, later, same) =
      through (λ others. ok ((c, q) ∷ others)) result (explicit_entrypoints ow rest) h1 in
    let (trimmed, planned) = checked ow c p q (entry ow c) refl here in
    let (all, mapped) = explicit-planned ow rest others later in
    subst (λ r. All (IsPlanned ow) r × (r ≡ map bundled ((c, p) ∷ rest))) (ok_inj same)
      ((planned, all), ap (λ q. (c, q) ∷ others) trimmed ∙ ap (λ xs. bundled (c, p) ∷ xs) mapped)

-- Every entry stays, and every later one names a file of its component.
abbrev Kept : Ownership → List (Text × Text) → List (Text × Text) → Type 0
Kept ow result last = All (IsPlanned ow) last × ((r : Text × Text) → In r result → In r last)

detected-Kept :
    (ow : Ownership) (result : List (Text × Text)) (rest : Ownership)
    → All (IsPlanned ow) result
    → ((x : Text × List Text) → In x rest → In x ow)
    → Kept ow result (detected_entrypoints result rest)
unfolding detected_entrypoints
detected-Kept ow result [] planned sub = (planned, λ r m. m)
detected-Kept ow result ((c, files) ∷ rest) planned sub =
    let skipped = detected-Kept ow result rest planned (λ x m. sub x (inr m)) in
    elim (Bool-cases (explicitly_set result c)) [
      | inl e ↦ rw e skipped
      | inr n ↦ rw n (
          go (detect_entrypoint c files) (detect_entrypoint-Found c files) skipped
            (λ result' planned'. detected-Kept ow result' rest planned' (λ x m. sub x (inr m))))
    ]
  where
    go :
        (o : Option Text)
        → Found (is_eligible c) files o
        → Kept ow result (detected_entrypoints result rest)
        → ((result' : List (Text × Text))
            → All (IsPlanned ow) result'
            → Kept ow result' (detected_entrypoints result' rest))
        → Kept ow result (elim o [
          | none ↦ detected_entrypoints result rest
          | some p ↦ detected_entrypoints (result ++ (c, p) ∷ []) rest
        ])
    go none found skipped grown = skipped
    go (some p) found skipped grown =
        let (all, stay) = grown (result ++ (c, p) ∷ []) (
          All-append (IsPlanned ow) result ((c, p) ∷ []) planned
            ((files, sub (c, files) (inl refl), found.0), tt)) in
        (all, λ r m. stay r ((In-append r result ((c, p) ∷ [])).1 (inl m)))

-- If entrypoints are resolved, then each of them is one of the files that the ownership lists for its
-- component, and each explicit entrypoint, without its leading slash, is among them.
pub resolve_entrypoints-IsPlanned :
    (ow : Ownership) (explicit result : List (Text × Text))
    → resolve_entrypoints ow explicit ≡ ok result
    → All (IsPlanned ow) result × ((r : Text × Text) → In r (map bundled explicit) → In r result)
unfolding resolve_entrypoints
resolve_entrypoints-IsPlanned ow explicit result h =
    let (found, checked, same) =
      through (λ result. ok (detected_entrypoints result ow)) result
        (explicit_entrypoints ow explicit) h in
    let (planned, mapped) = explicit-planned ow explicit found checked in
    let (all, stay) = detected-Kept ow found ow planned (λ x m. m) in
    (
      subst (All (IsPlanned ow)) (ok_inj same) all,
      λ r m. subst (In r) (ok_inj same) (stay r (subst (In r) (sym mapped) m)),
    )
