-- ===== src/Registry/Lookup/Attached.antt =====
-- What the candidates of the two lookups are.
use ocidoc_go.Base.{
  text_leb, ◌≡◌, refl, sym, ap, subst, ◌∙◌, true, false, Option, none, some, List, [], ◌∷◌, Text,
  text_eq, text_eq_iff, Result, ok, err, ◌>>=◌, through, arith, inl, inr, Bool-cases, All,
}
use ocidoc_go.Oci.{Digests, Descriptor, Manifest}
use ocidoc_go.Registry.Errors.{Failure}
use ocidoc_go.Registry.Fetch.{Repository, wrapped, fetch_blob}
use ocidoc_go.Registry.Discovery.{
  DiscoverOptions, Candidate, mode_tag, mode_referrer, artifact_type, insert_candidate,
  sort_candidates, matches_selectors,
}
use ocidoc_go.Registry.Lookup.{
  for_candidate, has_subject, check_candidate, load_candidate, branch_of, tag_candidates,
  discover_tag, selected_of, is_other_type, referrer_candidates, discover_referrers, run_discovery,
}

-- A documentation artifact, attached to `subject`, that the options ask for.
abbrev pub IsAttached : Descriptor → DiscoverOptions → Candidate → Type 0
IsAttached subject opts c =
    (c.manifest.artifact_type ≡ artifact_type)
    × (has_subject c.manifest subject ≡ true)
    × (matches_selectors c opts ≡ true)

check_candidate-some :
    (desc subject : Descriptor) (m : Option Manifest) (c : Candidate)
    → check_candidate desc subject m ≡ ok (some c)
    → (c.manifest.artifact_type ≡ artifact_type) × (has_subject c.manifest subject ≡ true)
unfolding check_candidate
check_candidate-some desc subject none c h = cc
check_candidate-some desc subject (some m) c h =
    let (kind, attached, same) = passed in
    (
      ap (λ m. m.artifact_type) (sym same) ∙ kind,
      ap (λ m. has_subject m subject) (sym same) ∙ attached,
    )
  where
    passed : (m.artifact_type ≡ artifact_type) × (has_subject m subject ≡ true) × (m ≡ c.manifest)
    passed = ground (arith, text_eq_iff m.artifact_type artifact_type)

All-insert :
    (P : Candidate → Type 0) (c : Candidate) (cs : List Candidate)
    → P c
    → All P cs
    → All P (insert_candidate c cs)
unfolding insert_candidate
All-insert P c [] p ps = (p, tt)
All-insert P c (x ∷ cs) p ps =
    elim (Bool-cases (text_leb c.descriptor.digest x.descriptor.digest)) [
      | inl e ↦ rw e (p, ps)
      | inr n ↦ rw n (ps.0, All-insert P c cs p ps.1)
    ]

All-sort : (P : Candidate → Type 0) (cs : List Candidate) → All P cs → All P (sort_candidates cs)
unfolding sort_candidates
All-sort P [] ps = tt
All-sort P (c ∷ cs) ps = All-insert P c (sort_candidates cs) ps.0 (All-sort P cs ps.1)

branch-All :
    (P : Candidate → Type 0) (r : Result Failure (List Candidate))
    → ((cs : List Candidate) → r ≡ ok cs → All P cs)
    → All P (branch_of r).candidates
branch-All P (ok cs) f = f cs refl
branch-All P (err e) f = tt

unwrapped :
    {xs ys : List Candidate} → Path (Result Failure (List Candidate)) (ok xs) (ok ys) → xs ≡ ys
unwrapped e = cc

module _ (d : Digests) (parse : Text → Option Manifest) (repo : Repository) where
  load_candidate-some :
      (desc subject : Descriptor) (c : Candidate)
      → load_candidate d parse repo desc subject ≡ ok (some c)
      → (c.manifest.artifact_type ≡ artifact_type) × (has_subject c.manifest subject ≡ true)
  unfolding load_candidate
  load_candidate-some desc subject c h = go (for_candidate desc (fetch_blob d repo desc)) h
    where
      go :
          (r : Result Failure Text)
          → (do bytes ← r; check_candidate desc subject (parse bytes)) ≡ ok (some c)
          → (c.manifest.artifact_type ≡ artifact_type) × (has_subject c.manifest subject ≡ true)
      go (ok bytes) h = check_candidate-some desc subject (parse bytes) c h
      go (err f) h = cc

  selected_of-IsAttached :
      (desc subject : Descriptor) (opts : DiscoverOptions) (found : Option Candidate)
      (cs : List Candidate)
      → load_candidate d parse repo desc subject ≡ ok found
      → All (IsAttached subject opts) cs
      → All (IsAttached subject opts) (selected_of opts found cs)
  selected_of-IsAttached desc subject opts none cs h ps = ps
  selected_of-IsAttached desc subject opts (some c) cs h ps =
      let (kind, attached) = load_candidate-some desc subject c h in
      elim (Bool-cases (matches_selectors c opts)) [
        | inl e ↦ rw e ((kind, attached, e), ps)
        | inr n ↦ rw n ps
      ]

  referrer-IsAttached :
      (subject : Descriptor) (opts : DiscoverOptions) (descs : List Descriptor)
      (cs : List Candidate)
      → referrer_candidates d parse repo subject opts descs ≡ ok cs
      → All (IsAttached subject opts) cs
  unfolding referrer_candidates
  referrer-IsAttached subject opts [] cs h = subst (All (IsAttached subject opts)) none_left tt
    where
      none_left : [] ≡ cs
      none_left = cc
  referrer-IsAttached subject opts (desc ∷ descs) cs h = elim (Bool-cases (is_other_type desc)) [
    | inl e ↦ referrer-IsAttached subject opts descs cs (ground arith)
    | inr n ↦
        let (found, loaded, tail, rest, same) = parts n in
        subst (All (IsAttached subject opts)) same (
          selected_of-IsAttached desc subject opts found tail loaded
            (referrer-IsAttached subject opts descs tail rest))
  ]
    where
      opened :
          is_other_type desc ≡ false
          → (do
            found ← load_candidate d parse repo desc subject
            cs ← referrer_candidates d parse repo subject opts descs
            ok (selected_of opts found cs))
            ≡ ok cs
      opened n = ground arith

      parts :
          is_other_type desc ≡ false
          → (found : Option Candidate) × (load_candidate d parse repo desc subject ≡ ok found)
            × (tail : List Candidate) × (referrer_candidates d parse repo subject opts descs
                ≡ ok tail)
            × (selected_of opts found tail ≡ cs)
      parts n =
          let (found, loaded, later) =
            through
              (λ found. do
                cs ← referrer_candidates d parse repo subject opts descs
                ok (selected_of opts found cs))
              cs (load_candidate d parse repo desc subject) (opened n) in
          let (tail, rest, same) =
            through (λ cs. ok (selected_of opts found cs)) cs
              (referrer_candidates d parse repo subject opts descs) later in
          (found, loaded, tail, rest, unwrapped same)

  pub discover_tag-IsAttached :
      (tag : Text) (subject : Descriptor) (opts : DiscoverOptions)
      → All (IsAttached subject opts) (discover_tag d parse repo tag subject opts).candidates
  unfolding discover_tag tag_candidates
  discover_tag-IsAttached tag subject opts =
      branch-All (IsAttached subject opts) (wrapped (repo.resolve tag) >>= behind_tag) λ cs h.
        let (desc, _, loaded) = through behind_tag cs (wrapped (repo.resolve tag)) h in
        let (found, from, kept) =
          through (tag_candidates opts) cs (load_candidate d parse repo desc subject) loaded in
        tag-All desc found cs from kept
    where
      behind_tag : Descriptor → Result Failure (List Candidate)
      behind_tag desc = load_candidate d parse repo desc subject >>= tag_candidates opts

      tag-All :
          (desc : Descriptor) (found : Option Candidate) (cs : List Candidate)
          → load_candidate d parse repo desc subject ≡ ok found
          → tag_candidates opts found ≡ ok cs
          → All (IsAttached subject opts) cs
      tag-All desc none cs from kept = cc
      tag-All desc (some c) cs from kept =
          subst (All (IsAttached subject opts)) (unwrapped kept)
            (selected_of-IsAttached desc subject opts (some c) [] from tt)

  pub discover_referrers-IsAttached :
      (subject : Descriptor) (opts : DiscoverOptions)
      → All (IsAttached subject opts) (discover_referrers d parse repo subject opts).candidates
  unfolding discover_referrers
  discover_referrers-IsAttached subject opts =
      branch-All (IsAttached subject opts)
        (wrapped (repo.referrers subject artifact_type) >>= listed_all)
        λ cs h.
          let (descs, _, listed) =
            through listed_all cs (wrapped (repo.referrers subject artifact_type)) h in
          let (found, from, sorted) =
            through (λ cs. ok (sort_candidates cs)) cs
              (referrer_candidates d parse repo subject opts descs) listed in
          subst (All (IsAttached subject opts)) (unwrapped sorted) (
            All-sort (IsAttached subject opts) found
              (referrer-IsAttached subject opts descs found from))
    where
      listed_all : List Descriptor → Result Failure (List Candidate)
      listed_all descs =
          referrer_candidates d parse repo subject opts descs >>= (λ cs. ok (sort_candidates cs))

  pub run_discovery-IsAttached :
      (tag : Text) (subject : Descriptor) (opts : DiscoverOptions)
      → All (IsAttached subject opts) (run_discovery d parse repo tag subject opts).0.candidates
        × All (IsAttached subject opts) (run_discovery d parse repo tag subject opts).1.candidates
  unfolding run_discovery
  run_discovery-IsAttached tag subject opts = elim (Bool-cases (text_eq opts.mode mode_tag)) [
    | inl e ↦ rw e (discover_tag-IsAttached tag subject opts, tt)
    | inr n ↦ elim (Bool-cases (text_eq opts.mode mode_referrer)) [
      | inl e ↦ rw (n, e) (tt, discover_referrers-IsAttached subject opts)
      | inr m ↦
          rw (n, m)
            (discover_tag-IsAttached tag subject opts, discover_referrers-IsAttached subject opts)
    ]
  ]
