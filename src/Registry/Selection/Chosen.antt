-- ===== src/Registry/Selection/Chosen.antt =====
-- What is chosen: a candidate of the lookups, and the one candidate where there is no tag.
use mathlib.Core.Bool.{true≢false}
use ocidoc_go.Base.{
  ◌≡◌, subst, refl, sym, ap, ◌∙◌, Bool, true, false, not, ◌&&◌, Option, none, some, List, [], ◌∷◌,
  Text, text_eq_iff, ok, err, arith, inl, In, if◌then◌else◌,
}
use ocidoc_go.Registry.Errors.{is_temporary, Failure}
use ocidoc_go.Registry.Discovery.{referrers_failed, DiscoverOptions, Candidate, Branch, Selection}
use ocidoc_go.Registry.Selection.{
  matched, from_tag, select_only, select_single, find_digest, disagreeing,
  reconcile_tag_and_referrers, only_one, without_referrers, referrers_only,
}

pub find_digest-In :
    (t : Text) (cs : List Candidate) (c : Candidate)
    → find_digest t cs ≡ some c
    → In c cs × (c.descriptor.digest ≡ t)
unfolding find_digest
find_digest-In t [] c h = cc
find_digest-In t (x ∷ cs) c h =
    ground (arith, text_eq_iff x.descriptor.digest t, find_digest-In t cs c)

select_only-one :
    (tag referrer : Bool) (cs : List Candidate) (s : Selection)
    → select_only tag referrer cs ≡ ok s
    → (cs ≡ s.selected ∷ []) × (s.candidates ≡ cs)
unfolding select_only
select_only-one tag referrer [] s h = cc
select_only-one tag referrer (c ∷ []) s h = (cc, cc)
select_only-one tag referrer (c ∷ x ∷ cs) s h = cc

pub select_single-one :
    (b : Branch) (tag referrer : Bool) (s : Selection)
    → select_single b tag referrer ≡ ok s
    → (b.candidates ≡ s.selected ∷ []) × (s.candidates ≡ b.candidates)
unfolding select_single
select_single-one b tag referrer s h = ground (arith, select_only-one tag referrer b.candidates s)

disagreeing-one :
    (strict : Bool) (refs : List Candidate) (s : Selection)
    → disagreeing strict refs ≡ ok s
    → (strict ≡ false) × (refs ≡ s.selected ∷ []) × (s.candidates ≡ refs) × (s.in_conflict ≡ true)
unfolding disagreeing
disagreeing-one strict [] s h = cc
disagreeing-one strict (c ∷ []) s h = ground arith
disagreeing-one strict (c ∷ x ∷ cs) s h = cc

pub only_one-eq-some : (cs : List Candidate) (c : Candidate) → only_one cs ≡ some c → cs ≡ c ∷ []
unfolding only_one
only_one-eq-some [] c h = cc
only_one-eq-some (x ∷ []) c h = cc
only_one-eq-some (x ∷ y ∷ cs) c h = cc

pub In-one : (cs : List Candidate) (c : Candidate) → cs ≡ c ∷ [] → In c cs
In-one cs c e = subst (In c) (sym e) (inl refl)

-- What is known of a selection, with the tag's candidate: the same digest among the referrers, or
-- the one referrer, which takes its place when that is allowed.
pub with_tag :
    (opts : DiscoverOptions) (tag : Candidate) (refs : List Candidate) (s : Selection)
    → reconcile_tag_and_referrers opts tag refs ≡ ok s
    → In s.selected refs
      × (s.candidates ≡ refs)
      × (opts.strict ≡ true
          → (s.in_conflict ≡ false)
            × (s.warnings ≡ [])
            × (s.selected.descriptor.digest ≡ tag.descriptor.digest))
unfolding reconcile_tag_and_referrers
with_tag opts tag refs s h = go (find_digest tag.descriptor.digest refs) refl h
  where
    go :
        (o : Option Candidate)
        → find_digest tag.descriptor.digest refs ≡ o
        → elim o [ none ↦ disagreeing opts.strict refs | some c ↦ ok (matched refs c) ] ≡ ok s
        → In s.selected refs
          × (s.candidates ≡ refs)
          × (opts.strict ≡ true
              → (s.in_conflict ≡ false)
                × (s.warnings ≡ [])
                × (s.selected.descriptor.digest ≡ tag.descriptor.digest))
    go none e h =
        let (lax, one, same, _) = disagreeing-one opts.strict refs s h in
        (In-one refs s.selected one, same, λ strict. absurd (true≢false (sym strict ∙ lax)))
    go (some c) e h =
        let (i, same) = find_digest-In tag.descriptor.digest refs c e in
        let chosen : matched refs c ≡ s = cc in
        (
          subst (λ s. In s.selected refs) chosen i,
          ap (λ s. s.candidates) (sym chosen),
          λ _. (
            ap (λ s. s.in_conflict) (sym chosen),
            ap (λ s. s.warnings) (sym chosen),
            ap (λ s. s.selected.descriptor.digest) (sym chosen) ∙ same,
          ),
        )

pub without_referrers-one :
    (opts : DiscoverOptions) (tags : List Candidate) (f : Failure) (s : Selection)
    → without_referrers opts tags f ≡ ok s
    → In s.selected tags × (s.candidates ≡ tags) × (opts.strict ≡ false) × (is_temporary f ≡ true)
unfolding without_referrers
without_referrers-one opts tags f s h = go (only_one tags) refl h
  where
    go :
        (o : Option Candidate)
        → only_one tags ≡ o
        → elim o [
          | none ↦ err f
          | some c ↦
              if not opts.strict && is_temporary f
              then ok (from_tag (referrers_failed f ∷ []) tags c)
              else err f
        ]
          ≡ ok s
        → In s.selected tags
          × (s.candidates ≡ tags)
          × (opts.strict ≡ false)
          × (is_temporary f ≡ true)
    go none e h = cc
    go (some c) e h =
        let (lax, temporary, chosen) = allowed in
        (
          subst (λ s. In s.selected tags) chosen (In-one tags c (only_one-eq-some tags c e)),
          ap (λ s. s.candidates) (sym chosen),
          lax,
          temporary,
        )
      where
        allowed :
            (opts.strict ≡ false)
            × (is_temporary f ≡ true)
            × (from_tag (referrers_failed f ∷ []) tags c ≡ s)
        allowed = ground arith

pub referrers_only-one :
    (refs : List Candidate) (s : Selection)
    → referrers_only refs ≡ ok s
    → (refs ≡ s.selected ∷ []) × (s.candidates ≡ refs) × (s.in_conflict ≡ false) × (s.warnings ≡ [])
unfolding referrers_only
referrers_only-one [] s h = cc
referrers_only-one (c ∷ []) s h = (cc, cc, cc, cc)
referrers_only-one (c ∷ x ∷ cs) s h = cc
