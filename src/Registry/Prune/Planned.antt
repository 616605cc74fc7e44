-- ===== src/Registry/Prune/Planned.antt =====
-- What `planPrune` keeps and selects.
use mathlib.Core.Bool.{true≢false}
use ocidoc_go.Base.{
  text_leb, ◌≡◌, ◌≢◌, ◌↔◌, ◌⊎◌, refl, sym, ap, subst, ◌∙◌, Bool, true, false, not, ◌&&◌,
  Option-cases, Option, none, some, List, [], ◌∷◌, Text, text_eq, text_eq_iff, is_empty, Result, ok,
  err, through, arith, inl, inr, Bool-cases, In, if◌then◌else◌,
}
use ocidoc_go.Registry.Errors.{Failure, failure, conflict, keep_required}
use ocidoc_go.Registry.Discovery.{Candidate, insert_candidate, sort_candidates}
use ocidoc_go.Registry.Selection.{find_digest}
use ocidoc_go.Registry.Selection.Chosen.{find_digest-In}
use ocidoc_go.Registry.Prune.{
  not_referrer, PruneOptions, Plan, Slot, candidate_slot, same_slot, matches_prune_selectors,
  keep_if, filter_prune_selectors, filter_slot, matching_primary, named_keep, select_prune_keep,
  kept_slot, kept_digest, planned, plan_prune,
}

In-insert : (x c : Candidate) (cs : List Candidate) → In x (insert_candidate c cs) ↔ In x (c ∷ cs)
unfolding insert_candidate
In-insert x c [] = (λ h. h, λ h. h)
In-insert x c (y ∷ cs) = elim (Bool-cases (text_leb c.descriptor.digest y.descriptor.digest)) [
  | inl e ↦ rw e (λ h. h, λ h. h)
  | inr n ↦ rw n (ground (arith, In-insert x c cs))
]

In-sort : (x : Candidate) (cs : List Candidate) → In x (sort_candidates cs) ↔ In x cs
unfolding sort_candidates
In-sort x [] = (λ h. h, λ h. h)
In-sort x (c ∷ cs) = ground (arith, In-insert x c (sort_candidates cs), In-sort x cs)

In-keep_if :
    (p : Candidate → Bool) (x : Candidate) (cs : List Candidate)
    → In x (keep_if p cs) ↔ (In x cs × (p x ≡ true))
unfolding keep_if
In-keep_if p x [] = (λ h. absurd h, λ h. absurd h.0)
In-keep_if p x (c ∷ cs) = elim (Bool-cases (p c)) [
  | inl e ↦ rw e (
    λ h. elim h [
      | inl same ↦ (inl same, ap p same ∙ e)
      | inr i ↦ let (m, q) = (In-keep_if p x cs).0 i in (inr m, q)
    ],
    λ h. elim h.0 [ inl same ↦ inl same | inr m ↦ inr ((In-keep_if p x cs).1 (m, h.1)) ],
  )
  | inr n ↦ rw n (
    λ i. let (m, q) = (In-keep_if p x cs).0 i in (inr m, q),
    λ h. elim h.0 [
      | inl same ↦ absurd (true≢false (sym h.1 ∙ ap p same ∙ n))
      | inr m ↦ (In-keep_if p x cs).1 (m, h.1)
    ],
  )
]

-- The candidates of the slot of `keep` that the options ask for, other than `keep` itself.
abbrev pub IsSuperseded : PruneOptions → Option Candidate → List Candidate → Candidate → Type 0
IsSuperseded opts keep cs c =
    In c cs
    × (matches_prune_selectors c opts ≡ true)
    × (candidate_slot c ≡ kept_slot keep)
    × (c.descriptor.digest ≢ kept_digest keep)

slot_eq : (a b : Slot) → a.document ≡ b.document → a.variant ≡ b.variant → a ≡ b
slot_eq a b e f = cc

same_slot_iff : (a b : Slot) → (same_slot a b ≡ true) ↔ (a ≡ b)
unfolding same_slot
same_slot_iff a b = (
  λ h. let (e, f) = both h in slot_eq a b e f,
  λ e. ground (
    arith,
    text_eq_iff a.document b.document,
    text_eq_iff a.variant b.variant,
    ap (λ s. s.document) e,
    ap (λ s. s.variant) e,
  ),
)
  where
    both :
        (text_eq a.document b.document && text_eq a.variant b.variant) ≡ true
        → (a.document ≡ b.document) × (a.variant ≡ b.variant)
    both h = ground (arith, text_eq_iff a.document b.document, text_eq_iff a.variant b.variant)

text_ne_iff : (a b : Text) → (not (text_eq a b) ≡ true) ↔ (a ≢ b)
text_ne_iff a b = ground (arith, text_eq_iff a b)

planned-IsSuperseded :
    (cs : List Candidate) (opts : PruneOptions) (keep : Option Candidate) (c : Candidate)
    → In c (planned (filter_prune_selectors cs opts) keep).selected ↔ IsSuperseded opts keep cs c
unfolding filter_prune_selectors filter_slot
planned-IsSuperseded cs opts keep c =
    let other : Candidate → Bool = λ c. not (text_eq c.descriptor.digest (kept_digest keep)) in
    let slot : Candidate → Bool = λ c. same_slot (candidate_slot c) (kept_slot keep) in
    let asked : Candidate → Bool = λ c. matches_prune_selectors c opts in
    let first = In-keep_if other c (sort_candidates (keep_if slot (keep_if asked cs))) in
    let second = In-sort c (keep_if slot (keep_if asked cs)) in
    let third = In-keep_if slot c (keep_if asked cs) in
    let fourth = In-keep_if asked c cs in
    let same = same_slot_iff (candidate_slot c) (kept_slot keep) in
    let apart = text_ne_iff c.descriptor.digest (kept_digest keep) in
    (
      λ h.
          let (i, o) = first.0 h in
          let (j, s) = third.0 (second.0 i) in
          let (k, a) = fourth.0 j in (k, a, same.0 s, apart.0 o),
      λ h.
          let (k, a, s, o) = h in
          first.1 (second.1 (third.1 (fourth.1 (k, a), same.1 s)), apart.1 o),
    )

-- What is kept is a candidate or the tag's artifact, and the one that the caller names.
abbrev pub IsKept : PruneOptions → Option Candidate → List Candidate → Option Candidate → Type 0
IsKept opts primary cs none = opts.keep ≡ []
IsKept opts primary cs (some c) =
    (In c cs ⊎ (primary ≡ some c))
    × (matches_prune_selectors c opts ≡ true)
    × (is_empty opts.keep ≡ false → c.descriptor.digest ≡ opts.keep)

-- Without a primary: a candidate of the list, with the digest named.
abbrev IsNamed : PruneOptions → List Candidate → Option Candidate → Type 0
IsNamed opts cs none = is_empty opts.keep ≡ true
IsNamed opts cs (some c) = In c cs × (c.descriptor.digest ≡ opts.keep)

named_keep-IsNamed :
    (opts : PruneOptions) (cs : List Candidate) (keep : Option Candidate)
    → named_keep cs opts ≡ ok keep
    → IsNamed opts cs keep
unfolding named_keep
named_keep-IsNamed opts [] keep h =
    let (empty, same) = unnamed h in subst (IsNamed opts []) same empty
  where
    unnamed :
        (if is_empty opts.keep then ok none else err (not_referrer opts)) ≡ ok keep
        → (is_empty opts.keep ≡ true) × (none ≡ keep)
    unnamed h = ground arith
named_keep-IsNamed opts (x ∷ cs) keep h = elim (Option-cases (find_digest opts.keep (x ∷ cs))) [
  | inl e ↦ absurd (lost (find_digest opts.keep (x ∷ cs)) e h)
  | inr (c, e) ↦
      subst (IsNamed opts (x ∷ cs)) (met c (find_digest opts.keep (x ∷ cs)) e h)
        (find_digest-In opts.keep (x ∷ cs) c e)
]
  where
    lost :
        (o : Option Candidate)
        → o ≡ none
        → (if is_empty opts.keep
            then err (failure (conflict ∷ []) keep_required)
            else elim o [ none ↦ err (not_referrer opts) | some x ↦ ok (some x) ])
          ≡ ok keep
        → ⊥
    lost o e h = ground arith

    met :
        (c : Candidate) (o : Option Candidate)
        → o ≡ some c
        → (if is_empty opts.keep
            then err (failure (conflict ∷ []) keep_required)
            else elim o [ none ↦ err (not_referrer opts) | some x ↦ ok (some x) ])
          ≡ ok keep
        → some c ≡ keep
    met c o e h = ground arith

named-IsKept :
    (opts : PruneOptions) (primary : Option Candidate) (cs : List Candidate)
    (keep : Option Candidate)
    → IsNamed opts (filter_prune_selectors cs opts) keep
    → IsKept opts primary cs keep
unfolding filter_prune_selectors
named-IsKept opts primary cs none h = empty_text opts.keep h
  where
    empty_text : (t : Text) → is_empty t ≡ true → t ≡ []
    empty_text [] h = refl
    empty_text (b ∷ t) h = cc
named-IsKept opts primary cs (some c) h =
    let (m, q) = (In-keep_if (λ c. matches_prune_selectors c opts) c cs).0 h.0 in
    (inl m, q, λ _. h.1)

select-IsKept :
    (opts : PruneOptions) (primary : Option Candidate) (cs : List Candidate)
    (keep : Option Candidate)
    → select_prune_keep primary (filter_prune_selectors cs opts) opts ≡ ok keep
    → IsKept opts primary cs keep
unfolding select_prune_keep matching_primary
select-IsKept opts none cs keep h =
    named-IsKept opts none cs keep (named_keep-IsNamed opts (filter_prune_selectors cs opts) keep h)
select-IsKept opts (some c) cs keep h = elim (Bool-cases (matches_prune_selectors c opts)) [
  | inl e ↦
      let (same, named) = primary_kept e in
      subst (IsKept opts (some c) cs) same (inr refl, e, named)
  | inr n ↦
      named-IsKept opts (some c) cs keep
        (named_keep-IsNamed opts (filter_prune_selectors cs opts) keep (ground arith))
]
  where
    primary_kept :
        matches_prune_selectors c opts ≡ true
        → (some c ≡ keep) × (is_empty opts.keep ≡ false → c.descriptor.digest ≡ opts.keep)
    primary_kept e = ground (arith, text_eq_iff opts.keep c.descriptor.digest)

-- If planning succeeds, the selected candidates are exactly those of the referrers that match the
-- selectors, are in the slot of the kept artifact, and have another digest; and what is kept matches
-- the selectors and has the digest that the caller names, if any.
pub plan_prune-IsSuperseded :
    (opts : PruneOptions) (primary : Option Candidate) (cs : List Candidate) (plan : Plan)
    → plan_prune primary cs opts ≡ ok plan
    → IsKept opts primary cs plan.keep
      × ((c : Candidate) → In c plan.selected ↔ IsSuperseded opts plan.keep cs c)
unfolding plan_prune
plan_prune-IsSuperseded opts primary cs plan h =
    let (keep, chosen, same) =
      through (λ keep. ok (planned (filter_prune_selectors cs opts) keep)) plan
        (select_prune_keep primary (filter_prune_selectors cs opts) opts) h in
    subst
      (λ plan.
        IsKept opts primary cs plan.keep
        × ((c : Candidate) → In c plan.selected ↔ IsSuperseded opts plan.keep cs c))
      (unwrapped keep same)
      (select-IsKept opts primary cs keep chosen, planned-IsSuperseded cs opts keep)
  where
    unwrapped :
        (keep : Option Candidate)
        → Path (Result Failure Plan) (ok (planned (filter_prune_selectors cs opts) keep)) (ok plan)
        → planned (filter_prune_selectors cs opts) keep ≡ plan
    unwrapped keep e = cc
