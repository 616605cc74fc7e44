-- ===== src/PathPlan/Dependencies/Fresh.antt =====
-- What a wave claims: files of the source tree that have no owner.
use ocidoc_go.Base.{
  ◌≡◌, ◌⊎◌, inl, inr, refl, sym, ap, subst, Bool, false, List, [], ◌∷◌, ◌++◌, Text, text_eq, map,
  Result, ok, err, ◌>>=◌, ok_inj, through, arith, In, Bool-cases, All, All-of, All_at,
}
use ocidoc_go.Unicode.{CaseTables}
use ocidoc_go.Oci.{value_at}
use ocidoc_go.PathPlan.Ownership.{own, files_of}
use ocidoc_go.Base.{sort_texts, In-sort_texts}
use ocidoc_go.Spec.PathKind.{is_markdown_path}
use ocidoc_go.PathPlan.Dependencies.{
  reference_failed, Kind, file, missing, directory, SourceTree, DependencyError, has_key, Claims,
  claimed_by, settle, unique_sorted, warn, claim, visit_references, read_document, visit_document,
  visit_documents, discover_wave, in_source,
}

-- The keys of a map.
abbrev pub keys_of : {A : Type 0} → List (Text × A) → List Text
keys_of m = map (λ e. e.0) m

own-All :
    (P : Text → Type 0) (claims : Claims) (ref c : Text)
    → P ref
    → All P (keys_of claims)
    → All P (keys_of (own claims ref c))
unfolding own
own-All P [] ref c h all = (h, tt)
own-All P ((d, ps) ∷ rest) ref c h all = elim (Bool-cases (text_eq d ref)) [
  | inl e ↦ rw e all
  | inr n ↦ rw n (all.0, own-All P rest ref c h all.1)
]

-- Only paths among the claimed ones get into the next frontier.
claimed_by-keys :
    {F : Type 0} (ref : Text) (cs : List Text) (here : List (Text × Text))
    → claimed_by {F = F} ref cs ≡ ok here
    → All (λ x. x ≡ ref) (keys_of here)
claimed_by-keys ref [] here h = subst (λ m. All (λ x. x ≡ ref) (keys_of m)) (ok_inj h) tt
claimed_by-keys ref (c ∷ []) here h =
    subst (λ m. All (λ x. x ≡ ref) (keys_of m)) (ok_inj h) (refl, tt)
claimed_by-keys ref (c ∷ d ∷ cs) here h = cc

All-keys-append :
    (P : Text → Type 0) (m n : List (Text × Text))
    → All P (keys_of m)
    → All P (keys_of n)
    → All P (keys_of (m ++ n))
All-keys-append P [] n hm hn = hn
All-keys-append P (e ∷ m) n hm hn = (hm.0, All-keys-append P m n hm.1 hn)

settle-keys :
    {F : Type 0} (P : Text → Type 0) (claims : Claims) (refs : List Text)
    (next : List (Text × Text))
    → settle {F = F} claims refs ≡ ok next
    → All P refs
    → All P (keys_of next)
unfolding settle
settle-keys P claims [] next h all = subst (λ m. All P (keys_of m)) (ok_inj h) tt
settle-keys {F} P claims (ref ∷ refs) next h all =
    let (here, found, h1) =
      through (λ here. settle {F = F} claims refs >>= λ others. ok (here ++ others)) next
        (claimed_by ref (unique_sorted (files_of claims ref))) h in
    let (others, later, same) =
      through (λ others. ok (here ++ others)) next (settle {F = F} claims refs) h1 in
    let keys = claimed_by-keys ref (unique_sorted (files_of claims ref)) here found in
    subst (λ m. All P (keys_of m)) (ok_inj same)
      (All-keys-append P here others
        (All-of P (keys_of here)
          (λ x m. subst P (sym (All_at (λ x. x ≡ ref) (keys_of here) keys m)) all.0))
        (settle-keys P claims refs others later all.1))

from_source :
    {F : Type 0}
    → {A : Type 0} → (e : F → DependencyError F) (r : Result F A) (a : A) → in_source e r ≡ ok a
    → r ≡ ok a
from_source e (ok b) a h = ap ok (ok_inj h)
from_source e (err f) a h = cc

-- Every file that a reference resolves to is in the universe.
abbrev pub IsBounded : {F : Type 0} → SourceTree F → List Text → Type 0
IsBounded source universe =
    (p t ref : Text) → source.resolve_reference p t ≡ ok (file, ref) → In ref universe

module _ {F : Type 0} (source : SourceTree F) (u : CaseTables) (ignored : Text → Bool)
    (strict : Bool) (universe : List Text) where
  -- A path of the universe without an owner.
  abbrev pub IsNew : List (Text × Text) → Text → Type 0
  IsNew owner ref = In ref universe × (has_key owner ref ≡ false)

  -- A step leaves the claims as they are, or adds one on a file without an owner.
  claimed :
      (owner : List (Text × Text)) (p component target : Text) (claims : Claims) (ws : List Text)
      (st' : Claims × List Text) (kind : Kind) (ref : Text)
      → claim source u ignored strict owner p component target (claims, ws) (kind, ref) ≡ ok st'
      → (claims ≡ st'.0)
        ⊎ ((kind ≡ file) × (has_key owner ref ≡ false) × (own claims ref component ≡ st'.0))
  unfolding claim warn
  claimed owner p component target claims ws st' missing ref h = ground arith
  claimed owner p component target claims ws st' directory ref h = ground arith
  claimed owner p component target claims ws st' file ref h = ground arith

  claim-IsNew :
      (owner : List (Text × Text)) (p component target : Text) (st st' : Claims × List Text)
      (resolved : Kind × Text)
      → source.resolve_reference p target ≡ ok resolved
      → claim source u ignored strict owner p component target st resolved ≡ ok st'
      → IsBounded source universe
      → All (IsNew owner) (keys_of st.0)
      → All (IsNew owner) (keys_of st'.0)
  claim-IsNew owner p component target (claims, ws) st' (kind, ref) found h bound all =
      elim (claimed owner p component target claims ws st' kind ref h) [
        | inl same ↦ subst (λ cs. All (IsNew owner) (keys_of cs)) same all
        | inr (k, new, same) ↦
            subst (λ cs. All (IsNew owner) (keys_of cs)) same
              (own-All (IsNew owner) claims ref component
                (
                  bound p target ref
                      (subst (λ k. source.resolve_reference p target ≡ ok (k, ref)) k found),
                  new,
                )
                all)
      ]

  references-IsNew :
      (owner : List (Text × Text)) (p component : Text) (targets : List Text)
      (st last : Claims × List Text)
      → visit_references source u ignored strict owner p component targets st ≡ ok last
      → IsBounded source universe
      → All (IsNew owner) (keys_of st.0)
      → All (IsNew owner) (keys_of last.0)
  unfolding visit_references
  references-IsNew owner p component [] st last h bound all =
      subst (λ (st : Claims × List Text). All (IsNew owner) (keys_of st.0)) (ok_inj h) all
  references-IsNew owner p component (target ∷ targets) st last h bound all =
      let (resolved, found, h1) =
        through
          (λ resolved.
            claim source u ignored strict owner p component target st resolved
            >>= visit_references source u ignored strict owner p component targets)
          last (in_source (reference_failed p target) (source.resolve_reference p target)) h in
      let (next, here, h2) =
        through (visit_references source u ignored strict owner p component targets) last
          (claim source u ignored strict owner p component target st resolved) h1 in
      references-IsNew owner p component targets next last h2 bound (
        claim-IsNew owner p component target st next resolved
          (from_source (reference_failed p target) (source.resolve_reference p target) resolved
            found)
          here bound all)

  document-IsNew :
      (owner : List (Text × Text)) (p component : Text) (st last : Claims × List Text)
      → visit_document source u ignored strict owner p component st ≡ ok last
      → IsBounded source universe
      → All (IsNew owner) (keys_of st.0)
      → All (IsNew owner) (keys_of last.0)
  unfolding visit_document
  document-IsNew owner p component st last h bound all = elim (Bool-cases (is_markdown_path u p)) [
    | inr n ↦
        let same : st ≡ last = ground (arith, n) in
        subst (λ (st : Claims × List Text). All (IsNew owner) (keys_of st.0)) same all
    | inl e ↦
        let (content, _, h1) =
          through
            (λ content.
              visit_references source u ignored strict owner p component
                (source.local_targets content) st)
            last (read_document source u ignored strict p) (ground (arith, e)) in
        references-IsNew owner p component (source.local_targets content) st last h1 bound all
  ]

  documents-IsNew :
      (owner frontier : List (Text × Text)) (ps : List Text) (st last : Claims × List Text)
      → visit_documents source u ignored strict owner frontier ps st ≡ ok last
      → IsBounded source universe
      → All (IsNew owner) (keys_of st.0)
      → All (IsNew owner) (keys_of last.0)
  unfolding visit_documents
  documents-IsNew owner frontier [] st last h bound all =
      subst (λ (st : Claims × List Text). All (IsNew owner) (keys_of st.0)) (ok_inj h) all
  documents-IsNew owner frontier (p ∷ ps) st last h bound all =
      let (next, here, h1) =
        through (visit_documents source u ignored strict owner frontier ps) last
          (visit_document source u ignored strict owner p (value_at p frontier) st) h in
      documents-IsNew owner frontier ps next last h1 bound
        (document-IsNew owner p (value_at p frontier) st next here bound all)

  pub wave-IsNew :
      (frontier owner next : List (Text × Text)) (warnings ws : List Text)
      → discover_wave source u ignored strict frontier owner warnings ≡ ok (next, ws)
      → IsBounded source universe
      → All (IsNew owner) (keys_of next)
  unfolding discover_wave
  wave-IsNew frontier owner next warnings ws h bound =
      let (st, seen, h1) =
        through (λ st. settle st.0 (sort_texts (keys_of st.0)) >>= λ next. ok (next, st.1))
          (next, ws)
          (visit_documents source u ignored strict owner frontier (sort_texts (keys_of frontier))
            ([], warnings))
          h in
      let (found, settled, same) =
        through (λ next. ok (next, st.1)) (next, ws) (settle st.0 (sort_texts (keys_of st.0))) h1 in
      let new : All (IsNew owner) (keys_of st.0) =
        documents-IsNew owner frontier (sort_texts (keys_of frontier)) ([], warnings) st seen bound
          tt in
      subst (λ (r : List (Text × Text) × List Text). All (IsNew owner) (keys_of r.0)) (ok_inj same)
        (settle-keys (IsNew owner) st.0 (sort_texts (keys_of st.0)) found settled (
          All-of (IsNew owner) (sort_texts (keys_of st.0)) (λ x m.
            All_at (IsNew owner) (keys_of st.0) new ((In-sort_texts x (keys_of st.0)).0 m))))
