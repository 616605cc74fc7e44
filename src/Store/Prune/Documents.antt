-- ===== src/Store/Prune/Documents.antt =====
-- `Prune` as a whole: what it answers, and that indexed documents stay complete.
use ocidoc_go.Base.{
  ◌≡◌, ◌⊎◌, refl, sym, ap, subst, ◌∙◌, Bool, true, false, Option, none, some, List, [], ◌∷◌, ℕ, map,
  Text, any-text_eq_iff, Result, ok, err, ◌>>=◌, through, inl, inr, Bool-cases, In, In-append,
}
use ocidoc_go.Oci.{Digests, Descriptor, Manifest}
use ocidoc_go.Store.{
  BlobFile, Disk, StoreError, unparsable_root, Foreign, or_error, read_index, fetch_metadata,
}
use ocidoc_go.Store.Prune.{
  PruneResult, digest_of, is_reachable, reached_by, reachable_blobs, measure_unreachable,
  remove_unreachable, answered, result_of, survey, removal, prune,
}
use ocidoc_go.Store.Prune.Kept.{remove-Left}

-- A blob file of the document: its manifest, its config or a layer.
abbrev pub BelongsTo : Descriptor → Manifest → BlobFile → Type 0
BelongsTo root m b =
    (digest_of b ≡ root.digest)
    ⊎ (digest_of b ≡ m.config.digest)
    ⊎ In (digest_of b) (map (λ l. l.digest) m.layers)

reached :
    (root : Descriptor) (m : Manifest) (rest : List Text) (b : BlobFile)
    → BelongsTo root m b
    → In (digest_of b) (reached_by root m rest)
reached root m rest b (inl e) = inl e
reached root m rest b (inr (inl e)) = inr (inl e)
reached root m rest b (inr (inr i)) =
    inr (inr ((In-append (digest_of b) (map (λ l. l.digest) m.layers) rest).1 (inl i)))

later :
    (root : Descriptor) (m : Manifest) (rest : List Text) (t : Text)
    → In t rest
    → In t (reached_by root m rest)
later root m rest t i = inr (inr ((In-append t (map (λ l. l.digest) m.layers) rest).1 (inr i)))

module _ {F : Type 0} (lib : Foreign F) (d : Digests) (disk : Disk) where
  -- The manifest that the store holds for a root.
  abbrev pub HasManifest : Descriptor → Manifest → Type 0
  HasManifest root m =
      (bytes : Text) × (fetch_metadata lib d disk root ≡ ok bytes)
      × (lib.parse_manifest bytes ≡ some m)

  reachable-In :
      (roots : List Descriptor) (r : List Text) (root : Descriptor) (m : Manifest) (b : BlobFile)
      → reachable_blobs lib d disk roots ≡ ok r
      → In root roots
      → HasManifest root m
      → BelongsTo root m b
      → In (digest_of b) r
  unfolding reachable_blobs
  reachable-In [] r root m b h i has in_document = absurd i
  reachable-In (x ∷ roots) r root m b h i has in_document =
      let (bytes, read, h1) = through from_bytes r (fetch_metadata lib d disk x) h in
      let (n, parsed, h2) =
        through from_manifest r (or_error (unparsable_root x.digest) (lib.parse_manifest bytes))
          h1 in
      let (rest, tail, same) =
        through (λ rest. ok (reached_by x n rest)) r (reachable_blobs lib d disk roots) h2 in
      subst (In (digest_of b)) (inside same) (elim i [
        | inl first ↦
            let (bytes', read', parsed') = subst (λ t. HasManifest t m) first has in
            let m_is : m ≡ n = some_eq (
              sym parsed'
              ∙ ap lib.parse_manifest (inside_text (sym read' ∙ read))
              ∙ or_error-some (lib.parse_manifest bytes) n parsed) in
            reached x n rest b (
              subst (λ t. BelongsTo t n b) first (subst (λ k. BelongsTo root k b) m_is in_document))
        | inr j ↦
            later x n rest (digest_of b) (reachable-In roots rest root m b tail j has in_document)
      ])
    where
      from_manifest : Manifest → Result (StoreError F) (List Text)
      from_manifest n = reachable_blobs lib d disk roots >>= (λ rest. ok (reached_by x n rest))

      from_bytes : Text → Result (StoreError F) (List Text)
      from_bytes bytes =
          or_error (unparsable_root x.digest) (lib.parse_manifest bytes) >>= from_manifest

      some_eq : {m n : Manifest} → some m ≡ some n → m ≡ n
      some_eq e = cc

      inside : {a b : List Text} → Path (Result (StoreError F) (List Text)) (ok a) (ok b) → a ≡ b
      inside e = cc

      inside_text : {a b : Text} → Path (Result (StoreError F) Text) (ok a) (ok b) → a ≡ b
      inside_text e = cc

      or_error-some :
          (o : Option Manifest) (n : Manifest)
          → or_error {F = F} (unparsable_root x.digest) o ≡ ok n
          → o ≡ some n
      or_error-some none n h = cc
      or_error-some (some k) n h = cc

  BelongsTo-is_reachable :
      (r : List Text) (b : BlobFile) → In (digest_of b) r → is_reachable r b ≡ true
  unfolding is_reachable
  BelongsTo-is_reachable r b i = (any-text_eq_iff (digest_of b) r).1 i

  removal-blobs :
      (result : PruneResult) (run : List BlobFile × Option (StoreError F))
      → (removal lib d disk result run).0.blobs ≡ run.0
  removal-blobs result (left, none) = refl
  removal-blobs result (left, some e) = refl

  pub survey-reachable :
      (roots : List Descriptor) (r : List Text) (count bytes : ℕ)
      → read_index lib disk ≡ ok roots
      → survey lib d disk ≡ ok (r, count, bytes)
      → (reachable_blobs lib d disk roots ≡ ok r)
        × (measure_unreachable lib d r disk.blobs ≡ ok (count, bytes))
  unfolding survey
  survey-reachable roots r count bytes read h =
      let (roots', read', h1) = through from_roots (r, count, bytes) (read_index lib disk) h in
      let (r', reach, h2) =
        through from_reachable (r, count, bytes) (reachable_blobs lib d disk roots') h1 in
      let (counted, measured, same) =
        through (λ c. ok (r', c.0, c.1)) (r, count, bytes) (measure_unreachable lib d r' disk.blobs)
          h2 in
      let (p, q) = parts r' counted same in
      (
        subst (λ roots. reachable_blobs lib d disk roots ≡ ok r) (roots_eq (sym read' ∙ read))
            (reach ∙ ap (λ r. ok r) p),
        subst (λ r. measure_unreachable lib d r disk.blobs ≡ ok (count, bytes)) p
            (measured ∙ ap (λ c. ok c) q),
      )
    where
      from_reachable : List Text → Result (StoreError F) (List Text × ℕ × ℕ)
      from_reachable r = measure_unreachable lib d r disk.blobs >>= (λ c. ok (r, c.0, c.1))

      from_roots : List Descriptor → Result (StoreError F) (List Text × ℕ × ℕ)
      from_roots roots = reachable_blobs lib d disk roots >>= from_reachable

      roots_eq :
          {a b : List Descriptor}
          → Path (Result (StoreError F) (List Descriptor)) (ok a) (ok b)
          → a ≡ b
      roots_eq e = cc

      parts :
          (r' : List Text) (c : ℕ × ℕ)
          → Path
              (Result (StoreError F) (List Text × ℕ × ℕ))
              (ok (r', c.0, c.1))
              (ok (r, count, bytes))
          → (r' ≡ r) × (c ≡ (count, bytes))
      parts r' c e = (cc, cc)

  -- Prune never removes a blob of an indexed document, its manifest, its config or a layer, whether
  -- it is a dry run or not and whether it succeeds or not.
  pub prune-In :
      (dry : Bool) (roots : List Descriptor) (root : Descriptor) (m : Manifest) (b : BlobFile)
      → read_index lib disk ≡ ok roots
      → In root roots
      → HasManifest root m
      → BelongsTo root m b
      → In b disk.blobs
      → In b (prune lib d dry disk).0.blobs
  unfolding prune
  prune-In dry roots root m b read i has in_document here = go (survey lib d disk) refl
    where
      go :
          (o : Result (StoreError F) (List Text × ℕ × ℕ))
          → survey lib d disk ≡ o
          → In b (answered lib d dry disk o).0.blobs
      go (err x) e = here
      go (ok (r, count, bytes)) e =
          let (reach, _) = survey-reachable roots r count bytes read e in
          let inside : is_reachable r b ≡ true =
            BelongsTo-is_reachable r b (reachable-In roots r root m b reach i has in_document) in
          let spared : In b (remove_unreachable lib d r disk.blobs).0 =
            (remove-Left lib d r disk.blobs).0 b here inside in
          elim (Bool-cases dry) [
            | inl tried ↦ rw tried here
            | inr done ↦ rw done (
                subst (In b)
                  (sym (
                    removal-blobs (result_of false count bytes)
                      (remove_unreachable lib d r disk.blobs)))
                  spared)
          ]
