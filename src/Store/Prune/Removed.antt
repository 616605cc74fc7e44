-- ===== src/Store/Prune/Removed.antt =====
-- What a `Prune` that removes leaves and counts.
use ocidoc_go.Base.{
  ◌≡◌, ◌↔◌, refl, ap, subst, ◌∙◌, true, false, Option, none, some, List, ◌+◌, ℕ, Text, length,
  Result, ok, err, arith, inl, inr, Result-cases, In,
}
use ocidoc_go.Oci.{Digests}
use ocidoc_go.Store.{BlobFile, Disk, StoreError, Foreign, read_index}
use ocidoc_go.Store.Prune.{
  PruneResult, is_reachable, measure_unreachable, remove_unreachable, answered, result_of, survey,
  removal, prune,
}
use ocidoc_go.Store.Prune.Kept.{total, Left, remove-Left, Counted, remove-Counted}
use ocidoc_go.Store.Prune.Documents.{survey-reachable}

module _ {F : Type 0} (lib : Foreign F) (d : Digests) (disk : Disk) where
  unread_survey :
      (x : StoreError F) (r : List Text) (count bytes : ℕ)
      → read_index lib disk ≡ err x
      → survey lib d disk ≡ ok (r, count, bytes)
      → ⊥
  unfolding survey
  unread_survey x r count bytes e h = ground arith

  survey-measured :
      (r : List Text) (count bytes : ℕ)
      → survey lib d disk ≡ ok (r, count, bytes)
      → measure_unreachable lib d r disk.blobs ≡ ok (count, bytes)
  survey-measured r count bytes h = elim (Result-cases (read_index lib disk)) [
    | inl (roots, read) ↦ (survey-reachable lib d disk roots r count bytes read h).1
    | inr (x, unread) ↦ absurd (unread_survey x r count bytes unread h)
  ]

  -- What a run that removes is, where the survey succeeds.
  abbrev pub Swept : List Text → ℕ → ℕ → Disk → Type 0
  Swept r count bytes disk' =
      ((b : BlobFile) → In b disk'.blobs ↔ (In b disk.blobs × (is_reachable r b ≡ true)))
      × (length disk.blobs ≡ length disk'.blobs + count)
      × (total disk.blobs ≡ total disk'.blobs + bytes)
      × (disk'.index ≡ disk.index)
      × (disk'.catalog ≡ disk.catalog)

  removal-Swept :
      (r : List Text) (count bytes : ℕ) (run : List BlobFile × Option (StoreError F)) (disk' : Disk)
      (result : PruneResult)
      → Left {F = F} lib d r disk.blobs run
      → Counted {F = F} lib d r disk.blobs (ok (count, bytes)) run
      → (removal lib d disk (result_of false count bytes) run).0 ≡ disk'
      → (removal lib d disk (result_of false count bytes) run).1 ≡ ok result
      → (result_of false count bytes ≡ result) × Swept r count bytes disk'
  removal-Swept r count bytes (left, some e) disk' result h k f g = cc
  removal-Swept r count bytes (left, none) disk' result h k f g =
      let (n, t) = k count bytes refl refl in
      (
        result_eq g,
        subst (Swept r count bytes) f
            (λ b. (λ i. let (m, q) = h.1 b i in (m, q refl), λ i. h.0 b i.0 i.1), n, t, refl, refl),
      )
    where
      result_eq :
          {a b : PruneResult} → Path (Result (StoreError F) PruneResult) (ok a) (ok b) → a ≡ b
      result_eq e = cc

  -- If Prune removes and succeeds, the blobs left are exactly the reachable ones of before, the index
  -- and the catalog are as before, the result counts the files and the bytes that are gone, and a dry
  -- run instead would have changed nothing and given the same counts.
  pub prune-Swept :
      (disk' : Disk) (result : PruneResult)
      → (prune lib d false disk).0 ≡ disk'
      → (prune lib d false disk).1 ≡ ok result
      → (r : List Text) × (survey lib d disk ≡ ok (r, result.blob_count, result.blob_bytes))
        × Swept r result.blob_count result.blob_bytes disk'
        × (prune lib d true disk ≡ (disk, ok (result_of true result.blob_count result.blob_bytes)))
  unfolding prune
  prune-Swept disk' result f g = go (survey lib d disk) refl f g
    where
      counted :
          (r : List Text) (count bytes : ℕ)
          → survey lib d disk ≡ ok (r, count, bytes)
          → Counted {F = F} lib d r disk.blobs
              (ok (count, bytes))
              (remove_unreachable lib d r disk.blobs)
      counted r count bytes e =
          subst (λ m. Counted {F = F} lib d r disk.blobs m (remove_unreachable lib d r disk.blobs))
            (survey-measured r count bytes e) (remove-Counted lib d r disk.blobs)

      go :
          (o : Result (StoreError F) (List Text × ℕ × ℕ))
          → survey lib d disk ≡ o
          → (answered lib d false disk o).0 ≡ disk'
          → (answered lib d false disk o).1 ≡ ok result
          → (r : List Text) × (survey lib d disk ≡ ok (r, result.blob_count, result.blob_bytes))
            × Swept r result.blob_count result.blob_bytes disk'
            × (answered lib d true disk (survey lib d disk)
                ≡ (disk, ok (result_of true result.blob_count result.blob_bytes)))
      go (err x) e f g = cc
      go (ok (r, count, bytes)) e f g =
          let (same, swept) =
            removal-Swept r count bytes (remove_unreachable lib d r disk.blobs) disk' result
              (remove-Left lib d r disk.blobs) (counted r count bytes e) f g in
          (
            r,
            e ∙ ap (λ (x : PruneResult). ok (r, x.blob_count, x.blob_bytes)) same,
            subst (λ (x : PruneResult). Swept r x.blob_count x.blob_bytes disk') same swept,
            ap (answered lib d true disk) e
                ∙ ap (λ (x : PruneResult). (disk, ok (result_of true x.blob_count x.blob_bytes)))
                    same,
          )
