-- ===== src/Store/Prune/Kept.antt =====
-- What `Prune` keeps and removes.
use mathlib.Core.Bool.{true≢false}
use ocidoc_go.Base.{
  ◌≡◌, refl, sym, ap, ◌∙◌, true, false, Option, none, some, List, [], ◌∷◌, ◌+◌, ℕ, suc, Text,
  length, Result, ok, err, ◌>>=◌, arith, inl, inr, Bool-cases, Option-cases, In,
}
use ocidoc_go.Oci.{Digests}
use ocidoc_go.Store.{BlobFile, StoreError, bad_blob_path, foreign, Foreign}
use ocidoc_go.Store.Prune.{digest_of, is_reachable, measure_unreachable, remove_unreachable}

-- The bytes of the files.
abbrev pub total : List BlobFile → ℕ
total [] = 0
total (b ∷ bs) = length b.content + total bs

module _ {F : Type 0} (lib : Foreign F) (d : Digests) (r : List Text) where
  -- What a walk that removes says of the files left.
  abbrev pub Left : List BlobFile → List BlobFile × Option (StoreError F) → Type 0
  Left bs (left, stop) =
      ((b : BlobFile) → In b bs → is_reachable r b ≡ true → In b left)
      × ((b : BlobFile) → In b left → In b bs × (stop ≡ none → is_reachable r b ≡ true))

  stay : (bs : List BlobFile) (e : StoreError F) → Left bs (bs, some e)
  stay bs e = (λ b i _. i, λ b i. (i, λ h. cc))

  kept :
      (b : BlobFile) (bs : List BlobFile) (run : List BlobFile × Option (StoreError F))
      → is_reachable r b ≡ true
      → Left bs run
      → Left (b ∷ bs) (b ∷ run.0, run.1)
  kept b bs run e h = (
    λ x i q. elim i [ inl same ↦ inl same | inr j ↦ inr (h.0 x j q) ],
    λ x i. elim i [
      | inl same ↦ (inl same, λ _. ap (is_reachable r) same ∙ e)
      | inr j ↦ let (m, q) = h.1 x j in (inr m, q)
    ],
  )

  dropped :
      (b : BlobFile) (bs : List BlobFile) (run : List BlobFile × Option (StoreError F))
      → is_reachable r b ≡ false
      → Left bs run
      → Left (b ∷ bs) run
  dropped b bs run e h = (
    λ x i q. elim i [
      | inl same ↦ absurd (true≢false (sym q ∙ ap (is_reachable r) same ∙ e))
      | inr j ↦ h.0 x j q
    ],
    λ x i. let (m, q) = h.1 x i in (inr m, q),
  )

  pub remove-Left : (bs : List BlobFile) → Left bs (remove_unreachable lib d r bs)
  unfolding remove_unreachable
  remove-Left [] = (λ b i _. i, λ b i. absurd i)
  remove-Left (b ∷ bs) = elim (Bool-cases (d.is_valid (digest_of b))) [
    | inr bad ↦ rw bad (stay (b ∷ bs) (bad_blob_path (digest_of b)))
    | inl valid ↦ elim (Bool-cases (is_reachable r b)) [
      | inl e ↦ rw (valid, e) (kept b bs (remove_unreachable lib d r bs) e (remove-Left bs))
      | inr n ↦ elim (Option-cases (lib.remove_file b)) [
        | inl gone ↦
            rw (valid, n, gone) (dropped b bs (remove_unreachable lib d r bs) n (remove-Left bs))
        | inr (f, e) ↦ rw (valid, n, e) (stay (b ∷ bs) (foreign f))
      ]
    ]
  ]

  -- What was counted is what is gone.
  abbrev pub Counted :
      List BlobFile → Result (StoreError F) (ℕ × ℕ) → List BlobFile × Option (StoreError F) → Type 0
  Counted bs m run =
      (count bytes : ℕ)
      → m ≡ ok (count, bytes)
      → run.1 ≡ none
      → (length bs ≡ length run.0 + count) × (total bs ≡ total run.0 + bytes)

  numbers :
      {a b c e : ℕ}
      → Path (Result (StoreError F) (ℕ × ℕ)) (ok (a, b)) (ok (c, e))
      → (a ≡ c) × (b ≡ e)
  numbers h = (cc, cc)

  measure-kept :
      (b : BlobFile) (bs : List BlobFile) (m : Result (StoreError F) (ℕ × ℕ))
      (run : List BlobFile × Option (StoreError F))
      → Counted bs m run
      → Counted (b ∷ bs) m (b ∷ run.0, run.1)
  measure-kept b bs m run ih count bytes h g =
      let (n, t) = ih count bytes h g in (omega (arith, n), omega (arith, t))

  measure-dropped :
      (b : BlobFile) (bs : List BlobFile) (m : Result (StoreError F) (ℕ × ℕ))
      (run : List BlobFile × Option (StoreError F))
      → Counted bs m run
      → Counted (b ∷ bs) (do counted ← m; ok (suc counted.0, length b.content + counted.1)) run
  measure-dropped b bs (err e) run ih count bytes h g = cc
  measure-dropped b bs (ok (n, t)) run ih count bytes h g =
      let (p, q) = numbers h in
      let (u, v) = ih n t refl g in (omega (arith, p, u), omega (arith, q, v))

  pub remove-Counted :
      (bs : List BlobFile)
      → Counted bs (measure_unreachable lib d r bs) (remove_unreachable lib d r bs)
  unfolding measure_unreachable remove_unreachable
  remove-Counted [] =
      λ count bytes h g. let (p, q) = numbers h in (omega (arith, p), omega (arith, q))
  remove-Counted (b ∷ bs) = elim (Bool-cases (d.is_valid (digest_of b))) [
    | inr bad ↦ rw bad (λ count bytes h g. cc)
    | inl valid ↦ elim (Bool-cases (is_reachable r b)) [
      | inl e ↦
          rw (valid, e)
            (measure-kept b bs (measure_unreachable lib d r bs) (remove_unreachable lib d r bs)
              (remove-Counted bs))
      | inr n ↦ elim (Option-cases (lib.remove_file b)) [
        | inl gone ↦
            rw (valid, n, gone)
              (measure-dropped b bs (measure_unreachable lib d r bs) (remove_unreachable lib d r bs)
                (remove-Counted bs))
        | inr (f, e) ↦ rw (valid, n, e) (λ count bytes h g. cc)
      ]
    ]
  ]
