-- ===== src/OciBlob/Stream/Whole.antt =====
-- The checking reader against the check of a whole blob.
use mathlib.Core.Bool.{true≢false}
use ocidoc_go.Base.{
  ◌≡◌, ◌↔◌, ◌⊎◌, refl, sym, ap, ◌∙◌, true, false, ◌+◌, ◌≤◌, ℕ, none, List, [], ◌∷◌, ◌++◌,
  append-nil, append_assoc, length-append, Text, text_eq_iff, length, ok, err, ℤ, pos, negsuc,
  arith, inl, inr,
}
use ocidoc_go.Oci.{Digests, Descriptor, int_eq_iff}
use ocidoc_go.OciBlob.{validate, verify}
use ocidoc_go.OciBlob.Stream.{
  more, eof, too_long, VerifyingReader, fresh, exceeds, take_in, at_end, read, read_all, concat,
}

exceeds-pos : (n m : ℕ) (i : ℤ) → n ≤ m → pos m ≡ i → exceeds n i ≡ false
unfolding exceeds
exceeds-pos n m (pos i) h e = ground (arith, pos-eq e)
  where
    pos-eq : pos m ≡ pos i → m ≡ i
    pos-eq h = cc
exceeds-pos n m (negsuc i) h e = cc

-- The state behind all chunks.
abbrev poured : VerifyingReader → List Text → Text → VerifyingReader
poured r [] last = take_in r last
poured r (c ∷ cs) last = poured (take_in r c) cs last

take_in-size : (r : VerifyingReader) (c : Text) → (take_in r c).size ≡ r.size + length c
unfolding take_in
take_in-size r [] = ground arith
take_in-size r (b ∷ c) = refl

take_in-written : (r : VerifyingReader) (c : Text) → (take_in r c).written ≡ r.written ++ c
unfolding take_in
take_in-written r [] = sym (append-nil r.written)
take_in-written r (b ∷ c) = refl

poured-size :
    (r : VerifyingReader) (cs : List Text) (last : Text)
    → (poured r cs last).size ≡ r.size + length (concat cs ++ last)
poured-size r [] last = take_in-size r last
poured-size r (c ∷ cs) last = omega (
  arith,
  poured-size (take_in r c) cs last,
  take_in-size r c,
  length-append c (concat cs ++ last),
  ap length (append_assoc c (concat cs) last),
)

poured-written :
    (r : VerifyingReader) (cs : List Text) (last : Text)
    → (poured r cs last).written ≡ r.written ++ (concat cs ++ last)
poured-written r [] last = take_in-written r last
poured-written r (c ∷ cs) last =
    poured-written (take_in r c) cs last
    ∙ ap (λ w. w ++ (concat cs ++ last)) (take_in-written r c)
    ∙ append_assoc r.written c (concat cs ++ last)
    ∙ ap (λ w. r.written ++ w) (sym (append_assoc c (concat cs) last))

size-poured :
    (r : VerifyingReader) (cs : List Text) (last : Text) → r.size ≤ (poured r cs last).size
size-poured r cs last = omega (arith, poured-size r cs last)

-- What has been read in the end.
abbrev pub whole : Text → VerifyingReader
whole bytes = record { written = bytes; size = length bytes }

reader_eq : (r s : VerifyingReader) → r.written ≡ s.written → r.size ≡ s.size → r ≡ s
reader_eq r s e f = cc

fresh-poured : (cs : List Text) (last : Text) → poured fresh cs last ≡ whole (concat cs ++ last)
fresh-poured cs last =
    reader_eq (poured fresh cs last) (whole (concat cs ++ last)) (poured-written fresh cs last)
      (omega (arith, poured-size fresh cs last))

verify-eq-none :
    (d : Digests) (expected : Descriptor) (bytes : Text)
    → (verify d expected bytes ≡ none) ↔ (
        (validate d expected ≡ none)
        × (pos (length bytes) ≡ expected.size)
        × (d.of_bytes bytes ≡ expected.digest))
unfolding verify
verify-eq-none d expected bytes = ground (
  arith,
  int_eq_iff (pos (length bytes)) expected.size,
  text_eq_iff (d.of_bytes bytes) expected.digest,
)

module _ (d : Digests) (expected : Descriptor) {F : Type 0} where
  at_end-eof :
      (k r' : VerifyingReader)
      → (at_end d expected {F = F} k eof ≡ ok r')
        ↔ ((k ≡ r') × (pos k.size ≡ expected.size) × (d.of_bytes k.written ≡ expected.digest))
  unfolding at_end
  at_end-eof k r' = ground (
    arith,
    int_eq_iff (pos k.size) expected.size,
    text_eq_iff (d.of_bytes k.written) expected.digest,
  )

  -- A last read ends well exactly when the whole content is the expected one.
  read-eof :
      (r r' : VerifyingReader) (last : Text)
      → (read d expected {F = F} r last eof ≡ ok r') ↔ (
          (take_in r last ≡ r')
          × (pos (take_in r last).size ≡ expected.size)
          × (d.of_bytes (take_in r last).written ≡ expected.digest))
  unfolding read
  read-eof r r' last = ground (
    arith,
    at_end-eof (take_in r last) r',
    exceeds-pos (take_in r last).size (take_in r last).size expected.size,
  )

  read-more :
      (r : VerifyingReader) (c : Text)
      → (read d expected {F = F} r c more ≡ ok (take_in r c))
        ⊎ ((read d expected {F = F} r c more ≡ err too_long)
            × (exceeds (take_in r c).size expected.size ≡ true))
  unfolding read at_end
  read-more r c = ground arith

  read_all-eq-ok :
      (cs : List Text) (last : Text) (r r' : VerifyingReader)
      → (read_all d expected {F = F} r cs last none ≡ ok r') ↔ (
          (poured r cs last ≡ r')
          × (pos (poured r cs last).size ≡ expected.size)
          × (d.of_bytes (poured r cs last).written ≡ expected.digest))
  unfolding read_all
  read_all-eq-ok [] last r r' = read-eof r r' last
  read_all-eq-ok (c ∷ cs) last r r' = elim (read-more r c) [
    | inl e ↦ rw e (read_all-eq-ok cs last (take_in r c) r')
    | inr (e, over) ↦ rw e (
      λ h. cc,
      λ h.
          let (_, k, _) = h in
          absurd (
            true≢false (
              sym over
              ∙ exceeds-pos (take_in r c).size (poured (take_in r c) cs last).size expected.size
                  (size-poured (take_in r c) cs last) k)),
    )
  ]

  -- For a descriptor that is valid by itself: however its content is cut into reads, reading it to
  -- the end succeeds exactly when `Verify` accepts the whole content, and then all of it was hashed.
  pub read_all-verify :
      (cs : List Text) (last : Text) (r : VerifyingReader)
      → validate d expected ≡ none
      → (read_all d expected {F = F} fresh cs last none ≡ ok r)
        ↔ ((whole (concat cs ++ last) ≡ r) × (verify d expected (concat cs ++ last) ≡ none))
  read_all-verify cs last r valid = ground (
    arith,
    fresh-poured cs last,
    read_all-eq-ok cs last fresh r,
    verify-eq-none d expected (concat cs ++ last),
  )
