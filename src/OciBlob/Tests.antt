-- ===== src/OciBlob/Tests.antt =====
-- Runs on small blobs. The digests of these runs are the bytes themselves.
use ocidoc_go.Base.{◌≡◌, ◌↔◌, refl, true, none, [], ◌∷◌, Text, text_eq, codes, ok, err, pos}
use ocidoc_go.Oci.{Digests, Descriptor, int_eq}
use ocidoc_go.OciBlob.{validate_digest, validate, verify}
use ocidoc_go.OciBlob.Stream.{too_long, fresh, exceeds, take_in, at_end, read, read_all}
use ocidoc_go.OciBlob.Stream.Whole.{whole, read_all-verify}

abbrev pub plain_digests : Digests
plain_digests = record {
  is_valid = λ t. true;
  algorithm = λ t. codes "sha256";
  encoded = λ t. t;
  of_bytes = λ t. t;
}

abbrev blob : Descriptor
blob = record {
  digest = codes "abc";
  media_type = [];
  artifact_type = [];
  size = pos 3;
  annotations = [];
  unread = [];
}

reads_too_much :
    read_all plain_digests blob {F = Text} fresh (codes "ab" ∷ []) (codes "cd") none ≡ err too_long
unfolding text_eq read_all read take_in exceeds at_end int_eq
reads_too_much = refl

blob-valid : validate plain_digests blob ≡ none
unfolding validate validate_digest text_eq
blob-valid = refl

read_all-verify_example :
    (read_all plain_digests blob {F = Text} fresh (codes "a" ∷ codes "b" ∷ []) (codes "c") none
      ≡ ok (whole (codes "abc")))
    ↔ ((whole (codes "abc") ≡ whole (codes "abc"))
        × (verify plain_digests blob (codes "abc") ≡ none))
read_all-verify_example =
    read_all-verify plain_digests blob {F = Text} (codes "a" ∷ codes "b" ∷ []) (codes "c")
      (whole (codes "abc")) blob-valid
