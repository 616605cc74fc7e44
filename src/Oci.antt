-- ===== src/Oci.antt =====
-- The values of go-digest and of the OCI image specification that the code reads. What a digest is
-- made of is a parameter, as is everything else of these packages.
use ocidoc_go.Base.{
  ◌≡◌, ◌↔◌, true, arith, Bool, false, ◌==◌, Option, List, [], ◌∷◌, if◌then◌else◌, Text, text_eq, ℤ,
  pos, negsuc,
}

-- go-digest: `Validate`, `Algorithm`, `Encoded` and `FromBytes` of the canonical algorithm.
pub record Digests : Type 0 where
  pub is_valid : Text → Bool
  pub algorithm : Text → Text
  pub encoded : Text → Text
  pub of_bytes : Text → Text

-- `ocispec.Descriptor`; `unread` stands for the URLs, the data and the platform, which only
-- `reflect.DeepEqual` looks at.
pub record Descriptor : Type 0 where
  pub digest : Text
  pub media_type : Text
  pub artifact_type : Text
  pub size : ℤ
  pub annotations : List (Text × Text)
  pub unread : Text

-- The fields of `ocispec.Manifest` that the code uses.
pub record Manifest : Type 0 where
  pub artifact_type : Text
  pub subject : Option Descriptor
  pub config : Descriptor
  pub layers : List Descriptor
  pub annotations : List (Text × Text)

-- `annotations[key]` of a Go map: the empty string where the key is missing.
unfoldable pub value_at : Text → List (Text × Text) → Text
value_at key [] = []
value_at key ((k, v) ∷ rest) = let found = value_at key rest in if text_eq k key then v else found

-- `a == b` on int64.
unfoldable pub int_eq : ℤ → ℤ → Bool
int_eq (pos m) (pos n) = m == n
int_eq (pos m) (negsuc n) = false
int_eq (negsuc m) (pos n) = false
int_eq (negsuc m) (negsuc n) = m == n

pub int_eq_iff : (a b : ℤ) → (int_eq a b ≡ true) ↔ (a ≡ b)
unfolding int_eq
int_eq_iff (pos m) (pos n) = ground arith
int_eq_iff (pos m) (negsuc n) = (λ h. cc, λ h. cc)
int_eq_iff (negsuc m) (pos n) = (λ h. cc, λ h. cc)
int_eq_iff (negsuc m) (negsuc n) = ground arith
