-- ===== src/OciBlob/Stream.antt =====
-- internal/ociblob/stream.go: the reader that checks size and digest while it is read.
pub mod Whole
use mathlib.Core.Bool.{true≢false}
use ocidoc_go.Base.{
  ◌≡◌, ◌↔◌, refl, sym, ap, ◌∙◌, Bool, true, false, not, ◌&&◌, ◌+◌, ◌≤◌, ◌<◌, ℕ, Option, none, some,
  List, [], ◌∷◌, ◌++◌, append-nil, append_assoc, length-append, if◌then◌else◌, Text, text_eq,
  text_eq_iff, is_empty, length, Result, ok, err, ◌>>=◌, ℤ, pos, negsuc, ltb, arith, inl, inr,
  Bool-cases,
}
use ocidoc_go.Oci.{Digests, Descriptor, int_eq}

-- What a `Read` of the wrapped reader says beside its bytes.
pub data ReadEnd (F : Type 0) : Type 0 where
  more : ReadEnd F
  eof : ReadEnd F
  failed : F → ReadEnd F

pub data StreamError (F : Type 0) : Type 0 where
  too_long : StreamError F
  wrong_size : StreamError F
  wrong_digest : StreamError F
  source : F → StreamError F

-- `VerifyingReadCloser`: the state of its verifier is what was written to it.
pub record VerifyingReader : Type 0 where
  pub written : Text
  pub size : ℕ

-- `NewVerifyingReadCloser`
abbrev pub fresh : VerifyingReader
fresh = record { written = []; size = 0 }

-- `i < n`
unfoldable pub exceeds : ℕ → ℤ → Bool
exceeds n (pos i) = ltb i n
exceeds n (negsuc i) = true

-- The bytes of one `Read`, counted and written to the verifier.
unfoldable pub take_in : VerifyingReader → Text → VerifyingReader
take_in r [] = r
take_in r (c ∷ bytes) = record {
  written = r.written ++ c ∷ bytes;
  size = r.size + length (c ∷ bytes);
}

module _ (d : Digests) (expected : Descriptor) {F : Type 0} where
  -- The checks at the end of the wrapped reader.
  unfoldable pub at_end : VerifyingReader → ReadEnd F → Result (StreamError F) VerifyingReader
  at_end r more = ok r
  at_end r (failed f) = err (source f)
  at_end r eof =
      if not (int_eq (pos r.size) expected.size)
      then err wrong_size
      else if not (text_eq (d.of_bytes r.written) expected.digest)
      then err wrong_digest
      else ok r

  -- `Read`; an int64 holds every size that is read.
  unfoldable pub read : VerifyingReader → Text → ReadEnd F → Result (StreamError F) VerifyingReader
  read r bytes end =
      if not (is_empty bytes) && exceeds (take_in r bytes).size expected.size
      then err too_long
      else at_end (take_in r bytes) end

  -- `io.ReadAll` of the reader, whose source gives some chunks and ends with a last one.
  unfoldable pub read_all :
      VerifyingReader → List Text → Text → Option F → Result (StreamError F) VerifyingReader
  read_all r [] last none = read r last eof
  read_all r [] last (some f) = read r last (failed f)
  read_all r (c ∷ cs) last end = do r' ← read r c more; read_all r' cs last end

-- The bytes that the chunks hold.
abbrev pub concat : List Text → Text
concat [] = []
concat (c ∷ cs) = c ++ concat cs
