-- ===== src/Git/Frame/Laws.antt =====
-- What `decode` reads of what the encoders write.
use crabforge.Prelude.{
  ℕ, ◌^◌, ◌<◌, ◌≡◌, refl, sym, ap, ◌∙◌, true, false, [], ◌++◌, Option, none, some, arith, ltb,
  if◌then◌else◌, Result, ok, err, length, replicate, append-nil, ◌==◌,
}
use crabforge.Bus.Writer.{Bytes}
use crabforge.Git.Bytes.{to_le_bytes, from_le_bytes, from_le_bytes-to_le_bytes}
use crabforge.Git.Frame.{
  Kind, commit, tree, blob, tag, to_byte, from_byte, Frame, whole, manifest, chunk, FrameError,
  too_short, bad_kind, write_header, encode_whole, encode_manifest, encode_chunk, decode_body,
  decode, header_len,
}

pub from_byte-to_byte : (k : Kind) → from_byte (to_byte k) ≡ some k
unfolding from_byte to_byte
from_byte-to_byte commit = refl
from_byte-to_byte tree = refl
from_byte-to_byte blob = refl
from_byte-to_byte tag = refl

-- `decode` with the fields of a header in place.
abbrev read_fields : ℕ → Option Kind → ℕ → ℕ → ℕ → ℕ → Bytes → Result Frame FrameError
read_fields len k b flags claimed chunk_count body =
    if ltb len header_len then err (too_short len) else elim k [
      | none ↦ err (bad_kind b)
      | some kind ↦ decode_body kind flags claimed chunk_count body
    ]

decode-fields :
    (kind : Kind) (flags len chunk_count : ℕ) (body : Bytes)
    → decode (write_header kind flags len chunk_count ++ body)
      ≡ read_fields
          (length (replicate 18 0 ++ body))
          (from_byte (to_byte kind))
          (to_byte kind)
          flags
          (from_le_bytes (to_le_bytes 8 len))
          (from_le_bytes (to_le_bytes 4 chunk_count))
          body
unfolding decode write_header to_le_bytes
decode-fields kind flags len chunk_count body = refl

pub ==_refl : (n : ℕ) → (n == n) ≡ true
==_refl n = ground arith

long_enough : (body : Bytes) → ltb (length (replicate 18 0 ++ body)) header_len ≡ false
long_enough body = ground arith

pub decode-write_header :
    (kind : Kind) (flags len chunk_count : ℕ) (body : Bytes)
    → len < 2 ^ 64
    → chunk_count < 2 ^ 32
    → decode (write_header kind flags len chunk_count ++ body)
      ≡ decode_body kind flags len chunk_count body
decode-write_header kind flags len chunk_count body h k =
    decode-fields kind flags len chunk_count body
    ∙ rw
        (
          long_enough body,
          from_byte-to_byte kind,
          from_le_bytes-to_le_bytes 8 len (omega (arith, h)),
          from_le_bytes-to_le_bytes 4 chunk_count (omega (arith, k)),
        )
        refl

-- A whole object of fewer than 2^64 bytes is read back from its frame.
pub decode-encode_whole :
    (kind : Kind) (content : Bytes)
    → length content < 2 ^ 64
    → decode (encode_whole kind content) ≡ ok (whole kind content)
unfolding encode_whole
decode-encode_whole kind content h =
    decode-write_header kind 0 (length content) 0 content h (omega arith)
    ∙ rw (==_refl (length content)) refl

pub decode-encode_manifest :
    (kind : Kind) (total_len chunk_count : ℕ)
    → total_len < 2 ^ 64
    → chunk_count < 2 ^ 32
    → decode (encode_manifest kind total_len chunk_count) ≡ ok (manifest kind total_len chunk_count)
unfolding encode_manifest
decode-encode_manifest kind total_len chunk_count h k =
    ap decode (sym (append-nil (write_header kind 1 total_len chunk_count)))
    ∙ decode-write_header kind 1 total_len chunk_count [] h k

pub decode-encode_chunk :
    (kind : Kind) (part : Bytes)
    → length part < 2 ^ 64
    → decode (encode_chunk kind part) ≡ ok (chunk kind part)
unfolding encode_chunk
decode-encode_chunk kind part h =
    decode-write_header kind 2 (length part) 0 part h (omega arith)
    ∙ rw (==_refl (length part)) refl
