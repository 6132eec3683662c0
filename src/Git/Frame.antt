-- ===== src/Git/Frame.antt =====
-- crates/forge-git/src/frame.rs: the records of git objects.
pub mod Laws
pub mod Chunks
pub mod Keys
use crabforge.Prelude.{
  ℕ, zero, suc, ◌+◌, ◌-◌, ◌*◌, ◌/◌, ◌%◌, ◌^◌, Bool, true, false, not, List, [], ◌∷◌, ◌++◌, Option,
  none, some, ltb, leb, ◌==◌, if◌then◌else◌, Result, ok, err, length, take, drop, get_elem?,
  replicate,
}
use crabforge.Str.{Text, codes, text_eq}
use crabforge.Bus.Writer.{Bytes}
use crabforge.Types.Oid.{Oid, to_hex}
use crabforge.Types.Size.{div_ceil, object_chunk}
use crabforge.Events.Headers.{decimal}
use crabforge.Git.Bytes.{to_le_bytes, from_le_bytes, chunks}

pub data Kind : Type 0 where
  commit tree blob tag : Kind

unfoldable pub to_byte : Kind → ℕ
to_byte commit = 1
to_byte tree = 2
to_byte blob = 3
to_byte tag = 4

unfoldable pub from_byte : ℕ → Option Kind
from_byte b =
    if b == 1
    then some commit
    else if b == 2
    then some tree
    else if b == 3
    then some blob
    else if b == 4
    then some tag
    else none

unfoldable pub as_str : Kind → Text
as_str commit = codes "commit"
as_str tree = codes "tree"
as_str blob = codes "blob"
as_str tag = codes "tag"

-- `Kind::parse`
unfoldable pub parse_kind : Text → Option Kind
unfolding text_eq
parse_kind s =
    if text_eq s (codes "commit")
    then some commit
    else if text_eq s (codes "tree")
    then some tree
    else if text_eq s (codes "blob")
    then some blob
    else if text_eq s (codes "tag")
    then some tag
    else none

pub data FrameError : Type 0 where
  too_short : ℕ → FrameError
  bad_magic : FrameError
  bad_kind : ℕ → FrameError
  length_mismatch : (claimed actual : ℕ) → FrameError
  corrupt_content : (expected actual : Oid) → FrameError
  missing_chunk : (index : ℕ) → FrameError

pub data Frame : Type 0 where
  whole : (kind : Kind) (content : Bytes) → Frame
  manifest : (kind : Kind) (total_len chunk_count : ℕ) → Frame
  chunk : (kind : Kind) (part : Bytes) → Frame

abbrev pub magic : Bytes
magic = codes "FGO1"

abbrev pub header_len : ℕ
header_len = 18

abbrev pub flag_chunked : ℕ
flag_chunked = 1

abbrev pub flag_is_chunk : ℕ
flag_is_chunk = 2

-- `write_header`, for an empty `out`.
unfoldable pub write_header : Kind → ℕ → ℕ → ℕ → Bytes
unfolding to_byte to_le_bytes
write_header kind flags len chunk_count =
    magic ++ to_byte kind ∷ flags ∷ to_le_bytes 8 len ++ to_le_bytes 4 chunk_count

unfoldable pub encode_whole : Kind → Bytes → Bytes
unfolding write_header
encode_whole kind content = write_header kind 0 (length content) 0 ++ content

unfoldable pub encode_manifest : Kind → ℕ → ℕ → Bytes
unfolding write_header
encode_manifest kind total_len chunk_count = write_header kind flag_chunked total_len chunk_count

unfoldable pub encode_chunk : Kind → Bytes → Bytes
unfolding write_header
encode_chunk kind part = write_header kind flag_is_chunk (length part) 0 ++ part

-- `bytes[i]`, where the test of the length has put `i` in range.
abbrev pub byte_at : ℕ → Bytes → ℕ
byte_at i [] = 0
byte_at zero (b ∷ bs) = b
byte_at (suc i) (b ∷ bs) = byte_at i bs

-- `flags & flag != 0` for a flag that is one bit.
abbrev pub has_flag : ℕ → ℕ → Bool
has_flag flags flag = flags / flag % 2 == 1

-- The tail of `decode`, once the header is read.
abbrev pub decode_body : Kind → ℕ → ℕ → ℕ → Bytes → Result Frame FrameError
decode_body kind flags claimed chunk_count body =
    if has_flag flags flag_chunked
    then ok (manifest kind claimed chunk_count)
    else if not (claimed == length body)
    then err (length_mismatch claimed (length body))
    else if has_flag flags flag_is_chunk
    then ok (chunk kind body)
    else ok (whole kind body)

unfoldable pub decode : Bytes → Result Frame FrameError
unfolding text_eq from_byte from_le_bytes
decode bytes =
    if ltb (length bytes) header_len
    then err (too_short (length bytes))
    else if not (text_eq (take 4 bytes) magic)
    then err bad_magic
    else elim (from_byte (byte_at 4 bytes)) [
      | none ↦ err (bad_kind (byte_at 4 bytes))
      | some kind ↦
          decode_body kind (byte_at 5 bytes) (from_le_bytes (take 8 (drop 6 bytes)))
            (from_le_bytes (take 4 (drop 14 bytes))) (drop header_len bytes)
    ]

-- `format!("o/{oid}")`
unfoldable pub object_key : Oid → Text
unfolding to_hex
object_key oid = codes "o/" ++ to_hex oid

-- `{index:06}`; ten digits are enough for a `u32`.
abbrev pub six_digits : ℕ → Text
six_digits index = let digits = decimal 10 index [] in replicate (6 - length digits) b'0' ++ digits

unfoldable pub chunk_key : Oid → ℕ → Text
unfolding to_hex decimal
chunk_key oid index = codes "o/" ++ to_hex oid ++ codes "/c/" ++ six_digits index

-- `Encoded::records`
abbrev pub Encoded : Type 0
Encoded = List (Text × Bytes)

-- `len.div_ceil(*chunk as usize) as u32`
unfoldable pub chunk_count_for : ℕ → ℕ → ℕ
chunk_count_for len chunk_size = div_ceil len chunk_size % 2 ^ 32

-- The loop over `content.chunks(chunk_bytes).enumerate()`, from `index` on.
unfoldable pub chunk_records : Oid → Kind → ℕ → List Bytes → Encoded
unfolding chunk_key encode_chunk
chunk_records oid kind index [] = []
chunk_records oid kind index (part ∷ parts) =
    (chunk_key oid (index % 2 ^ 32), encode_chunk kind part)
    ∷ chunk_records oid kind (suc index) parts

unfoldable pub encode_object : Oid → Kind → Bytes → Encoded
unfolding object_chunk object_key encode_whole encode_manifest chunk_count_for chunks chunk_records
encode_object oid kind content =
    if leb (length content) object_chunk
    then (object_key oid, encode_whole kind content) ∷ []
    else (
      object_key oid,
      encode_manifest kind (length content) (chunk_count_for (length content) object_chunk),
    )
      ∷ chunk_records oid kind 0 (chunks object_chunk content)

-- The loop of `reassemble`: `n` more chunks, from `index` on.
unfoldable pub gather : ℕ → ℕ → List (Option Bytes) → Bytes → Result Bytes FrameError
gather zero index parts content = ok content
gather (suc n) index parts content = elim (get_elem? parts index) [
  | none ↦ err (missing_chunk index)
  | some none ↦ err (missing_chunk index)
  | some (some part) ↦ gather n (suc index) parts (content ++ part)
]

abbrev pub check_len : ℕ → Result Bytes FrameError → Result Bytes FrameError
check_len total_len (err e) = err e
check_len total_len (ok content) =
    if not (length content == total_len)
    then err (length_mismatch total_len (length content))
    else ok content

unfoldable pub reassemble : ℕ → ℕ → List (Option Bytes) → Result Bytes FrameError
unfolding gather
reassemble total_len chunk_count parts = check_len total_len (gather chunk_count 0 parts [])

-- `compute_oid`; `sha1` is the digest of the `sha1` crate.
unfoldable pub compute_oid : (Bytes → Oid) → Kind → Bytes → Oid
unfolding as_str decimal
compute_oid sha1 kind content =
    sha1 (as_str kind ++ codes " " ++ decimal 20 (length content) [] ++ 0 ∷ content)

unfoldable pub verify : (Bytes → Oid) → Oid → Kind → Bytes → Result (Unit {0}) FrameError
unfolding compute_oid text_eq
verify sha1 oid kind content =
    let actual = compute_oid sha1 kind content in
    if text_eq actual oid then ok tt else err (corrupt_content oid actual)
