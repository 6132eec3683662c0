-- ===== src/Types/Oid.antt =====
-- crates/forge-types/src/oid.rs: git object ids, 20 raw bytes shown as 40 lowercase hex digits.
-- A text is given by its bytes here, as `from_str` reads it.
pub mod Laws
use Prim.Native.Nat.{bit_or}
use crabforge.Prelude.{
  ℕ, ◌+◌, ◌-◌, ◌*◌, ◌/◌, ◌%◌, ◌<◌, ◌≡◌, Bool, ◌&&◌, List, [], ◌∷◌, Option, none, some, ltb, leb,
  ◌==◌, not, if◌then◌else◌, Result, ok, err, length, replicate, All,
}
use crabforge.Str.{Text, text_eq}

-- `struct Oid([u8; 20])`, by its bytes; `IsOid` holds of the arrays that the type admits.
abbrev pub Oid : Type 0
Oid = List ℕ

abbrev pub IsOid : Oid → Type 0
IsOid o = (length o ≡ 20) × All (λ b. b < 256) o

pub data InvalidOid : Type 0 where
  bad_length : ℕ → InvalidOid
  not_hex : InvalidOid

abbrev pub hex_len : ℕ
hex_len = 40

abbrev pub zero_oid : Oid
zero_oid = replicate 20 0

unfoldable pub is_zero : Oid → Bool
unfolding text_eq
is_zero o = text_eq o zero_oid

-- The digits of `{:x}`.
abbrev pub hex_digit : ℕ → ℕ
hex_digit v = if ltb v 10 then v + b'0' else v - 10 + b'a'

unfoldable pub to_hex : Oid → Text
to_hex [] = []
to_hex (byte ∷ rest) = hex_digit (byte / 16) ∷ hex_digit (byte % 16) ∷ to_hex rest

unfoldable pub hex_val : ℕ → Option ℕ
hex_val c =
    if leb b'0' c && leb c b'9'
    then some (c - b'0')
    else if leb b'a' c && leb c b'f'
    then some (c - b'a' + 10)
    else if leb b'A' c && leb c b'F'
    then some (c - b'A' + 10)
    else none

-- One round of the loop: `(hi << 4) | lo` in a `u8`, in front of the bytes that follow.
abbrev pub push_byte : Option ℕ → Option ℕ → Result Oid InvalidOid → Result Oid InvalidOid
push_byte none _ _ = err not_hex
push_byte (some hi) none _ = err not_hex
push_byte (some hi) (some lo) (err e) = err e
push_byte (some hi) (some lo) (ok rest) = ok (bit_or (hi * 16 % 256) lo ∷ rest)

-- The loop over `chunks_exact(2)`.
unfoldable pub decode_pairs : Text → Result Oid InvalidOid
unfolding hex_val
decode_pairs [] = ok []
decode_pairs (c ∷ []) = ok []
decode_pairs (c ∷ d ∷ rest) = push_byte (hex_val c) (hex_val d) (decode_pairs rest)

unfoldable pub from_str : Text → Result Oid InvalidOid
unfolding decode_pairs
from_str s = if not (length s == hex_len) then err (bad_length (length s)) else decode_pairs s
