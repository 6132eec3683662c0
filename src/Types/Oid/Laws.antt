-- ===== src/Types/Oid/Laws.antt =====
-- Reading and showing object ids.
use Prim.Native.Nat.{bit_or}
use crabforge.Prelude.{
  ℕ, zero, suc, ◌+◌, ◌*◌, ◌/◌, ◌%◌, ◌≤◌, ◌<◌, ◌≡◌, refl, sym, ◌∙◌, inl, inr, Bool, true, false,
  if◌then◌else◌, ◌&&◌, [], ◌∷◌, Option, none, some, arith, ltb, ◌==◌, ==_iff, Result, ok, err,
  length, All, Bool-cases,
}
use crabforge.Str.{Text, to_ascii_lowercase, lower_char}
use crabforge.Types.Oid.{
  Oid, IsOid, InvalidOid, bad_length, hex_digit, to_hex, hex_val, push_byte, decode_pairs, from_str,
}

-- A test on the `count` numbers from `first` on.
passes : (count first : ℕ) → (ℕ → Bool) → Bool
passes zero first test = true
passes (suc count) first test =
    let later = passes count (suc first) test in if test first then later else false

passes-member :
    (count first : ℕ) (test : ℕ → Bool) {v : ℕ}
    → passes count first test ≡ true
    → first ≤ v
    → v < first + count
    → test v ≡ true
unfolding passes
passes-member zero first test h low high = absurd (omega (arith, low, high))
passes-member (suc count) first test {v} h low high = elim (Bool-cases (test first)) [
  | inr fails ↦ absurd (let bad : false ≡ true = rw fails at h in cc)
  | inl holds ↦ elim (Bool-cases (first == v)) [
    | inl here ↦ rw (← (==_iff first v).0 here) holds
    | inr beyond ↦
        let above : suc first ≤ v = ground (arith, low, beyond) in
        passes-member count (suc first) test (rw holds at h) above (omega (arith, high))
  ]
]

nibble_table : passes 256 0 (λ b. bit_or (b / 16 * 16 % 256) (b % 16) == b) ≡ true
unfolding passes
nibble_table = refl

join_nibbles : (b : ℕ) → b < 256 → bit_or (b / 16 * 16 % 256) (b % 16) ≡ b
join_nibbles b h =
    (==_iff _ b).0 (passes-member 256 0 _ nibble_table (omega arith) (omega (arith, h)))

pub hex_val-hex_digit : (v : ℕ) → v < 16 → hex_val (hex_digit v) ≡ some v
unfolding hex_val
hex_val-hex_digit v h = ground arith

pub decode_pairs-to_hex : (o : Oid) → All (λ b. b < 256) o → decode_pairs (to_hex o) ≡ ok o
unfolding to_hex decode_pairs
decode_pairs-to_hex [] h = refl
decode_pairs-to_hex (b ∷ o) h =
    rw (hex_val-hex_digit (b / 16) (omega arith), hex_val-hex_digit (b % 16) (omega arith))
      (rw (decode_pairs-to_hex o h.1) (rw (join_nibbles b h.0)))

pub length-to_hex : (o : Oid) → length (to_hex o) ≡ 2 * length o
unfolding to_hex
length-to_hex [] = omega arith
length-to_hex (b ∷ o) = omega (arith, length-to_hex o)

-- Reading what `to_hex` shows gives the object id back.
pub from_str-to_hex : (o : Oid) → IsOid o → from_str (to_hex o) ≡ ok o
unfolding from_str
from_str-to_hex o h =
    let e : length (to_hex o) ≡ 40 = omega (arith, length-to_hex o) in
    rw e (decode_pairs-to_hex o h.1)

hex_val-lt : (c : ℕ) {v : ℕ} → hex_val c ≡ some v → v < 16
unfolding hex_val
hex_val-lt c h = ground arith

hex_digit-hex_val : (c : ℕ) {v : ℕ} → hex_val c ≡ some v → hex_digit v ≡ lower_char c
unfolding hex_val lower_char
hex_digit-hex_val c h = ground arith

split_check : ℕ → ℕ → Bool
split_check hi lo =
    let b = bit_or (hi * 16 % 256) lo in (b / 16 == hi) && ((b % 16 == lo) && ltb b 256)

split_table : passes 256 0 (λ x. split_check (x / 16) (x % 16)) ≡ true
unfolding passes split_check
split_table = refl

split_nibbles :
    (hi lo : ℕ)
    → hi < 16
    → lo < 16
    → let b = bit_or (hi * 16 % 256) lo in (b / 16 ≡ hi) × (b % 16 ≡ lo) × (b < 256)
unfolding split_check
split_nibbles hi lo h k =
    let a : (hi * 16 + lo) / 16 ≡ hi = omega arith in
    let b : (hi * 16 + lo) % 16 ≡ lo = omega arith in
    let t =
      passes-member 256 0 (λ x. split_check (x / 16) (x % 16)) {v = hi * 16 + lo} split_table
        (omega arith) (omega arith) in
    let u : split_check hi lo ≡ true = rw (a, b) at t in ground arith

push_byte_ok :
    (a b : Option ℕ) (r : Result Oid InvalidOid) {o : Oid}
    → push_byte a b r ≡ ok o
    → (hi : ℕ) × (lo : ℕ) × (rest : Oid) × (a ≡ some hi)
      × (b ≡ some lo)
      × (r ≡ ok rest)
      × (o ≡ bit_or (hi * 16 % 256) lo ∷ rest)
push_byte_ok none b r h = cc
push_byte_ok (some hi) none r h = cc
push_byte_ok (some hi) (some lo) (err e) h = cc
push_byte_ok (some hi) (some lo) (ok rest) h = (hi, lo, rest, refl, refl, refl, cc)

-- What the loop accepts has an even number of hex digits, whose bytes show as the same digits in
-- lower case.
decode_pairs_sound :
    (s : Text) {o : Oid} (k : ℕ)
    → length s ≡ 2 * k
    → decode_pairs s ≡ ok o
    → (length o ≡ k) × All (λ b. b < 256) o × (to_hex o ≡ to_ascii_lowercase s)
unfolding decode_pairs to_hex to_ascii_lowercase
decode_pairs_sound [] {o} k l h = let e : [] ≡ o = cc in rw (← e) (omega arith, tt, refl)
decode_pairs_sound (c ∷ []) k l h = absurd (omega arith)
decode_pairs_sound (c ∷ d ∷ s) zero l h = absurd (omega arith)
decode_pairs_sound (c ∷ d ∷ s) (suc k) l h =
    let (hi, lo, rest, eh, el, er, eo) = push_byte_ok (hex_val c) (hex_val d) (decode_pairs s) h in
    let (n, bytes, shown) = decode_pairs_sound s k (omega arith) er in
    let (top, low, small) = split_nibbles hi lo (hex_val-lt c eh) (hex_val-lt d el) in
    rw eo (
      omega (arith, n),
      (small, bytes),
      rw (top, low, hex_digit-hex_val c eh, hex_digit-hex_val d el, shown),
    )

-- What is read has 40 digits, is an object id, and shows as the digits that were read, in lower
-- case.
pub from_str_sound :
    (s : Text) {o : Oid}
    → from_str s ≡ ok o
    → (length s ≡ 40) × IsOid o × (to_hex o ≡ to_ascii_lowercase s)
unfolding from_str
from_str_sound s h = elim (Bool-cases (length s == 40)) [
  | inl e ↦
      let n = (==_iff _ _).0 e in
      let (l, bytes, shown) = decode_pairs_sound s 20 (omega (arith, n)) (rw e at h) in
      (n, (l, bytes), shown)
  | inr e ↦ absurd (let bad : err (bad_length (length s)) ≡ ok _ = rw e at h in cc)
]

-- Two texts that read as the same object id differ at most in the case of their letters.
pub from_str-injective :
    (s t : Text) {o : Oid}
    → from_str s ≡ ok o
    → from_str t ≡ ok o
    → to_ascii_lowercase s ≡ to_ascii_lowercase t
from_str-injective s t h k = sym (from_str_sound s h).2 ∙ (from_str_sound t k).2
