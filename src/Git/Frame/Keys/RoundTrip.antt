-- ===== src/Git/Frame/Keys/RoundTrip.antt =====
-- Keys are read as what they were written for.
use crabforge.Prelude.{
  ℕ, zero, suc, ◌+◌, ◌-◌, ◌*◌, ◌/◌, ◌%◌, ◌^◌, ◌<◌, ◌≤◌, ◌≡◌, ◌≢◌, refl, ap, ◌∙◌, true, [], ◌∷◌,
  ◌++◌, none, some, ltb, ltb→lt, arith, length, length-append, replicate, All, All-append,
  Bool-cases, inl, inr,
}
use crabforge.Str.{Text, codes, strip_prefix}
use crabforge.Str.Laws.{NoSlash}
use crabforge.Types.Oid.{Oid, IsOid, to_hex, hex_digit}
use crabforge.Types.Oid.Laws.{from_str-to_hex}
use crabforge.Events.Headers.{decimal}
use crabforge.Git.Frame.{object_key, chunk_key, six_digits}
use crabforge.Git.Frame.Keys.{split_once, parse_digits, parse_u32, parse_key}

-- A text without a `/` is not split, and is what stands before the first separator.
split_once-append :
    (s t : Text) → NoSlash s → split_once (codes "/c/") (s ++ codes "/c/" ++ t) ≡ some (s, t)
unfolding split_once strip_prefix
split_once-append [] t h = refl
split_once-append (c ∷ s) t h = let rest = split_once-append s t h.1 in ground (arith, rest, h.0)

split_once-none : (s : Text) → NoSlash s → split_once (codes "/c/") s ≡ none
unfolding split_once strip_prefix
split_once-none [] h = refl
split_once-none (c ∷ s) h = let rest = split_once-none s h.1 in ground (arith, rest, h.0)

hex_digit-ne : (v : ℕ) → v < 16 → hex_digit v ≢ b'/'
hex_digit-ne v h = ground arith

to_hex-NoSlash : (o : Oid) → All (λ b. b < 256) o → NoSlash (to_hex o)
unfolding to_hex
to_hex-NoSlash [] h = tt
to_hex-NoSlash (b ∷ o) h = (
  hex_digit-ne (b / 16) (omega (arith, h.0)),
  (hex_digit-ne (b % 16) (omega arith), to_hex-NoSlash o h.1),
)

abbrev IsDigits : Text → Type 0
IsDigits = All (λ c. (b'0' ≤ c) × (c ≤ b'9'))

decimal-IsDigits : (fuel n : ℕ) (acc : Text) → IsDigits acc → IsDigits (decimal fuel n acc)
unfolding decimal
decimal-IsDigits zero n acc h = h
decimal-IsDigits (suc fuel) n acc h =
    let digit = n % 10 + b'0' in
    let both : IsDigits (digit ∷ acc) = ((omega arith, omega arith), h) in
    elim (Bool-cases (ltb n 10)) [
      | inl last ↦ rw last both
      | inr more ↦ rw more (decimal-IsDigits fuel (n / 10) (digit ∷ acc) both)
    ]

zeros-IsDigits : (k : ℕ) → IsDigits (replicate k b'0')
zeros-IsDigits zero = tt
zeros-IsDigits (suc k) = ((omega arith, omega arith), zeros-IsDigits k)

parse_digits-zeros : (k : ℕ) (s : Text) → parse_digits 0 (replicate k b'0' ++ s) ≡ parse_digits 0 s
unfolding parse_digits
parse_digits-zeros zero s = refl
parse_digits-zeros (suc k) s = parse_digits-zeros k s

parse_digits-digit :
    (n : ℕ) (s : Text) → n < 2 ^ 32 → parse_digits (n / 10) ((n % 10 + b'0') ∷ s) ≡ parse_digits n s
unfolding parse_digits
parse_digits-digit n s h =
    let value : n / 10 * 10 + (n % 10 + 48 - 48) ≡ n = omega arith in rw value (ground (arith, h))

parse_digits-first :
    (n : ℕ) (s : Text) → n < 10 → parse_digits 0 ((n % 10 + b'0') ∷ s) ≡ parse_digits n s
parse_digits-first n s h =
    let none_before : 0 ≡ n / 10 = omega (arith, h) in
    ap (λ v. parse_digits v ((n % 10 + b'0') ∷ s)) none_before
    ∙ parse_digits-digit n s (omega (arith, h))

parse_digits-decimal :
    (fuel n : ℕ) (acc : Text)
    → n < 10 ^ suc fuel
    → n < 2 ^ 32
    → parse_digits 0 (decimal (suc fuel) n acc) ≡ parse_digits n acc
unfolding decimal
parse_digits-decimal zero n acc h k =
    let last : ltb n 10 ≡ true = ground (arith, h) in
    rw last (parse_digits-first n acc (ltb→lt n 10 last))
parse_digits-decimal (suc fuel) n acc h k = elim (Bool-cases (ltb n 10)) [
  | inl last ↦ rw last (parse_digits-first n acc (ltb→lt n 10 last))
  | inr more ↦ rw more (
      parse_digits-decimal fuel (n / 10) ((n % 10 + b'0') ∷ acc) (omega (arith, h))
        (omega (arith, k))
      ∙ parse_digits-digit n acc k)
]

parse_u32-digits :
    (c : ℕ) (s : Text) → IsDigits (c ∷ s) → parse_u32 (c ∷ s) ≡ parse_digits 0 (c ∷ s)
unfolding parse_u32
parse_u32-digits c [] h = ground (arith, h.0)
parse_u32-digits c (d ∷ s) h = ground (arith, h.0)

six_digits-IsDigits : (index : ℕ) → IsDigits (six_digits index)
six_digits-IsDigits index =
    All-append (λ c. (b'0' ≤ c) × (c ≤ b'9')) (replicate (6 - length (decimal 10 index [])) b'0')
      (decimal 10 index []) (zeros-IsDigits (6 - length (decimal 10 index [])))
      (decimal-IsDigits 10 index [] tt)

parse_u32_of_digits :
    (s : Text) (n : ℕ) → IsDigits s → s ≢ [] → parse_digits 0 s ≡ some n → parse_u32 s ≡ some n
parse_u32_of_digits [] n h some_text e = absurd (some_text refl)
parse_u32_of_digits (c ∷ s) n h some_text e = parse_u32-digits c s h ∙ e

parse_digits-six_digits :
    (index : ℕ) → index < 2 ^ 32 → parse_digits 0 (six_digits index) ≡ some index
unfolding parse_digits
parse_digits-six_digits index h =
    parse_digits-zeros (6 - length (decimal 10 index [])) (decimal 10 index [])
    ∙ parse_digits-decimal 9 index [] (omega (arith, h)) h

length-replicate : (k c : ℕ) → length (replicate k c) ≡ k
length-replicate zero c = refl
length-replicate (suc k) c = ap suc (length-replicate k c)

six_digits-nonempty : (index : ℕ) → six_digits index ≢ []
six_digits-nonempty index e =
    let digits = decimal 10 index [] in
    omega (
      arith,
      ap length e,
      length-append (replicate (6 - length digits) b'0') digits,
      length-replicate (6 - length digits) b'0',
    )

parse_u32-six_digits : (index : ℕ) → index < 2 ^ 32 → parse_u32 (six_digits index) ≡ some index
parse_u32-six_digits index h =
    parse_u32_of_digits (six_digits index) index (six_digits-IsDigits index)
      (six_digits-nonempty index) (parse_digits-six_digits index h)

-- The key of an object with an id of 20 bytes, and the key of its chunk at any index of 32 bits, are
-- read as the object id and the index that they were written for.
pub parse_key-chunk_key :
    (oid : Oid) (index : ℕ)
    → IsOid oid
    → index < 2 ^ 32
    → (parse_key (object_key oid) ≡ some (oid, none))
      × (parse_key (chunk_key oid index) ≡ some (oid, some index))
unfolding parse_key object_key chunk_key
parse_key-chunk_key oid index good h = (
  rw (split_once-none (to_hex oid) (to_hex-NoSlash oid good.1), parse_key)
      (rw (from_str-to_hex oid good) refl),
  rw (split_once-append (to_hex oid) (six_digits index) (to_hex-NoSlash oid good.1), parse_key)
      (rw (from_str-to_hex oid good, parse_u32-six_digits index h) refl),
)
