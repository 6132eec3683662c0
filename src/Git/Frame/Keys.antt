-- ===== src/Git/Frame/Keys.antt =====
-- crates/forge-git/src/frame.rs: the keys of object records, and how they are read.
pub mod RoundTrip
use crabforge.Prelude.{
  ℕ, zero, suc, ◌+◌, ◌-◌, ◌*◌, ◌/◌, ◌%◌, ◌^◌, ◌<◌, ◌≤◌, ◌≡◌, ◌≢◌, refl, sym, ap, ◌∙◌, Bool, true,
  false, ◌&&◌, not, List, [], ◌∷◌, ◌++◌, Option, none, some, ltb, leb, ◌==◌, if◌then◌else◌, arith,
  Result, ok, err, length, replicate, All, All-append,
}
use crabforge.Str.{Text, codes, strip_prefix}
use crabforge.Str.Laws.{NoSlash, strip_prefix-append}
use crabforge.Types.Oid.{Oid, InvalidOid, IsOid, to_hex, from_str, hex_digit}
use crabforge.Types.Oid.Laws.{from_str-to_hex}
use crabforge.Events.Headers.{decimal}
use crabforge.Git.Frame.{object_key, chunk_key, six_digits}

abbrev cons_first : ℕ → Option (Text × Text) → Option (Text × Text)
cons_first c none = none
cons_first c (some (before, after)) = some (c ∷ before, after)

-- `split_once`, for a separator that is not empty.
unfoldable pub split_once : Text → Text → Option (Text × Text)
unfolding strip_prefix
split_once sep [] = none
split_once sep (c ∷ s) =
    let rest = split_once sep s in
    elim (strip_prefix sep (c ∷ s)) [ some after ↦ some ([], after) | none ↦ cons_first c rest ]

-- The digits of a `u32`, after `value`; `none` for another char or on overflow.
unfoldable pub parse_digits : ℕ → Text → Option ℕ
parse_digits value [] = some value
parse_digits value (c ∷ s) =
    let rest = parse_digits (value * 10 + (c - b'0')) s in
    if leb b'0' c && (leb c b'9' && ltb (value * 10 + (c - b'0')) (2 ^ 32)) then rest else none

-- `u32::from_str`
unfoldable pub parse_u32 : Text → Option ℕ
unfolding parse_digits
parse_u32 [] = none
parse_u32 (c ∷ []) = if c == b'+' then none else parse_digits 0 (c ∷ [])
parse_u32 (c ∷ d ∷ s) = if c == b'+' then parse_digits 0 (d ∷ s) else parse_digits 0 (c ∷ d ∷ s)

-- The two arms of `parse_key`.
abbrev pub with_index : Result Oid InvalidOid → Option ℕ → Option (Oid × Option ℕ)
with_index (err e) index = none
with_index (ok oid) none = none
with_index (ok oid) (some index) = some (oid, some index)

abbrev pub without_index : Result Oid InvalidOid → Option (Oid × Option ℕ)
without_index (err e) = none
without_index (ok oid) = some (oid, none)

unfoldable pub parse_key : Text → Option (Oid × Option ℕ)
unfolding strip_prefix split_once parse_u32 from_str
parse_key key = elim (strip_prefix (codes "o/") key) [
  | none ↦ none
  | some rest ↦ elim (split_once (codes "/c/") rest) [
    | some (oid, index) ↦ with_index (from_str oid) (parse_u32 index)
    | none ↦ without_index (from_str rest)
  ]
]
