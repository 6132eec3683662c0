-- ===== src/Command/Refs/Names.antt =====
-- Which reference names the forge stores.
use crabforge.Prelude.{
  refl, ℕ, ◌≡◌, ◌≢◌, ◌↔◌, ◌≤◌, ◌<◌, ◌≤◌, Bool, true, false, ◌&&◌, ◌||◌, not, [], ◌∷◌, ◌++◌, arith,
  all, All, ltb, if◌then◌else◌,
}
use crabforge.Str.{Text, codes, len, starts_with, ends_with, contains}
use crabforge.Str.Contains.{starts_with_iff, contains_never, ends_with_never}
use crabforge.Command.Refs.{is_ref_char, is_valid_ref_name}

-- A char that is no control character, no space and none of `~ ^ : ? * [ \`.
abbrev pub IsRefChar : ℕ → Type 0
IsRefChar c =
    (32 < c)
    × (c ≢ 127)
    × (c ≢ b'~')
    × (c ≢ b'^')
    × (c ≢ b':')
    × (c ≢ b'?')
    × (c ≢ b'*')
    × (c ≢ b'[')
    × (c ≢ 92)

is_ref_char_iff : (c : ℕ) → (is_ref_char c ≡ true) ↔ IsRefChar c
is_ref_char_iff c = ground arith

both : (a b : Bool) → ((a && b) ≡ true) ↔ ((a ≡ true) × (b ≡ true))
both a b = ground arith

all_iff : (s : Text) → (all is_ref_char s ≡ true) ↔ All IsRefChar s
all_iff [] = (λ h. tt, λ h. refl)
all_iff (c ∷ s) =
    let (one, one') = is_ref_char_iff c in
    let (rest, rest') = all_iff s in
    let (split, join) = both (is_ref_char c) (all is_ref_char s) in
    (λ h. (one (split h).0, rest (split h).1), λ h. join (one' h.0, rest' h.1))

-- A name under `refs/` of at most 255 bytes with no `..`, no empty component, no final `.lock`
-- and no char that git refuses.
pub record IsRefName (name : Text) : Type 0 where
  pub under : (t : Text) × (name ≡ codes "refs/" ++ t)
  pub short : len name ≤ 255
  pub no_dots : (a b : Text) → name ≢ a ++ codes ".." ++ b
  pub no_empty : (a b : Text) → name ≢ a ++ codes "//" ++ b
  pub no_slash : (t : Text) → name ≢ t ++ codes "/"
  pub no_lock : (t : Text) → name ≢ t ++ codes ".lock"
  pub chars : All IsRefChar name

-- The tests as they stand in the code, for any answers.
guards_iff :
    (under dots empty slash lock chars : Bool) (n : ℕ)
    → ((if not under || ltb 255 n
          then false
          else if dots || (empty || (slash || lock))
          then false
          else chars)
        ≡ true)
      ↔ ((under ≡ true)
          × (n ≤ 255)
          × (dots ≡ false)
          × (empty ≡ false)
          × (slash ≡ false)
          × (lock ≡ false)
          × (chars ≡ true))
guards_iff under dots empty slash lock chars n = ground arith

tests_iff :
    (name : Text)
    → (is_valid_ref_name name ≡ true) ↔ (
        (starts_with (codes "refs/") name ≡ true)
        × (len name ≤ 255)
        × (contains (codes "..") name ≡ false)
        × (contains (codes "//") name ≡ false)
        × (ends_with (codes "/") name ≡ false)
        × (ends_with (codes ".lock") name ≡ false)
        × (all is_ref_char name ≡ true))
unfolding is_valid_ref_name
tests_iff name =
    guards_iff (starts_with (codes "refs/") name) (contains (codes "..") name)
      (contains (codes "//") name) (ends_with (codes "/") name) (ends_with (codes ".lock") name)
      (all is_ref_char name) (len name)

-- A reference name is accepted exactly when it lies under `refs/`, has at most 255 bytes, holds
-- neither `..` nor an empty component, does not end in `/` or `.lock`, and consists of chars that
-- are no control character, no space and none of `~ ^ : ? * [ \`.
pub is_valid_ref_name_iff : (name : Text) → (is_valid_ref_name name ≡ true) ↔ IsRefName name
is_valid_ref_name_iff name = (
  λ h.
      let (under, short, dots, empty, slash, lock, chars) = (tests_iff name).0 h in
      record {
        under = (starts_with_iff (codes "refs/") name).0 under;
        short = short;
        no_dots = (contains_never (codes "..") name).0 dots;
        no_empty = (contains_never (codes "//") name).0 empty;
        no_slash = (ends_with_never (codes "/") name).0 slash;
        no_lock = (ends_with_never (codes ".lock") name).0 lock;
        chars = (all_iff name).0 chars;
      },
  λ h. (tests_iff name).1 (
    (starts_with_iff (codes "refs/") name).1 h.under,
    h.short,
    (contains_never (codes "..") name).1 h.no_dots,
    (contains_never (codes "//") name).1 h.no_empty,
    (ends_with_never (codes "/") name).1 h.no_slash,
    (ends_with_never (codes ".lock") name).1 h.no_lock,
    (all_iff name).1 h.chars,
  ),
)
