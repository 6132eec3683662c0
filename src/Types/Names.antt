-- ===== src/Types/Names.antt =====
-- crates/forge-types/src/names.rs: validated user and repository names.
pub mod Laws
pub mod Keys
use crabforge.Prelude.{
  ℕ, Bool, true, false, ◌||◌, List, [], ◌∷◌, ◌++◌, Option, none, some, ltb, ◌==◌, not,
  if◌then◌else◌, all, any, Result, ok, err, and_then,
}
use crabforge.Str.{
  Text, codes, len, text_eq, strip_suffix, ends_with, is_ascii_alphanumeric, to_ascii_lowercase,
}

-- `RESERVED`
abbrev pub reserved_names : List Text
reserved_names =
    codes "api"
    ∷ codes "assets"
    ∷ codes "explore"
    ∷ codes "healthz"
    ∷ codes "internal"
    ∷ codes "login"
    ∷ codes "logout"
    ∷ codes "new"
    ∷ codes "register"
    ∷ codes "settings"
    ∷ codes "static"
    ∷ []

unfoldable pub is_reserved_namespace : Text → Bool
unfolding text_eq to_ascii_lowercase
is_reserved_namespace name = any (text_eq (to_ascii_lowercase name)) reserved_names

pub data InvalidName : Type 0 where
  empty : InvalidName
  too_long : ℕ → ℕ → InvalidName
  illegal_character bad_start bad_end : InvalidName
  reserved : Text → InvalidName
  not_addressable : InvalidName

abbrev pub is_legal : ℕ → Bool
is_legal c = is_ascii_alphanumeric c || (c == b'-' || (c == b'_' || c == b'.'))

unfoldable pub validate : Text → ℕ → Result (Unit {0}) InvalidName
unfolding len ends_with
validate [] max = err empty
validate (first ∷ rest) max =
    let raw = first ∷ rest in
    if ltb max (len raw)
    then err (too_long max (len raw))
    else if not (all is_legal raw)
    then err illegal_character
    else if not (is_ascii_alphanumeric first)
    then err bad_start
    else if ends_with (codes ".") raw
    then err bad_end
    else ok tt

pub record Username : Type 0 where
  pub raw : Text
  pub lower : Text

abbrev pub max_username : ℕ
max_username = 39

unfoldable pub parse_username : Text → Result Username InvalidName
unfolding validate is_reserved_namespace to_ascii_lowercase
parse_username raw = and_then (validate raw max_username) λ _.
    let lower = to_ascii_lowercase raw in
    if is_reserved_namespace lower
    then err (reserved raw)
    else ok (record { raw = raw; lower = lower })

pub record RepoName : Type 0 where
  pub raw : Text
  pub lower : Text

abbrev pub max_repo_name : ℕ
max_repo_name = 100

-- `if let Some(stripped) = raw.strip_suffix(".git") { raw = stripped }`
unfoldable pub strip_git : Text → Text
unfolding strip_suffix
strip_git raw = elim (strip_suffix (codes ".git") raw) [ none ↦ raw | some stripped ↦ stripped ]

unfoldable pub parse_repo_name : Text → Result RepoName InvalidName
unfolding validate strip_git to_ascii_lowercase
parse_repo_name given =
    let raw = strip_git given in
    and_then (validate raw max_repo_name) λ _.
      if text_eq raw (codes ".") || text_eq raw (codes "..")
      then err not_addressable
      else ok (record { raw = raw; lower = to_ascii_lowercase raw })

-- `format!("{}/{}", owner.lower(), repo.lower())`
unfoldable pub full_name_lower : Username → RepoName → Text
full_name_lower owner repo = owner.lower ++ b'/' ∷ repo.lower
