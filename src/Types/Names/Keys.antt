-- ===== src/Types/Names/Keys.antt =====
-- The lookup key `owner/name` of a repository.
use crabforge.Prelude.{ℕ, ◌≡◌, ap, ◌≢◌, true, [], ◌∷◌, arith, ok, all}
use crabforge.Str.{Text, to_ascii_lowercase, lower_char}
use crabforge.Str.Laws.{NoSlash, append-slash_injective}
use crabforge.Types.Names.{is_legal, Username, parse_username, RepoName, full_name_lower}
use crabforge.Types.Names.Laws.{parse_username_iff}

lower_char-NoSlash : (c : ℕ) → is_legal c ≡ true → lower_char c ≢ b'/'
unfolding lower_char
lower_char-NoSlash c h = ground arith

lower-NoSlash : (s : Text) → all is_legal s ≡ true → NoSlash (to_ascii_lowercase s)
unfolding to_ascii_lowercase
lower-NoSlash [] h = tt
lower-NoSlash (c ∷ s) h =
    let a : is_legal c ≡ true = ground arith in
    let b : all is_legal s ≡ true = ground arith in (lower_char-NoSlash c a, lower-NoSlash s b)

pub username_lower-NoSlash : (x : Text) {u : Username} → parse_username x ≡ ok u → NoSlash u.lower
username_lower-NoSlash x {u} h =
    let (name, free, shape) = (parse_username_iff x u).0 h in
    rw (ap (λ (v : Username). v.lower) shape) (lower-NoSlash x name.legal)

-- Two repositories of accepted names share a lookup key only if their owners' lower-case names and
-- their own are the same.
pub full_name_lower-injective :
    (x y : Text) (u v : Username) (r q : RepoName)
    → parse_username x ≡ ok u
    → parse_username y ≡ ok v
    → full_name_lower u r ≡ full_name_lower v q
    → (u.lower ≡ v.lower) × (r.lower ≡ q.lower)
unfolding full_name_lower
full_name_lower-injective x y u v r q hu hv e =
    append-slash_injective u.lower v.lower r.lower q.lower (username_lower-NoSlash x hu)
      (username_lower-NoSlash y hv) e
