-- ===== src/Tests/Types.antt =====
-- Names, object ids and sizes at concrete inputs.
use crabforge.Prelude.{
  ℕ, ◌+◌, ◌*◌, ◌≤◌, ◌<◌, ◌≡◌, refl, ◌≢◌, ◌↔◌, ◌∷◌, ◌++◌, arith, ok, err, length, replicate, false,
}
use crabforge.Str.{Text, codes, ends_with, to_ascii_lowercase}
use crabforge.Types.Names.{
  Username, RepoName, bad_start, parse_username, parse_repo_name, is_reserved_namespace, strip_git,
  full_name_lower, reserved,
}
use crabforge.Types.Names.Laws.{
  IsName, parse_username_iff, parse_repo_name_iff, parse_repo_name_git, parse_repo_name_double_git,
  dot_git, repo_name_of, username_of,
}
use crabforge.Types.Names.Keys.{full_name_lower-injective}
use crabforge.Types.Oid.{Oid, IsOid, to_hex, from_str}
use crabforge.Types.Oid.Laws.{from_str-to_hex, from_str_sound}
use crabforge.Types.Size.{chunk_count}
use crabforge.Types.Size.Laws.{chunk_count_bounds}

abbrev octocat : Username
octocat = record { raw = codes "Octo-Cat"; lower = codes "octo-cat" }

octocat_parses : parse_username (codes "Octo-Cat") ≡ ok octocat
unfolding parse_username
octocat_parses = refl

rejects_api : parse_username (codes "API") ≡ err (reserved (codes "API"))
unfolding parse_username
rejects_api = refl

abbrev hello : RepoName
hello = record { raw = codes "Hello.World"; lower = codes "hello.world" }

hello_parses : parse_repo_name (codes "Hello.World.git") ≡ ok hello
unfolding parse_repo_name
hello_parses = refl

rejects_dots : parse_repo_name (codes "..") ≡ err bad_start
unfolding parse_repo_name
rejects_dots = refl

parse_username_iff_example : (parse_username (codes "Octo-Cat") ≡ ok octocat) ↔ (
    IsName 39 (codes "Octo-Cat")
    × (is_reserved_namespace (codes "Octo-Cat") ≡ false)
    × (octocat ≡ username_of (codes "Octo-Cat")))
parse_username_iff_example = parse_username_iff (codes "Octo-Cat") octocat

parse_repo_name_iff_example : (parse_repo_name (codes "Hello.World.git") ≡ ok hello) ↔ (
    IsName 100 (strip_git (codes "Hello.World.git"))
    × (hello ≡ repo_name_of (strip_git (codes "Hello.World.git"))))
parse_repo_name_iff_example = parse_repo_name_iff (codes "Hello.World.git") hello

not_git : ends_with dot_git (codes "repo") ≡ false
unfolding ends_with
not_git = refl

parse_repo_name_git_example :
    parse_repo_name (codes "repo" ++ dot_git) ≡ parse_repo_name (codes "repo")
parse_repo_name_git_example = parse_repo_name_git (codes "repo") not_git

abbrev stubborn : RepoName
stubborn = record { raw = codes "a.git"; lower = codes "a.git" }

stubborn_parses : parse_repo_name ((codes "a" ++ dot_git) ++ dot_git) ≡ ok stubborn
unfolding parse_repo_name
stubborn_parses = refl

parse_repo_name_double_git_example :
    (stubborn.raw ≡ codes "a" ++ dot_git) × (parse_repo_name stubborn.raw ≢ ok stubborn)
parse_repo_name_double_git_example =
    parse_repo_name_double_git (codes "a") {r = stubborn} stubborn_parses

abbrev octocat_lower : Username
octocat_lower = record { raw = codes "octo-cat"; lower = codes "octo-cat" }

octocat_lower_parses : parse_username (codes "octo-cat") ≡ ok octocat_lower
unfolding parse_username
octocat_lower_parses = refl

same_key : full_name_lower octocat hello ≡ full_name_lower octocat_lower hello
unfolding full_name_lower
same_key = refl

full_name_lower-injective_example :
    (octocat.lower ≡ octocat_lower.lower) × (hello.lower ≡ hello.lower)
full_name_lower-injective_example =
    full_name_lower-injective (codes "Octo-Cat") (codes "octo-cat") octocat octocat_lower hello
      hello octocat_parses octocat_lower_parses same_key

abbrev sample_oid : Oid
sample_oid = 0xab ∷ 0xcd ∷ replicate 18 7

sample-IsOid : IsOid sample_oid
sample-IsOid = omega arith

from_str-to_hex_example : from_str (to_hex sample_oid) ≡ ok sample_oid
from_str-to_hex_example = from_str-to_hex sample_oid sample-IsOid

abbrev upper_hex : Text
upper_hex = codes "ABcd070707070707070707070707070707070707"

upper_reads : from_str upper_hex ≡ ok sample_oid
unfolding from_str
upper_reads = refl

from_str_sound_example :
    (length upper_hex ≡ 40) × IsOid sample_oid × (to_hex sample_oid ≡ to_ascii_lowercase upper_hex)
from_str_sound_example = from_str_sound upper_hex upper_reads

chunk_count_bounds_example :
    (1 ≤ chunk_count 10 4)
    × (10 ≤ chunk_count 10 4 * 4)
    × (0 < 10 → chunk_count 10 4 * 4 < 10 + 4)
    × (◌≡◌ {A = ℕ} 10 0 → chunk_count 10 4 ≡ 1)
chunk_count_bounds_example = chunk_count_bounds 10 4 (omega arith)
