-- ===== src/Auth/Scope.antt =====
-- crates/forge-auth/src/scope.rs: what a credential is allowed to do.
pub mod Stored
pub mod Implied
use crabforge.Prelude.{
  ℕ, ◌+◌, Bool, true, false, List, [], ◌∷◌, ◌++◌, map, Option, none, some, ltb, leb, ◌==◌,
  if◌then◌else◌, any, is_empty, Result, ok, err,
}
use crabforge.Str.{Text, codes, text_eq, is_whitespace}
use crabforge.Events.{Role, read, write, admin}

pub data Scope : Type 0 where
  repo_read repo_write repo_admin user : Scope

-- `Scope::as_str`
unfoldable pub scope_as_str : Scope → Text
scope_as_str repo_read = codes "repo:read"
scope_as_str repo_write = codes "repo:write"
scope_as_str repo_admin = codes "repo:admin"
scope_as_str user = codes "user"

unfoldable pub all_scopes : List Scope
all_scopes = repo_read ∷ repo_write ∷ repo_admin ∷ user ∷ []

unfoldable pub implies : Scope → Scope → Bool
implies repo_admin user = false
implies repo_admin _ = true
implies repo_write repo_write = true
implies repo_write repo_read = true
implies repo_write _ = false
implies repo_read repo_read = true
implies repo_read _ = false
implies user user = true
implies user _ = false

unfoldable pub as_role : Scope → Option Role
as_role repo_read = some read
as_role repo_write = some write
as_role repo_admin = some admin
as_role user = none

-- The derived order of roles, in crates/forge-types/src/lib.rs.
abbrev pub role_rank : Role → ℕ
role_rank read = 0
role_rank write = 1
role_rank admin = 2

-- `Role::allows`
unfoldable pub role_allows : Role → Role → Bool
role_allows held needed = leb (role_rank needed) (role_rank held)

-- The error keeps the text.
abbrev pub UnknownScope : Type 0
UnknownScope = Text

-- `Scope::from_str`
unfoldable pub parse_scope : Text → Result Scope UnknownScope
unfolding text_eq
parse_scope s =
    if text_eq s (codes "repo:read")
    then ok repo_read
    else if text_eq s (codes "repo:write")
    then ok repo_write
    else if text_eq s (codes "repo:admin")
    then ok repo_admin
    else if text_eq s (codes "user")
    then ok user
    else err s

-- The derived order: that of the declaration.
unfoldable pub rank : Scope → ℕ
rank repo_read = 0
rank repo_write = 1
rank repo_admin = 2
rank user = 3

abbrev pub Scopes : Type 0
Scopes = List Scope

unfoldable pub insert_scope : Scope → Scopes → Scopes
unfolding rank
insert_scope s [] = s ∷ []
insert_scope s (t ∷ ts) =
    let rest = insert_scope s ts in if leb (rank s) (rank t) then s ∷ t ∷ ts else t ∷ rest

-- `sort_unstable`; equal scopes cannot be told apart.
unfoldable pub sort_scopes : Scopes → Scopes
unfolding insert_scope
sort_scopes [] = []
sort_scopes (s ∷ ts) = insert_scope s (sort_scopes ts)

-- `dedup`, after a first element.
unfoldable pub dedup_from : Scope → Scopes → Scopes
unfolding rank
dedup_from s [] = s ∷ []
dedup_from s (t ∷ ts) =
    let same = dedup_from s ts in
    let next = dedup_from t ts in if rank s == rank t then same else s ∷ next

unfoldable pub dedup : Scopes → Scopes
unfolding dedup_from
dedup [] = []
dedup (s ∷ ts) = dedup_from s ts

-- `Scopes::new`
unfoldable pub new_scopes : List Scope → Scopes
unfolding sort_scopes dedup
new_scopes scopes = dedup (sort_scopes scopes)

-- `filter_map(|s| s.parse().ok())`
unfoldable pub known_scopes : List Text → List Scope
unfolding parse_scope
known_scopes [] = []
known_scopes (s ∷ ss) =
    let rest = known_scopes ss in elim (parse_scope s) [ ok scope ↦ scope ∷ rest | err _ ↦ rest ]

unfoldable pub from_stored : List Text → Scopes
unfolding new_scopes known_scopes
from_stored stored = new_scopes (known_scopes stored)

unfoldable pub to_stored : Scopes → List Text
unfolding scope_as_str
to_stored scopes = map (λ s. scope_as_str s) scopes

abbrev flush : Text → List Text → List Text
flush word words = if is_empty word then words else word ∷ words

-- `split_whitespace`, with the word that is being read.
unfoldable pub split_whitespace : Text → Text → List Text
split_whitespace word [] = flush word []
split_whitespace word (c ∷ s) =
    let next = split_whitespace [] s in
    let longer = split_whitespace (word ++ c ∷ []) s in
    if is_whitespace c then flush word next else longer

-- `Scopes::parse`
unfoldable pub parse_scopes : Text → Scopes
unfolding new_scopes known_scopes split_whitespace
parse_scopes requested = new_scopes (known_scopes (split_whitespace [] requested))

-- `Scopes::allows`
unfoldable pub scopes_allow : Scopes → Scope → Bool
unfolding implies
scopes_allow scopes needed = any (λ held. implies held needed) scopes
