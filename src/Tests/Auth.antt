-- ===== src/Tests/Auth.antt =====
-- Scopes at concrete inputs.
use crabforge.Prelude.{◌≡◌, refl, List, [], ◌∷◌}
use crabforge.Str.{codes}
use crabforge.Auth.Scope.{
  Scope, repo_read, repo_write, user, new_scopes, scopes_allow, implies, as_role, from_stored,
  to_stored, parse_scopes,
}
use crabforge.Auth.Scope.Implied.{roles_agree, implies-as_role, scopes_allow-new_scopes}
use crabforge.Auth.Scope.Stored.{from_stored-to_stored}

abbrev given : List Scope
given = user ∷ repo_write ∷ user ∷ []

scopes_allow-new_scopes_example :
    scopes_allow (new_scopes given) repo_read ≡ scopes_allow given repo_read
scopes_allow-new_scopes_example = scopes_allow-new_scopes given repo_read

implies-as_role_example :
    implies repo_write repo_read ≡ roles_agree (as_role repo_write) (as_role repo_read)
implies-as_role_example = implies-as_role repo_write repo_read

from_stored-to_stored_example : from_stored (to_stored (new_scopes given)) ≡ new_scopes given
from_stored-to_stored_example = from_stored-to_stored given

-- What a request supplies, with an entry that is no scope.
requested : parse_scopes (codes " user  repo:write what user") ≡ repo_write ∷ user ∷ []
unfolding parse_scopes
requested = refl
