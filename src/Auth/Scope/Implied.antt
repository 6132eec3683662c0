-- ===== src/Auth/Scope/Implied.antt =====
-- What a set of scopes grants.
use crabforge.Prelude.{
  ◌≡◌, refl, ap, ◌∙◌, Bool, true, false, ◌||◌, List, [], ◌∷◌, Option, none, some, arith, ◌==◌,
  ==_iff, any, Bool-cases, inl, inr,
}
use crabforge.Events.{Role}
use crabforge.Auth.Scope.{
  Scope, repo_read, repo_write, repo_admin, user, Scopes, rank, implies, as_role, role_allows,
  insert_scope, sort_scopes, dedup_from, dedup, new_scopes, scopes_allow,
}

-- Scopes that stand for roles imply each other as the roles permit; a scope without a role implies,
-- and is implied by, itself only.
abbrev pub roles_agree : Option Role → Option Role → Bool
roles_agree (some r) (some q) = role_allows r q
roles_agree none none = true
roles_agree _ _ = false

-- Scopes imply each other exactly as the roles that they stand for permit, and the account scope,
-- which stands for none, implies and is implied by itself only.
pub implies-as_role : (s t : Scope) → implies s t ≡ roles_agree (as_role s) (as_role t)
unfolding implies as_role role_allows
implies-as_role repo_read repo_read = refl
implies-as_role repo_read repo_write = refl
implies-as_role repo_read repo_admin = refl
implies-as_role repo_read user = refl
implies-as_role repo_write repo_read = refl
implies-as_role repo_write repo_write = refl
implies-as_role repo_write repo_admin = refl
implies-as_role repo_write user = refl
implies-as_role repo_admin repo_read = refl
implies-as_role repo_admin repo_write = refl
implies-as_role repo_admin repo_admin = refl
implies-as_role repo_admin user = refl
implies-as_role user repo_read = refl
implies-as_role user repo_write = refl
implies-as_role user repo_admin = refl
implies-as_role user user = refl

rank-injective : (s t : Scope) → rank s ≡ rank t → s ≡ t
unfolding rank
rank-injective repo_read repo_read e = refl
rank-injective repo_read repo_write e = absurd (omega (arith, e))
rank-injective repo_read repo_admin e = absurd (omega (arith, e))
rank-injective repo_read user e = absurd (omega (arith, e))
rank-injective repo_write repo_read e = absurd (omega (arith, e))
rank-injective repo_write repo_write e = refl
rank-injective repo_write repo_admin e = absurd (omega (arith, e))
rank-injective repo_write user e = absurd (omega (arith, e))
rank-injective repo_admin repo_read e = absurd (omega (arith, e))
rank-injective repo_admin repo_write e = absurd (omega (arith, e))
rank-injective repo_admin repo_admin e = refl
rank-injective repo_admin user e = absurd (omega (arith, e))
rank-injective user repo_read e = absurd (omega (arith, e))
rank-injective user repo_write e = absurd (omega (arith, e))
rank-injective user repo_admin e = absurd (omega (arith, e))
rank-injective user user e = refl

twice : (a b c : Bool) → a ≡ b → (a || c) ≡ (a || (b || c))
twice a b c h = ground (arith, h)

module _ (f : Scope → Bool) where
  any-insert_scope : (s : Scope) (ts : Scopes) → any f (insert_scope s ts) ≡ (f s || any f ts)
  unfolding insert_scope
  any-insert_scope s [] = refl
  any-insert_scope s (t ∷ ts) = let rest = any-insert_scope s ts in ground (arith, rest)

  any-sort_scopes : (scopes : Scopes) → any f (sort_scopes scopes) ≡ any f scopes
  unfolding sort_scopes
  any-sort_scopes [] = refl
  any-sort_scopes (s ∷ ts) =
      any-insert_scope s (sort_scopes ts) ∙ ap (λ b. f s || b) (any-sort_scopes ts)

  any-dedup_from : (s : Scope) (ts : Scopes) → any f (dedup_from s ts) ≡ (f s || any f ts)
  unfolding dedup_from
  any-dedup_from s [] = refl
  any-dedup_from s (t ∷ ts) =
      let same = any-dedup_from s ts in
      let next = any-dedup_from t ts in
      elim (Bool-cases (rank s == rank t)) [
        | inl e ↦
            let one : s ≡ t = rank-injective s t ((==_iff (rank s) (rank t)).0 e) in
            rw e (same ∙ twice (f s) (f t) (any f ts) (ap f one))
        | inr e ↦ rw e (ap (λ b. f s || b) next)
      ]

  any-dedup : (scopes : Scopes) → any f (dedup scopes) ≡ any f scopes
  unfolding dedup
  any-dedup [] = refl
  any-dedup (s ∷ ts) = any-dedup_from s ts

-- Sorting the scopes of a credential and dropping repeats grants neither more nor less than the
-- scopes as they were given.
pub scopes_allow-new_scopes :
    (scopes : List Scope) (needed : Scope)
    → scopes_allow (new_scopes scopes) needed ≡ scopes_allow scopes needed
unfolding scopes_allow new_scopes
scopes_allow-new_scopes scopes needed =
    any-dedup (λ held. implies held needed) (sort_scopes scopes)
    ∙ any-sort_scopes (λ held. implies held needed) scopes
