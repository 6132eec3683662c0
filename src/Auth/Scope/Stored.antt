-- ===== src/Auth/Scope/Stored.antt =====
-- The normal form of a set of scopes, and its stored form.
use crabforge.Prelude.{
  ℕ, suc, ◌≡◌, ◌≤◌, refl, ap, ◌∙◌, true, false, List, [], ◌∷◌, arith, leb, leb→le, ◌==◌, ==_iff,
  Bool-cases, inl, inr, ok,
}
use crabforge.Auth.Scope.{
  Scope, repo_read, repo_write, repo_admin, user, Scopes, rank, insert_scope, sort_scopes,
  dedup_from, dedup, new_scopes, parse_scope, scope_as_str, known_scopes, from_stored, to_stored,
}

-- Ranks never fall, from `n` on; and ranks rise.
abbrev Ascends : ℕ → Scopes → Type 0
Ascends n [] = Unit
Ascends n (s ∷ ts) = (n ≤ rank s) × Ascends (rank s) ts

abbrev Climbs : ℕ → Scopes → Type 0
Climbs n [] = Unit
Climbs n (s ∷ ts) = (n ≤ rank s) × Climbs (suc (rank s)) ts

insert_scope-Ascends :
    (n : ℕ) (s : Scope) (ts : Scopes) → n ≤ rank s → Ascends n ts → Ascends n (insert_scope s ts)
unfolding insert_scope
insert_scope-Ascends n s [] h k = (h, tt)
insert_scope-Ascends n s (t ∷ ts) h k = elim (Bool-cases (leb (rank s) (rank t))) [
  | inl e ↦ rw (e, Ascends) (h, (leb→le (rank s) (rank t) e, k.1))
  | inr e ↦ rw (e, Ascends) (k.0, insert_scope-Ascends (rank t) s ts (ground (arith, e)) k.1)
]

sort_scopes-Ascends : (scopes : Scopes) → Ascends 0 (sort_scopes scopes)
unfolding sort_scopes
sort_scopes-Ascends [] = tt
sort_scopes-Ascends (s ∷ ts) =
    insert_scope-Ascends 0 s (sort_scopes ts) (omega arith) (sort_scopes-Ascends ts)

dedup_from-Climbs :
    (n : ℕ) (s : Scope) (ts : Scopes)
    → n ≤ rank s
    → Ascends (rank s) ts
    → Climbs n (dedup_from s ts)
unfolding dedup_from
dedup_from-Climbs n s [] h k = (h, tt)
dedup_from-Climbs n s (t ∷ ts) h k = elim (Bool-cases (rank s == rank t)) [
  | inl e ↦
      let same = (==_iff (rank s) (rank t)).0 e in
      rw (e, Climbs) (dedup_from-Climbs n s ts h (rw same k.1))
  | inr e ↦ rw (e, Climbs) (h, dedup_from-Climbs (suc (rank s)) t ts (ground (arith, e, k.0)) k.1)
]

dedup-Climbs : (scopes : Scopes) → Ascends 0 scopes → Climbs 0 (dedup scopes)
unfolding dedup
dedup-Climbs [] h = tt
dedup-Climbs (s ∷ ts) h = dedup_from-Climbs 0 s ts h.0 h.1

new_scopes-Climbs : (scopes : List Scope) → Climbs 0 (new_scopes scopes)
unfolding new_scopes
new_scopes-Climbs scopes = dedup-Climbs (sort_scopes scopes) (sort_scopes-Ascends scopes)

sort_scopes-fixed : (n : ℕ) (scopes : Scopes) → Climbs n scopes → sort_scopes scopes ≡ scopes
unfolding sort_scopes insert_scope
sort_scopes-fixed n [] h = refl
sort_scopes-fixed n (s ∷ []) h = refl
sort_scopes-fixed n (s ∷ t ∷ ts) h =
    let lower : leb (rank s) (rank t) ≡ true = ground (arith, h.1.0) in
    ap (insert_scope s) (sort_scopes-fixed (suc (rank s)) (t ∷ ts) h.1) ∙ rw lower refl

dedup_from-fixed : (s : Scope) (ts : Scopes) → Climbs (suc (rank s)) ts → dedup_from s ts ≡ s ∷ ts
unfolding dedup_from
dedup_from-fixed s [] h = refl
dedup_from-fixed s (t ∷ ts) h =
    let other : (rank s == rank t) ≡ false = ground (arith, h.0) in
    rw other (ap (λ l. s ∷ l) (dedup_from-fixed t ts h.1))

new_scopes-fixed : (scopes : Scopes) → Climbs 0 scopes → new_scopes scopes ≡ scopes
unfolding new_scopes dedup
new_scopes-fixed [] h = refl
new_scopes-fixed (s ∷ ts) h = ap dedup (sort_scopes-fixed 0 (s ∷ ts) h) ∙ dedup_from-fixed s ts h.1

parse_scope-scope_as_str : (s : Scope) → parse_scope (scope_as_str s) ≡ ok s
unfolding parse_scope scope_as_str
parse_scope-scope_as_str repo_read = refl
parse_scope-scope_as_str repo_write = refl
parse_scope-scope_as_str repo_admin = refl
parse_scope-scope_as_str user = refl

known_scopes-to_stored : (scopes : Scopes) → known_scopes (to_stored scopes) ≡ scopes
unfolding known_scopes to_stored
known_scopes-to_stored [] = refl
known_scopes-to_stored (s ∷ ts) =
    rw (parse_scope-scope_as_str s, known_scopes) (ap (λ l. s ∷ l) (known_scopes-to_stored ts))

-- The scopes of any credential are read back from their stored form as the same set in the same
-- order.
pub from_stored-to_stored :
    (scopes : List Scope) → from_stored (to_stored (new_scopes scopes)) ≡ new_scopes scopes
unfolding from_stored
from_stored-to_stored scopes =
    ap new_scopes (known_scopes-to_stored (new_scopes scopes))
    ∙ new_scopes-fixed (new_scopes scopes) (new_scopes-Climbs scopes)
