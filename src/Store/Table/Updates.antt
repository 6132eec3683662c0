-- ===== src/Store/Table/Updates.antt =====
-- Updates with a condition: how they end, and what a second one does.
use crabforge.Prelude.{
  ◌≡◌, ◌⊎◌, inl, inr, refl, sym, ap, ◌∙◌, Bool, true, false, some, if◌then◌else◌, Option-cases,
  Bool-cases,
}
use crabforge.Str.{Text}
use crabforge.HashMap
use crabforge.HashMap.Laws.{get-insert_self}
use crabforge.Store.Table.{Table, update_where}
use crabforge.Store.Table.Laws.{insert-insert}

module _ {ℓ} {R : Type ℓ} where
  -- The three ways in which an update ends.
  pub update_where_cases :
      (k : Text) (test : R → Bool) (change : R → R) (t : Table R)
      → (update_where k test change t ≡ (t, false))
        ⊎ ((row : R) × ((HashMap.get k t ≡ some row) × (test row ≡ true))
            × (update_where k test change t ≡ (HashMap.insert k (change row) t, true)))
  unfolding update_where
  update_where_cases k test change t = elim (Option-cases (HashMap.get k t)) [
    | inl e ↦ inl (rw (e, update_where) refl)
    | inr (row, e) ↦ elim (Bool-cases (test row)) [
      | inl h ↦ inr (row, (e, h), rw (e, update_where, h) refl)
      | inr h ↦ inl (rw (e, update_where, h) refl)
    ]
  ]

  pub update_where_at :
      (k : Text) (test : R → Bool) (change : R → R) (row : R) (t : Table R)
      → HashMap.get k t ≡ some row
      → update_where k test change t
        ≡ (if test row then (HashMap.insert k (change row) t, true) else (t, false))
  unfolding update_where
  update_where_at k test change row t e = rw (e, update_where) refl

  -- An update twice, of a change that is stable on the row that it made.
  pub update_where_twice :
      (k : Text) (test : R → Bool) (change : R → R) (t : Table R)
      → ((row : R) → change (change row) ≡ change row)
      → (update_where k test change (update_where k test change t).0).0
        ≡ (update_where k test change t).0
  update_where_twice k test change t stable = elim (update_where_cases k test change t) [
    | inl e ↦ rw e (ap (λ r. r.0) e)
    | inr (row, p, e) ↦ rw e (
        rw (update_where_at k test change (change row) _ (get-insert_self k (change row) t))
          (elim (Bool-cases (test (change row))) [
            | inl h ↦ rw h (rw (stable row) (insert-insert k (change row) (change row) t))
            | inr h ↦ rw h refl
          ]))
  ]

  pub update_where_untouched :
      (k : Text) (test : R → Bool) (change : R → R) (t : Table R)
      → (update_where k test change t).1 ≡ false
      → (update_where k test change t).0 ≡ t
  update_where_untouched k test change t h = elim (update_where_cases k test change t) [
    | inl e ↦ ap (λ r. r.0) e
    | inr (row, p, e) ↦ let untouched : true ≡ false = sym (ap (λ r. r.1) e) ∙ h in absurd cc
  ]

  -- A row that a change took out of the test is not touched again, whatever the second change is.
  pub update_where_once :
      (k : Text) (test : R → Bool) (change again : R → R) (t : Table R)
      → ((row : R) → test (change row) ≡ false)
      → (update_where k test change t).1 ≡ true
      → update_where k test again (update_where k test change t).0
        ≡ ((update_where k test change t).0, false)
  update_where_once k test change again t leaves h = elim (update_where_cases k test change t) [
    | inl e ↦ let touched : false ≡ true = sym (ap (λ r. r.1) e) ∙ h in absurd cc
    | inr (row, p, e) ↦ rw e (
        update_where_at k test again (change row) _ (get-insert_self k (change row) t)
        ∙ rw (leaves row) refl)
  ]

  -- An update that changes what it touches to the same row again touches it again.
  pub update_where_same :
      (k : Text) (test : R → Bool) (change : R → R) (t : Table R)
      → ((row : R) → test (change row) ≡ test row)
      → ((row : R) → change (change row) ≡ change row)
      → (update_where k test change t).1 ≡ true
      → update_where k test change (update_where k test change t).0 ≡ update_where k test change t
  update_where_same k test change t stays stable h = elim (update_where_cases k test change t) [
    | inl e ↦ let touched : false ≡ true = sym (ap (λ r. r.1) e) ∙ h in absurd cc
    | inr (row, p, e) ↦ rw e (
        update_where_at k test change (change row) _ (get-insert_self k (change row) t)
        ∙ rw (stays row ∙ p.1, stable row, insert-insert k (change row) (change row) t) refl)
  ]

  -- A row that a change did not find is not found by another.
  pub update_where_never :
      (k : Text) (test : R → Bool) (change again : R → R) (t : Table R)
      → (update_where k test change t).1 ≡ false
      → update_where k test again t ≡ (t, false)
  unfolding update_where
  update_where_never k test change again t h = elim (Option-cases (HashMap.get k t)) [
    | inl e ↦ rw (e, update_where) refl
    | inr (row, e) ↦ elim (Bool-cases (test row)) [
      | inr missed ↦ rw (e, update_where, missed) refl
      | inl passed ↦ let touched = rw (e, update_where, passed) at h in absurd cc
    ]
  ]
