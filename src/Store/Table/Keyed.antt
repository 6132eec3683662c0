-- ===== src/Store/Table/Keyed.antt =====
-- Tables whose rows stand under their own keys, and what their changes keep.
use crabforge.Prelude.{◌≡◌, refl, sym, ◌∙◌, inl, inr, Bool, some, arith, Option-cases, Bool-cases}
use crabforge.Str.{Text, text_eq}
use crabforge.Str.Laws.{text_eq_iff}
use crabforge.HashMap
use crabforge.HashMap.Laws.{get-insert_self, get-insert_ne}
use crabforge.Store.Table.{Table, upsert, update_where}
use crabforge.Store.Table.Laws.{rewrite, rewrite-none, rewrite_here, upsert-none, upsert-some}
use crabforge.Store.Table.Updates.{update_where_cases}

module _ {ℓ} {R : Type ℓ} where
  abbrev pub IsKeyed : (R → Text) → Table R → Type ℓ
  IsKeyed key t = (k : Text) (row : R) → HashMap.get k t ≡ some row → key row ≡ k

  -- A row under `k` on which `P` holds.
  abbrev pub IsRow {κ} : (R → Type κ) → Text → Table R → Type (ℓ ⊔ κ)
  IsRow P k t = (row : R) × (HashMap.get k t ≡ some row) × P row

  pub insert-IsKeyed :
      (key : R → Text) (k : Text) (row : R) (t : Table R)
      → key row ≡ k
      → IsKeyed key t
      → IsKeyed key (HashMap.insert k row t)
  insert-IsKeyed key k row t h keyed j found e = elim (Bool-cases (text_eq k j)) [
    | inl same ↦
        let there = (text_eq_iff k j).0 same in
        let here : some row ≡ some found = sym (rw (sym there) (get-insert_self k row t)) ∙ e in
        let eq : row ≡ found = cc in rw (sym eq) (h ∙ there)
    | inr other ↦
        keyed j found (sym (get-insert_ne j k row t (λ same. ground (arith, text_eq_iff k j))) ∙ e)
  ]

  pub upsert-IsKeyed :
      (merge : R → R → R) (key : R → Text) (new : R) (t : Table R)
      → ((old : R) → key old ≡ key new → key (merge old new) ≡ key new)
      → IsKeyed key t
      → IsKeyed key (upsert merge (key new) new t)
  upsert-IsKeyed merge key new t keeps keyed = elim (Option-cases (HashMap.get (key new) t)) [
    | inl e ↦
        rw (upsert-none merge (key new) new t e) (insert-IsKeyed key (key new) new t refl keyed)
    | inr (old, e) ↦
        rw (upsert-some merge (key new) old new t e)
          (insert-IsKeyed key (key new) (merge old new) t (keeps old (keyed (key new) old e)) keyed)
  ]

  -- A row that is rewritten, or stays.
  pub insert-IsRow {κ} :
      (P : R → Type κ) (j k : Text) (old new : R) (t : Table R)
      → HashMap.get k t ≡ some old
      → (P old → P new)
      → IsRow P j t
      → IsRow P j (HashMap.insert k new t)
  insert-IsRow P j k old new t e step (row, found, h) = elim (Bool-cases (text_eq k j)) [
    | inl same ↦
        let there = (text_eq_iff k j).0 same in
        let here : some old ≡ some row = sym e ∙ rw there found in
        let eq : row ≡ old = cc in
        (new, rw (sym there) (get-insert_self k new t), step (rw (sym eq) h))
    | inr other ↦
        (row, get-insert_ne j k new t (λ same. ground (arith, text_eq_iff k j)) ∙ found, h)
  ]

  module _ (merge : R → R → R) (key : R → Text) (change : R → R)
      (keeps : (row : R) → key (change row) ≡ key row) where
    pub rewrite-IsKeyed :
        (k : Text) (t : Table R)
        → ((row : R) → key (merge row (change row)) ≡ key row)
        → IsKeyed key t
        → IsKeyed key (rewrite merge key k change t)
    rewrite-IsKeyed k t stays keyed = elim (Option-cases (HashMap.get k t)) [
      | inl e ↦ rw (rewrite-none merge key k change t e) keyed
      | inr (row, e) ↦
          let own = keyed k row e in
          rw (rewrite_here merge key k change row t e (keeps row ∙ own))
            (insert-IsKeyed key k (merge row (change row)) t (stays row ∙ own) keyed)
    ]

    pub rewrite-IsRow {κ} :
        (P : R → Type κ) (j k : Text) (t : Table R)
        → ((row : R) → P row → P (merge row (change row)))
        → IsKeyed key t
        → IsRow P j t
        → IsRow P j (rewrite merge key k change t)
    rewrite-IsRow P j k t step keyed row = elim (Option-cases (HashMap.get k t)) [
      | inl e ↦ rw (rewrite-none merge key k change t e) row
      | inr (old, e) ↦
          rw (rewrite_here merge key k change old t e (keeps old ∙ keyed k old e))
            (insert-IsRow P j k old (merge old (change old)) t e (step old) row)
    ]

  pub update_where-IsKeyed :
      (key : R → Text) (k : Text) (test : R → Bool) (change : R → R) (t : Table R)
      → ((row : R) → key (change row) ≡ key row)
      → IsKeyed key t
      → IsKeyed key (update_where k test change t).0
  update_where-IsKeyed key k test change t keeps keyed = elim (update_where_cases k test change t) [
    | inl e ↦ rw e keyed
    | inr (row, found, e) ↦
        rw e (insert-IsKeyed key k (change row) t (keeps row ∙ keyed k row found.0) keyed)
  ]

  pub update_where-IsRow {κ} :
      (P : R → Type κ) (j k : Text) (test : R → Bool) (change : R → R) (t : Table R)
      → ((row : R) → P row → P (change row))
      → IsRow P j t
      → IsRow P j (update_where k test change t).0
  update_where-IsRow P j k test change t step row = elim (update_where_cases k test change t) [
    | inl e ↦ rw e row
    | inr (old, found, e) ↦ rw e (insert-IsRow P j k old (change old) t found.0 (step old) row)
  ]
