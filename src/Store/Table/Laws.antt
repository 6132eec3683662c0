-- ===== src/Store/Table/Laws.antt =====
-- Reading a row after a statement, and statements that are run twice.
use crabforge.Prelude.{
  ◌≡◌, ◌≢◌, inl, inr, ◌∙◌, [], ◌∷◌, none, some, arith, Option-cases, Bool-cases,
}
use crabforge.Str.{Text, text_eq}
use crabforge.Str.Laws.{text_eq_iff, text_eq_refl}
use crabforge.HashMap
use crabforge.HashMap.Laws.{get-insert_self, get-insert_ne}
use crabforge.Store.Table.{Table, upsert, insert_absent}

module _ {ℓ} {R : Type ℓ} where
  pub insert-insert :
      (k : Text) (v w : R) (t : Table R)
      → HashMap.insert k w (HashMap.insert k v t) ≡ HashMap.insert k w t
  unfolding HashMap.insert
  insert-insert k v w [] = ground (arith, text_eq_refl k)
  insert-insert k v w ((j, u) ∷ t) = ground (arith, text_eq_refl k, insert-insert k v w t)

  -- A row that is written back as it was.
  pub insert-get :
      (k : Text) (v : R) (t : Table R) → HashMap.get k t ≡ some v → HashMap.insert k v t ≡ t
  unfolding HashMap.insert HashMap.get
  insert-get k v [] h = ground arith
  insert-get k v ((j, u) ∷ t) h = ground (arith, text_eq_iff j k, insert-get k v t)

  pub upsert-none :
      (merge : R → R → R) (k : Text) (new : R) (t : Table R)
      → HashMap.get k t ≡ none
      → upsert merge k new t ≡ HashMap.insert k new t
  unfolding upsert
  upsert-none merge k new t h = rw (h, upsert)

  pub upsert-some :
      (merge : R → R → R) (k : Text) (old new : R) (t : Table R)
      → HashMap.get k t ≡ some old
      → upsert merge k new t ≡ HashMap.insert k (merge old new) t
  unfolding upsert
  upsert-some merge k old new t h = rw (h, upsert)

  -- Another key's row stays.
  pub get-upsert_ne :
      (merge : R → R → R) (j k : Text) (new : R) (t : Table R)
      → k ≢ j
      → HashMap.get j (upsert merge k new t) ≡ HashMap.get j t
  get-upsert_ne merge j k new t h = elim (Option-cases (HashMap.get k t)) [
    | inl e ↦ rw (upsert-none merge k new t e) (get-insert_ne j k new t h)
    | inr (old, e) ↦ rw (upsert-some merge k old new t e) (get-insert_ne j k (merge old new) t h)
  ]

  pub get-upsert_at :
      (merge : R → R → R) (j k : Text) (old new : R) (t : Table R)
      → j ≡ k
      → HashMap.get k t ≡ some old
      → HashMap.get k (upsert merge j new t) ≡ some (merge old new)
  get-upsert_at merge j k old new t same e =
      rw same (rw (upsert-some merge k old new t e) (get-insert_self k (merge old new) t))

  -- An upsert twice, of a merge that keeps a row that it made.
  pub upsert-upsert :
      (merge : R → R → R) (k : Text) (new : R) (t : Table R)
      → merge new new ≡ new
      → ((old : R) → merge (merge old new) new ≡ merge old new)
      → upsert merge k new (upsert merge k new t) ≡ upsert merge k new t
  upsert-upsert merge k new t same again = elim (Option-cases (HashMap.get k t)) [
    | inl e ↦ rw (upsert-none merge k new t e) (
        upsert-some merge k new new _ (get-insert_self k new t)
        ∙ rw same (insert-insert k new new t))
    | inr (old, e) ↦ rw (upsert-some merge k old new t e) (
        upsert-some merge k (merge old new) new _ (get-insert_self k (merge old new) t)
        ∙ rw (again old) (insert-insert k (merge old new) (merge old new) t))
  ]

  pub insert_absent_twice :
      (k : Text) (new : R) (t : Table R)
      → insert_absent k new (insert_absent k new t) ≡ insert_absent k new t
  unfolding insert_absent
  insert_absent_twice k new t = ground (arith, get-insert_self k new t)

  -- A row that is read by its key, changed and upserted.
  unfoldable pub rewrite : (R → R → R) → (R → Text) → Text → (R → R) → Table R → Table R
  unfolding HashMap.get upsert
  rewrite merge key k change t = elim (HashMap.get k t) [
    | none ↦ t
    | some row ↦ upsert merge (key (change row)) (change row) t
  ]

  pub rewrite-none :
      (merge : R → R → R) (key : R → Text) (k : Text) (change : R → R) (t : Table R)
      → HashMap.get k t ≡ none
      → rewrite merge key k change t ≡ t
  unfolding rewrite
  rewrite-none merge key k change t h = rw (h, rewrite)

  pub rewrite-some :
      (merge : R → R → R) (key : R → Text) (k : Text) (change : R → R) (row : R) (t : Table R)
      → HashMap.get k t ≡ some row
      → rewrite merge key k change t ≡ upsert merge (key (change row)) (change row) t
  unfolding rewrite
  rewrite-some merge key k change row t h = rw (h, rewrite)

  pub rewrite_here :
      (merge : R → R → R) (key : R → Text) (k : Text) (change : R → R) (row : R) (t : Table R)
      → HashMap.get k t ≡ some row
      → key (change row) ≡ k
      → rewrite merge key k change t ≡ HashMap.insert k (merge row (change row)) t
  rewrite_here merge key k change row t h e =
      rewrite-some merge key k change row t h ∙ (rw e (upsert-some merge k row (change row) t h))

  rewrite_twice_here :
      (merge : R → R → R) (key : R → Text) (k : Text) (change : R → R) (row : R) (t : Table R)
      → HashMap.get k t ≡ some row
      → key (change row) ≡ k
      → key (change (merge row (change row))) ≡ k
      → merge (merge row (change row)) (change (merge row (change row))) ≡ merge row (change row)
      → rewrite merge key k change (rewrite merge key k change t) ≡ rewrite merge key k change t
  rewrite_twice_here merge key k change row t h e e' stable =
      let made = merge row (change row) in
      rw (rewrite_here merge key k change row t h e) (
        rewrite_here merge key k change made _ (get-insert_self k made t) e'
        ∙ rw stable (insert-insert k made made t))

  rewrite_twice_elsewhere :
      (merge : R → R → R) (key : R → Text) (k : Text) (change : R → R) (row : R) (t : Table R)
      → HashMap.get k t ≡ some row
      → key (change row) ≢ k
      → merge (change row) (change row) ≡ change row
      → ((old : R) → merge (merge old (change row)) (change row) ≡ merge old (change row))
      → rewrite merge key k change (rewrite merge key k change t) ≡ rewrite merge key k change t
  rewrite_twice_elsewhere merge key k change row t h ne same again =
      rw (rewrite-some merge key k change row t h) (
        rewrite-some merge key k change row _
          (get-upsert_ne merge k (key (change row)) (change row) t ne ∙ h)
        ∙ upsert-upsert merge (key (change row)) (change row) t same again)

  -- The same, twice. The change leaves the key, and is stable on the row that it made.
  pub rewrite-rewrite :
      (merge : R → R → R) (key : R → Text) (k : Text) (change : R → R) (t : Table R)
      → ((row : R) → key (change (merge row (change row))) ≡ key (change row))
      → ((row : R)
          → merge (merge row (change row)) (change (merge row (change row)))
            ≡ merge row (change row))
      → ((row : R) → merge row row ≡ row)
      → ((old row : R) → merge (merge old row) row ≡ merge old row)
      → rewrite merge key k change (rewrite merge key k change t) ≡ rewrite merge key k change t
  rewrite-rewrite merge key k change t keeps stable same again =
      elim (Option-cases (HashMap.get k t)) [
        | inl e ↦ let once = rewrite-none merge key k change t e in rw once once
        | inr (row, e) ↦ elim (Bool-cases (text_eq (key (change row)) k)) [
          | inl h ↦
              let here = (text_eq_iff (key (change row)) k).0 h in
              rewrite_twice_here merge key k change row t e here (keeps row ∙ here) (stable row)
          | inr h ↦
              rewrite_twice_elsewhere merge key k change row t e
                (λ same_key. ground (arith, text_eq_iff (key (change row)) k)) (same (change row))
                (λ old. again old (change row))
        ]
      ]
