-- ===== src/Store/Table.antt =====
-- A table with a primary key, as an association list, and the statements that the stores use.
pub mod Laws
pub mod Updates
pub mod Keyed
use crabforge.Prelude.{ℕ, Bool, true, false, List, [], ◌∷◌, Option, none, some, if◌then◌else◌}
use crabforge.Str.{Text, text_eq}
use crabforge.HashMap
use crabforge.Command.Refs.{text_leb}

abbrev pub Table {ℓ} : Type ℓ → Type ℓ
Table R = List (Text × R)

module _ {ℓ} {R : Type ℓ} where
  -- `SELECT .. WHERE key = k`
  unfoldable pub by_key : Text → Table R → Option R
  unfolding HashMap.get
  by_key k t = HashMap.get k t

  -- `INSERT .. ON CONFLICT DO UPDATE SET`; `merge` takes the row that is there and the excluded one.
  unfoldable pub upsert : (R → R → R) → Text → R → Table R → Table R
  unfolding HashMap.get HashMap.insert
  upsert merge k new t = elim (HashMap.get k t) [
    | none ↦ HashMap.insert k new t
    | some old ↦ HashMap.insert k (merge old new) t
  ]

  -- `INSERT .. ON CONFLICT DO NOTHING`
  unfoldable pub insert_absent : Text → R → Table R → Table R
  unfolding HashMap.get HashMap.insert
  insert_absent k new t = elim (HashMap.get k t) [ none ↦ HashMap.insert k new t | some old ↦ t ]

  -- `UPDATE .. WHERE key = k AND test`, with whether a row was touched.
  unfoldable pub update_where : Text → (R → Bool) → (R → R) → Table R → Table R × Bool
  unfolding HashMap.get HashMap.insert
  update_where k test change t = elim (HashMap.get k t) [
    | none ↦ (t, false)
    | some row ↦ if test row then (HashMap.insert k (change row) t, true) else (t, false)
  ]

  -- `SELECT .. WHERE test`
  unfoldable pub rows_where : (R → Bool) → Table R → List R
  rows_where test [] = []
  rows_where test ((k, row) ∷ t) =
      let rest = rows_where test t in if test row then row ∷ rest else rest

  unfoldable pub insert_by : (R → Text) → R → List R → List R
  unfolding text_leb
  insert_by column row [] = row ∷ []
  insert_by column row (next ∷ rows) =
      let rest = insert_by column row rows in
      if text_leb (column row) (column next) then row ∷ next ∷ rows else next ∷ rest

  -- `ORDER BY column ASC`
  unfoldable pub order_by : (R → Text) → List R → List R
  unfolding insert_by
  order_by column [] = []
  order_by column (row ∷ rows) = insert_by column row (order_by column rows)
