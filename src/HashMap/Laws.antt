-- ===== src/HashMap/Laws.antt =====
-- What `get` returns after each operation, and that keys stay distinct.
use crabforge.Prelude.{◌≡◌, refl, ◌≢◌, List, [], ◌∷◌, none, some, arith, if◌then◌else◌}
use crabforge.Str.{Text, text_eq}
use crabforge.Str.Laws.{text_eq_iff, text_eq_refl, text_eq_of_ne}
use crabforge.HashMap.{get, insert, remove}

module _ {ℓ} {V : Type ℓ} where
  pub get-insert :
      (j k : Text) (v : V) (m : List (Text × V))
      → get j (insert k v m) ≡ (if text_eq k j then some v else get j m)
  unfolding get insert
  get-insert j k v [] = refl
  get-insert j k v ((i, w) ∷ m) =
      ground (arith, text_eq_iff k j, text_eq_iff i k, text_eq_iff i j, get-insert j k v m)

  pub get-remove :
      (j k : Text) (m : List (Text × V))
      → get j (remove k m) ≡ (if text_eq k j then none else get j m)
  unfolding get remove
  get-remove j k [] = ground arith
  get-remove j k ((i, w) ∷ m) =
      ground (arith, text_eq_iff k j, text_eq_iff i k, text_eq_iff i j, get-remove j k m)

  pub get-insert_self : (k : Text) (v : V) (m : List (Text × V)) → get k (insert k v m) ≡ some v
  get-insert_self k v m = rw get-insert (rw (text_eq_refl k))

  pub get-insert_ne :
      (j k : Text) (v : V) (m : List (Text × V)) → k ≢ j → get j (insert k v m) ≡ get j m
  get-insert_ne j k v m h = rw get-insert (rw (text_eq_of_ne k j h))
