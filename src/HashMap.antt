-- ===== src/HashMap.antt =====
-- A `HashMap<String, V>` as an association list in which `insert` replaces the value of a key that
-- is there and `remove` takes the key away. The order of the list stands for the unspecified
-- iteration order of the map.
pub mod Laws
use crabforge.Prelude.{
  ℕ, Bool, true, false, List, [], ◌∷◌, Option, none, some, if◌then◌else◌, length,
}
use crabforge.Str.{Text, text_eq}

module _ {ℓ} {V : Type ℓ} where
  unfoldable pub get : Text → List (Text × V) → Option V
  get k [] = none
  get k ((j, v) ∷ m) = let rest = get k m in if text_eq j k then some v else rest

  unfoldable pub insert : Text → V → List (Text × V) → List (Text × V)
  insert k v [] = (k, v) ∷ []
  insert k v ((j, w) ∷ m) =
      let rest = insert k v m in if text_eq j k then (k, v) ∷ m else (j, w) ∷ rest

  unfoldable pub remove : Text → List (Text × V) → List (Text × V)
  remove k [] = []
  remove k ((j, w) ∷ m) = let rest = remove k m in if text_eq j k then rest else (j, w) ∷ rest

  unfoldable pub contains_key : Text → List (Text × V) → Bool
  unfolding get
  contains_key k m = elim (get k m) [ none ↦ false | some _ ↦ true ]
