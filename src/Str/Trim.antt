-- ===== src/Str/Trim.antt =====
-- What `trim` returns.
use crabforge.Prelude.{◌&&◌, true, is_empty, false, ◌≡◌, refl, [], ◌∷◌, Bool-cases, inl, inr}
use crabforge.Str.{trim, trim_end, Text, trim_start, is_whitespace}

trim_start_idem : (s : Text) → trim_start (trim_start s) ≡ trim_start s
unfolding trim_start
trim_start_idem [] = refl
trim_start_idem (c ∷ s) = elim (Bool-cases (is_whitespace c)) [
  | inl e ↦ rw e (trim_start_idem s)
  | inr e ↦ rw e (rw e)
]

abbrev NoLeading : Text → Type 0
NoLeading [] = Unit
NoLeading (c ∷ s) = is_whitespace c ≡ false

trim_start-NoLeading : (s : Text) → NoLeading (trim_start s)
unfolding trim_start
trim_start-NoLeading [] = tt
trim_start-NoLeading (c ∷ s) = elim (Bool-cases (is_whitespace c)) [
  | inl e ↦ rw e (trim_start-NoLeading s)
  | inr e ↦ rw e e
]

trim_start_of_NoLeading : (s : Text) → NoLeading s → trim_start s ≡ s
unfolding trim_start
trim_start_of_NoLeading [] h = refl
trim_start_of_NoLeading (c ∷ s) h = rw h

trim_end-NoLeading : (s : Text) → NoLeading s → NoLeading (trim_end s)
unfolding trim_end
trim_end-NoLeading [] h = tt
trim_end-NoLeading (c ∷ s) h = elim (Bool-cases (is_empty (trim_end s))) [
  | inl e ↦ rw (e, h) h
  | inr e ↦ rw e h
]

is_empty_sound : (s : Text) → is_empty s ≡ true → s ≡ []
is_empty_sound [] h = refl
is_empty_sound (c ∷ s) h = cc

trim_end_idem : (s : Text) → trim_end (trim_end s) ≡ trim_end s
unfolding trim_end
trim_end_idem [] = refl
trim_end_idem (c ∷ s) = elim (Bool-cases (is_empty (trim_end s) && is_whitespace c)) [
  | inl e ↦ rw e refl
  | inr e ↦ rw e (rw (trim_end_idem s) (rw e refl))
]

-- Trimming a trimmed text changes nothing.
pub trim_idem : (s : Text) → trim (trim s) ≡ trim s
unfolding trim
trim_idem s =
    rw (trim_start_of_NoLeading _ (trim_end-NoLeading _ (trim_start-NoLeading s)))
      (trim_end_idem (trim_start s))
