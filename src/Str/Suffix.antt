-- ===== src/Str/Suffix.antt =====
-- `strip_suffix` and `ends_with` against concatenation.
use crabforge.Prelude.{
  ℕ, ◌≡◌, refl, sym, ap, ◌≢◌, true, false, [], ◌∷◌, ◌++◌, Option, none, some, arith, inl, inr,
  Bool-cases, length, length-append, Option-cases,
}
use crabforge.Str.{Text, text_eq, strip_suffix, ends_with, cons_option}
use crabforge.Str.Laws.{text_eq_sound, text_eq_refl, text_eq_of_ne}

longer_ne : (c : ℕ) (s p : Text) → p ≢ c ∷ s ++ p
longer_ne c s p e = omega (arith, ap length e, length-append s p)

pub strip_suffix-append : (p s : Text) → strip_suffix p (s ++ p) ≡ some s
unfolding strip_suffix
strip_suffix-append [] [] = refl
strip_suffix-append (d ∷ p) [] = rw (text_eq_refl (d ∷ p))
strip_suffix-append p (c ∷ s) =
    rw (text_eq_of_ne p (c ∷ s ++ p) (longer_ne c s p)) (rw (strip_suffix-append p s))

cons_option-some :
    (c : ℕ) (o : Option Text) {t : Text}
    → cons_option c o ≡ some t
    → (u : Text) × (o ≡ some u) × (t ≡ c ∷ u)
cons_option-some c none h = cc
cons_option-some c (some u) h = (u, refl, cc)

pub strip_suffix_sound : (p s : Text) {t : Text} → strip_suffix p s ≡ some t → s ≡ t ++ p
unfolding strip_suffix
strip_suffix_sound p [] {t} h = elim (Bool-cases (text_eq p [])) [
  | inl e ↦
      let q = text_eq_sound p [] e in
      let u : [] ≡ t = let g : some [] ≡ some t = rw e at h in cc in rw (q, ← u)
  | inr e ↦ absurd (let g : none ≡ some t = rw e at h in cc)
]
strip_suffix_sound p (c ∷ s) {t} h = elim (Bool-cases (text_eq p (c ∷ s))) [
  | inl e ↦
      let u : [] ≡ t = let g : some [] ≡ some t = rw e at h in cc in
      rw (← u) (sym (text_eq_sound p (c ∷ s) e))
  | inr e ↦
      let (u, rest, shape) = cons_option-some c (strip_suffix p s) (rw e at h) in
      rw (shape, strip_suffix_sound p s rest)
]

pub ends_with-append : (p s : Text) → ends_with p (s ++ p) ≡ true
unfolding ends_with
ends_with-append p s = rw (strip_suffix-append p s)

pub strip_suffix-none : (p s : Text) → ends_with p s ≡ false → strip_suffix p s ≡ none
unfolding ends_with
strip_suffix-none p s h = elim (Option-cases (strip_suffix p s)) [
  | inl e ↦ e
  | inr (t, e) ↦ absurd (let g : true ≡ false = rw e at h in cc)
]
