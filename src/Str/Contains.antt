-- ===== src/Str/Contains.antt =====
-- `starts_with`, `ends_with` and `contains` against concatenation.
use crabforge.Prelude.{
  ◌≡◌, ◌≢◌, ◌↔◌, ◌⊎◌, refl, ap, Bool, true, false, ◌||◌, [], ◌∷◌, ◌++◌, arith, inl, inr,
  Option-cases,
}
use crabforge.Str.{Text, strip_prefix, strip_suffix, starts_with, ends_with, contains}
use crabforge.Str.Laws.{strip_prefix_sound, starts_with-append}
use crabforge.Str.Suffix.{strip_suffix_sound, ends_with-append}

pub starts_with_iff : (p s : Text) → (starts_with p s ≡ true) ↔ ((t : Text) × (s ≡ p ++ t))
unfolding starts_with
starts_with_iff p s = (
  λ h. elim (Option-cases (strip_prefix p s)) [
    | inl e ↦ absurd (let bad : false ≡ true = rw e at h in cc)
    | inr (t, e) ↦ (t, strip_prefix_sound p s e)
  ],
  λ (t, e). rw e (starts_with-append p t),
)

pub ends_with_iff : (p s : Text) → (ends_with p s ≡ true) ↔ ((t : Text) × (s ≡ t ++ p))
unfolding ends_with
ends_with_iff p s = (
  λ h. elim (Option-cases (strip_suffix p s)) [
    | inl e ↦ absurd (let bad : false ≡ true = rw e at h in cc)
    | inr (t, e) ↦ (t, strip_suffix_sound p s e)
  ],
  λ (t, e). rw e (ends_with-append p t),
)

or_true : (a b : Bool) → ((a || b) ≡ true) ↔ ((a ≡ true) ⊎ (b ≡ true))
or_true a b = ground arith

contains_sound : (p s : Text) → contains p s ≡ true → (a : Text) × (b : Text) × (s ≡ a ++ p ++ b)
unfolding contains
contains_sound p [] h = let (t, e) = (starts_with_iff p []).0 h in ([], t, e)
contains_sound p (c ∷ s) h = elim ((or_true (starts_with p (c ∷ s)) (contains p s)).0 h) [
  | inl here ↦ let (t, e) = (starts_with_iff p (c ∷ s)).0 here in ([], t, e)
  | inr later ↦ let (a, b, e) = contains_sound p s later in (c ∷ a, b, ap (λ u. c ∷ u) e)
]

contains-append : (p a b : Text) → contains p (a ++ p ++ b) ≡ true
unfolding contains
contains-append [] [] [] = (starts_with_iff [] []).1 ([], refl)
contains-append [] [] (d ∷ b) =
    (or_true (starts_with [] (d ∷ b)) (contains [] b)).1 (inl (starts_with-append [] (d ∷ b)))
contains-append (d ∷ p) [] b =
    (or_true (starts_with (d ∷ p) (d ∷ p ++ b)) (contains (d ∷ p) (p ++ b))).1
      (inl (starts_with-append (d ∷ p) b))
contains-append p (c ∷ a) b =
    (or_true (starts_with p (c ∷ a ++ p ++ b)) (contains p (a ++ p ++ b))).1
      (inr (contains-append p a b))

pub contains_iff :
    (p s : Text) → (contains p s ≡ true) ↔ ((a : Text) × (b : Text) × (s ≡ a ++ p ++ b))
contains_iff p s = (contains_sound p s, λ (a, b, e). rw e (contains-append p a b))

not_true : (b : Bool) → (b ≡ false) ↔ (b ≢ true)
not_true true = (λ h. cc, λ h. absurd (h refl))
not_true false = (λ h e. cc, λ h. refl)

pub contains_never : (p s : Text) → (contains p s ≡ false) ↔ ((a b : Text) → s ≢ a ++ p ++ b)
contains_never p s = (
  λ h a b e. (not_true (contains p s)).0 h ((contains_iff p s).1 (a, b, e)),
  λ h. (not_true (contains p s)).1 λ e. let (a, b, shape) = (contains_iff p s).0 e in h a b shape,
)

pub ends_with_never : (p s : Text) → (ends_with p s ≡ false) ↔ ((t : Text) → s ≢ t ++ p)
ends_with_never p s = (
  λ h t e. (not_true (ends_with p s)).0 h ((ends_with_iff p s).1 (t, e)),
  λ h. (not_true (ends_with p s)).1 λ e. let (t, shape) = (ends_with_iff p s).0 e in h t shape,
)
