-- ===== src/Str/Laws.antt =====
-- Equality, prefixes and suffixes of texts.
use crabforge.Prelude.{
  ◌+◌, ◌≤◌, ◌≡◌, refl, ap, ◌≢◌, ◌↔◌, true, false, [], ◌∷◌, ◌++◌, some, arith, ◌==◌, ==_iff,
  Bool-cases, inl, inr, length, All,
}
use crabforge.Str.{Text, text_eq, len, strip_prefix, starts_with, to_ascii_lowercase, strip_suffix}

pub text_eq_sound : (s t : Text) → text_eq s t ≡ true → s ≡ t
unfolding text_eq
text_eq_sound [] [] h = refl
text_eq_sound [] (d ∷ t) h = cc
text_eq_sound (c ∷ s) [] h = cc
text_eq_sound (c ∷ s) (d ∷ t) h = ground (arith, text_eq_sound s t)

pub text_eq_refl : (s : Text) → text_eq s s ≡ true
unfolding text_eq
text_eq_refl [] = refl
text_eq_refl (c ∷ s) = ground (arith, text_eq_refl s)

pub text_eq_iff : (s t : Text) → (text_eq s t ≡ true) ↔ (s ≡ t)
text_eq_iff s t = (text_eq_sound s t, λ e. rw e (text_eq_refl t))

pub text_eq_of_ne : (s t : Text) → s ≢ t → text_eq s t ≡ false
text_eq_of_ne s t h = elim (Bool-cases (text_eq s t)) [
  | inl e ↦ absurd (h (text_eq_sound s t e))
  | inr e ↦ e
]

pub strip_prefix-append : (p s : Text) → strip_prefix p (p ++ s) ≡ some s
unfolding strip_prefix
strip_prefix-append [] s = refl
strip_prefix-append (c ∷ p) s = ground (arith, strip_prefix-append p s)

pub strip_prefix_sound : (p s : Text) {t : Text} → strip_prefix p s ≡ some t → s ≡ p ++ t
unfolding strip_prefix
strip_prefix_sound [] s h = ground arith
strip_prefix_sound (c ∷ p) [] h = cc
strip_prefix_sound (c ∷ p) (d ∷ s) {t} h = elim (Bool-cases (c == d)) [
  | inl e ↦
      let same = (==_iff c d).0 e in rw same (ap (λ u. d ∷ u) (strip_prefix_sound p s (rw e at h)))
  | inr e ↦ ground arith
]

pub starts_with-append : (p s : Text) → starts_with p (p ++ s) ≡ true
unfolding starts_with
starts_with-append p s = rw (strip_prefix-append p s)

pub append-cancel_left : (p s t : Text) → p ++ s ≡ p ++ t → s ≡ t
append-cancel_left [] s t h = h
append-cancel_left (c ∷ p) s t h = append-cancel_left p s t (cc)

pub length-le-len : (s : Text) → length s ≤ len s
unfolding len
length-le-len [] = omega arith
length-le-len (c ∷ s) = ground (arith, length-le-len s)

pub len-append : (s t : Text) → len (s ++ t) ≡ len s + len t
unfolding len
len-append [] t = omega arith
len-append (c ∷ s) t = omega (arith, len-append s t)

pub to_ascii_lowercase_idem :
    (s : Text) → to_ascii_lowercase (to_ascii_lowercase s) ≡ to_ascii_lowercase s
unfolding to_ascii_lowercase
to_ascii_lowercase_idem [] = refl
to_ascii_lowercase_idem (c ∷ s) = ground (arith, to_ascii_lowercase_idem s)

strip_suffix_self : (p : Text) → strip_suffix p p ≡ some []
unfolding strip_suffix
strip_suffix_self [] = refl
strip_suffix_self (c ∷ p) = rw (text_eq_refl (c ∷ p))

-- Two texts with no `/` before their first `/` agree on both sides of it.
abbrev pub NoSlash : Text → Type 0
NoSlash = All (λ c. c ≢ b'/')

pub append-slash_injective :
    (a b s t : Text) → NoSlash a → NoSlash b → a ++ b'/' ∷ s ≡ b ++ b'/' ∷ t → (a ≡ b) × (s ≡ t)
append-slash_injective [] [] s t ha hb h = (refl, cc)
append-slash_injective [] (d ∷ b) s t ha hb h = absurd (hb.0 (cc))
append-slash_injective (c ∷ a) [] s t ha hb h = absurd (ha.0 (cc))
append-slash_injective (c ∷ a) (d ∷ b) s t ha hb h =
    let (e, f) = append-slash_injective a b s t ha.1 hb.1 (cc) in (cc, f)
