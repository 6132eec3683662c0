-- ===== src/Command/Refs/Laws.antt =====
-- The references as a function of the repository and the name, and what `check` decides.
use crabforge.Prelude.{
  ℕ, ◌≡◌, ◌≢◌, ◌↔◌, ◌⊎◌, inl, inr, refl, ap, ◌∙◌, true, false, ◌&&◌, ◌==◌, Option, none, some,
  arith, if◌then◌else◌, is_err,
}
use crabforge.Str.{Text, text_eq}
use crabforge.Str.Laws.{text_eq_iff, append-slash_injective, NoSlash}
use crabforge.HashMap.Laws.{get-insert, get-remove}
use crabforge.Types.Oid.{Oid}
use crabforge.Command.Refs.{
  RefMap, RefUpdate, ref_key, get_ref, set_ref, same_oid, check, is_none, is_valid_ref_name,
}

-- `same_oid` decides equality.
pub same_oid_iff : (a b : Option Oid) → (same_oid a b ≡ true) ↔ (a ≡ b)
unfolding same_oid
same_oid_iff none none = (λ h. refl, λ e. refl)
same_oid_iff none (some b) = (λ h. cc, λ e. cc)
same_oid_iff (some a) none = (λ h. cc, λ e. cc)
same_oid_iff (some a) (some b) =
    (λ h. ap some ((text_eq_iff a b).0 h), λ e. (text_eq_iff a b).1 (cc))

module _ (f : ℕ → Text) (injective : (a b : ℕ) → f a ≡ f b → a ≡ b)
    (no_slash : (a : ℕ) → NoSlash (f a)) where
  ref_key_iff : (r q : ℕ) (n m : Text) → (ref_key f r n ≡ ref_key f q m) ↔ ((r ≡ q) × (n ≡ m))
  unfolding ref_key
  ref_key_iff r q n m = (
    λ e.
        let (left, right) = append-slash_injective (f r) (f q) n m (no_slash r) (no_slash q) e in
        (injective r q left, right),
    λ both. cc,
  )

  text_eq-ref_key :
      (r q : ℕ) (n m : Text) → text_eq (ref_key f r n) (ref_key f q m) ≡ (r == q && text_eq n m)
  text_eq-ref_key r q n m =
      ground
        (arith, text_eq_iff (ref_key f r n) (ref_key f q m), ref_key_iff r q n m, text_eq_iff n m)

  -- Moving a reference changes that reference and no other, in this repository or another.
  pub get_ref-set_ref :
      (r q : ℕ) (n m : Text) (new : Option Oid) (refs : RefMap)
      → get_ref f q m (set_ref f r n new refs)
        ≡ (if r == q && text_eq n m then new else get_ref f q m refs)
  unfolding get_ref set_ref
  get_ref-set_ref r q n m none refs =
      get-remove (ref_key f q m) (ref_key f r n) refs ∙ rw (text_eq-ref_key r q n m) refl
  get_ref-set_ref r q n m (some oid) refs =
      get-insert (ref_key f q m) (ref_key f r n) oid refs ∙ rw (text_eq-ref_key r q n m) refl

-- What an update has to be for `check` to pass it.
pub record IsAcceptable (f : ℕ → Text) (repo : ℕ) (refs : RefMap) (u : RefUpdate) : Type 0 where
  pub named : is_valid_ref_name u.name ≡ true
  pub current : get_ref f repo u.name refs ≡ u.expected_old
  pub effective : (u.new ≢ none) ⊎ (u.expected_old ≢ none)

-- The three tests of `check`.
check_iff :
    (f : ℕ → Text) (repo : ℕ) (refs : RefMap) (u : RefUpdate)
    → (is_err (check f repo u refs) ≡ false) ↔ (
        (is_valid_ref_name u.name ≡ true)
        × (same_oid (get_ref f repo u.name refs) u.expected_old ≡ true)
        × ((is_none u.new && is_none (get_ref f repo u.name refs)) ≡ false))
unfolding check
check_iff f repo refs u = ground arith

both_none : (a b : Option Oid) → ((is_none a && is_none b) ≡ false) ↔ ((a ≢ none) ⊎ (b ≢ none))
both_none none none =
    (λ h. cc, λ e. elim e [ inl bad ↦ absurd (bad refl) | inr bad ↦ absurd (bad refl) ])
both_none none (some b) = (λ h. inr λ e. cc, λ e. refl)
both_none (some a) b = (λ h. inl λ e. cc, λ e. refl)

pub check-IsAcceptable :
    (f : ℕ → Text) (repo : ℕ) (refs : RefMap) (u : RefUpdate)
    → (is_err (check f repo u refs) ≡ false) ↔ IsAcceptable f repo refs u
check-IsAcceptable f repo refs u = (
  λ h.
      let (valid, same, some_value) = (check_iff f repo refs u).0 h in
      let current = (same_oid_iff (get_ref f repo u.name refs) u.expected_old).0 same in
      record {
        named = valid;
        current = current;
        effective = (both_none u.new u.expected_old).0 (rw (← current) some_value);
      },
  λ h. (check_iff f repo refs u).1 (
    h.named,
    (same_oid_iff (get_ref f repo u.name refs) u.expected_old).1 h.current,
    rw h.current ((both_none u.new u.expected_old).1 h.effective),
  ),
)
