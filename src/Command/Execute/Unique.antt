-- ===== src/Command/Execute/Unique.antt =====
-- Commands keep one claim record for each name and number issues without a gap or a repeat.
use crabforge.Prelude.{
  ℕ, ◌+◌, ◌<◌, ◌≡◌, ◌≢◌, refl, sym, ap, ◌∙◌, inl, inr, true, false, List, [], ◌∷◌, ◌++◌, arith,
  Bool-cases,
}
use crabforge.Str.{Text, text_eq}
use crabforge.Str.Laws.{text_eq_of_ne, text_eq_sound}
use crabforge.HashMap
use crabforge.Types.Int.{pos, i64_top, succ_i64, succ_i64-pos}
use crabforge.Bus.Writer.{PendingRecord}
use crabforge.Command.Catalog.{
  Catalog, Claim, issue_counter, user_key, repo_key, issue_counter_key, is_claimed, counter_or_one,
  next_issue_number,
}
use crabforge.Command.Catalog.Laws.{
  user_key-ne-issue_counter_key, repo_key-ne-issue_counter_key, not-is_claimed,
}
use crabforge.Command.Platform.{Platform, IsPlatform}
use crabforge.Command.State.Replay.{replay_claims-append}
use crabforge.Command.Execute.Emits.{
  Emits, plain, user_name, repo_name, number, IsPlain, is_catalog_record, claim_record,
}
use crabforge.Command.Execute.Counts.{
  claims_on, claims_on-append, claims_on_plain, claims_on-step, catalog_of, present, IsNameKey,
  IsCounted, replay_claims_plain,
}

NameKey-ne-issue_counter_key :
    (f : ℕ → Text) (k : Text) (r : ℕ) → IsNameKey k → k ≢ issue_counter_key f r
NameKey-ne-issue_counter_key f k r (inl (lower, e)) same =
    user_key-ne-issue_counter_key f lower r (sym e ∙ same)
NameKey-ne-issue_counter_key f k r (inr (full, e)) same =
    repo_key-ne-issue_counter_key f full r (sym e ∙ same)

next_issue_number_lem :
    (f : ℕ → Text) (r : ℕ) (c : Catalog)
    → next_issue_number f r c ≡ counter_or_one (HashMap.get (issue_counter_key f r) c)
unfolding next_issue_number
next_issue_number_lem f r c = refl

module _ (p : Platform) (log : List PendingRecord) (good : IsPlatform p) (h : IsCounted p log) where
  plain-IsCounted : (rs : List PendingRecord) → IsPlain rs → IsCounted p (log ++ rs)
  unfolding next_issue_number
  plain-IsCounted rs pl =
      let same : catalog_of p (log ++ rs) ≡ catalog_of p log =
        replay_claims-append p log rs [] ∙ replay_claims_plain p rs (catalog_of p log) pl in
      let count : (k : Text) → claims_on k (log ++ rs) ≡ claims_on k log =
        λ k. claims_on-append k log rs ∙ omega (arith, claims_on_plain k rs pl) in
      record {
        names = λ k hk. count k ∙ (h.names k hk ∙ ap (λ c. present (HashMap.get k c)) (sym same));
        numbers = λ r bound.
            rw (count, same)
              (h.numbers r (rw (← count (issue_counter_key p.wire.uuid_text r)) bound));
      }

  -- A counter whose claim and count are untouched stands where it stood.
  numbers_same :
      (rs : List PendingRecord) (r : ℕ)
      → let key = issue_counter_key p.wire.uuid_text r in
        claims_on key (log ++ rs) ≡ claims_on key log
        → HashMap.get key (catalog_of p (log ++ rs)) ≡ HashMap.get key (catalog_of p log)
        → claims_on key (log ++ rs) < i64_top
        → next_issue_number p.wire.uuid_text r (catalog_of p (log ++ rs))
          ≡ pos (1 + claims_on key (log ++ rs))
  numbers_same rs r count got bound =
      next_issue_number_lem p.wire.uuid_text r (catalog_of p (log ++ rs))
      ∙ (ap counter_or_one got
          ∙ (sym (next_issue_number_lem p.wire.uuid_text r (catalog_of p log))
              ∙ (h.numbers r (omega (arith, count, bound)) ∙ ap (λ n. pos (1 + n)) (sym count))))

  name-IsCounted :
      (e : PendingRecord) (key : Text) (claim : Claim)
      → is_catalog_record e ≡ false
      → is_claimed key (catalog_of p log) ≡ false
      → IsNameKey key
      → IsCounted p (log ++ e ∷ claim_record p key claim ∷ [])
  name-IsCounted e key claim pl free named = record {
    names = λ k hk. elim (Bool-cases (text_eq key k)) [
      | inl same ↦
          let (count, got) = claims_on-step p log e key k claim true good pl same in
          let none_yet : claims_on k log ≡ 0 =
            h.names k hk
            ∙ ap present
                (not-is_claimed k (catalog_of p log) (rw (← text_eq_sound key k same) free)) in
          rw (got, count, none_yet) refl
      | inr other ↦
          let (count, got) = claims_on-step p log e key k claim false good pl other in
          rw (got, count) (omega (arith, h.names k hk))
    ];
    numbers = λ r bound.
        let (count, got) =
          claims_on-step p log e key (issue_counter_key p.wire.uuid_text r) claim false good pl
            (text_eq_of_ne key _ (NameKey-ne-issue_counter_key p.wire.uuid_text key r named)) in
        numbers_same (e ∷ claim_record p key claim ∷ []) r (omega (arith, count)) got bound;
  }

  number-IsCounted :
      (e : PendingRecord) (repo_id : ℕ)
      → is_catalog_record e ≡ false
      → IsCounted p (
          log
          ++ e
            ∷ claim_record p (issue_counter_key p.wire.uuid_text repo_id) (
                issue_counter
                  (succ_i64 (next_issue_number p.wire.uuid_text repo_id (catalog_of p log))))
            ∷ [])
  number-IsCounted e repo_id pl =
      let key = issue_counter_key p.wire.uuid_text repo_id in
      let claim =
        issue_counter (succ_i64 (next_issue_number p.wire.uuid_text repo_id (catalog_of p log))) in
      let rs : List PendingRecord = e ∷ claim_record p key claim ∷ [] in
      record {
        names = λ k hk.
            let (count, got) = claims_on-step p log e key k claim false good pl (
              text_eq_of_ne key k
                λ same. NameKey-ne-issue_counter_key p.wire.uuid_text k repo_id hk (sym same)) in
            rw (got, count) (omega (arith, h.names k hk));
        numbers = λ r bound.
            let other_key = issue_counter_key p.wire.uuid_text r in
            elim (Bool-cases (text_eq key other_key)) [
              | inl same ↦
                  let one = text_eq_sound key other_key same in
                  let (count, got) = claims_on-step p log e key other_key claim true good pl same in
                  let below : claims_on key log + 1 < i64_top =
                    rw (one) (omega (arith, count, bound)) in
                  next_issue_number_lem p.wire.uuid_text r (catalog_of p (log ++ rs))
                  ∙ (ap counter_or_one got
                      ∙ (ap succ_i64 (h.numbers repo_id (omega (arith, below)))
                          ∙ (succ_i64-pos (1 + claims_on key log) (omega (arith, below))
                              ∙ ap pos (omega (arith, count, ap (λ k. claims_on k log) one)))))
              | inr other ↦
                  let (count, got) =
                    claims_on-step p log e key other_key claim false good pl other in
                  numbers_same rs r (omega (arith, count)) got bound
            ];
      }

  pub Emits-IsCounted :
      (rs : List PendingRecord) → Emits p (catalog_of p log) rs → IsCounted p (log ++ rs)
  Emits-IsCounted rs (plain pl) = plain-IsCounted rs pl
  Emits-IsCounted rs (user_name e lower claim pl free shape) =
      rw shape (name-IsCounted e (user_key lower) claim pl free (inl (lower, refl)))
  Emits-IsCounted rs (repo_name e full claim pl free shape) =
      rw shape (name-IsCounted e (repo_key full) claim pl free (inr (full, refl)))
  Emits-IsCounted rs (number e repo_id pl shape) = rw shape (number-IsCounted e repo_id pl)
