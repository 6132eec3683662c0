-- ===== src/Hooks/Worker/Ended.antt =====
-- The rows of a request's attempts.
use crabforge.Prelude.{
  ℕ, suc, ◌≤◌, ◌<◌, ◌≡◌, ◌≢◌, refl, sym, ◌∙◌, inl, inr, Bool, true, false, none, some, arith, ◌==◌,
  Bool-cases,
}
use crabforge.Str.{Text}
use crabforge.HashMap
use crabforge.HashMap.Laws.{get-insert_self, get-insert_ne}
use crabforge.Store.Table.{Table}
use crabforge.Store.Hooks.{DeliveryRecord, HookTables, record_attempt}
use crabforge.Hooks.Delivery.{DeliveryOutcome, retry, max_attempts}
use crabforge.Hooks.Worker.{DeliveryRequest, Answers, attempt_key, attempt_row, attempted}
use crabforge.Hooks.Worker.Keys.{apart_keys}

abbrev pub is_retry : DeliveryOutcome → Bool
is_retry (retry _ _) = true
is_retry _ = false

module _ (a : Answers) (request : DeliveryRequest) where
  -- The row of attempt `m`.
  abbrev pub row_of : ℕ → DeliveryRecord
  row_of m = attempt_row request m (attempted a request m) (a.now m)

  -- No attempt from `lo` to the last one allowed is recorded.
  abbrev pub AreNew : ℕ → Table DeliveryRecord → Type 0
  AreNew lo t = (m : ℕ) → lo ≤ m → m ≤ max_attempts → HashMap.get (attempt_key request m) t ≡ none

  abbrev pub stored : HookTables → Table DeliveryRecord → HookTables
  stored tables t = record tables { deliveries = t }

  -- Attempts `lo` to `n` are recorded in `t'`, no attempt before `n` was more than a failure to be tried
  -- again, `n` is the last that is allowed if it was no more either, and all other rows are those of `t`.
  pub record Ended (lo n : ℕ) (t t' : Table DeliveryRecord) : Type 0 where
    pub from : lo ≤ n
    pub bounded : n ≤ max_attempts
    pub recorded :
        (m : ℕ) → lo ≤ m → m ≤ n → HashMap.get (attempt_key request m) t' ≡ some (row_of m)
    pub tried_again : (m : ℕ) → lo ≤ m → m < n → is_retry (attempted a request m) ≡ true
    pub final : is_retry (attempted a request n) ≡ true → n ≡ max_attempts
    pub others :
        (k : Text)
        → ((m : ℕ) → lo ≤ m → m ≤ n → attempt_key request m ≢ k)
        → HashMap.get k t' ≡ HashMap.get k t

  pub record_new :
      (m : ℕ) (tables : HookTables)
      → HashMap.get (attempt_key request m) tables.deliveries ≡ none
      → record_attempt (row_of m) tables
        ≡ some (stored tables (HashMap.insert (attempt_key request m) (row_of m) tables.deliveries))
  unfolding record_attempt attempt_row
  record_new m tables h = rw (h, record_attempt) refl

  -- The rows after one attempt that ended it.
  pub row-Ended :
      (n : ℕ) (t : Table DeliveryRecord)
      → n ≤ max_attempts
      → (is_retry (attempted a request n) ≡ true → n ≡ max_attempts)
      → Ended n n t (HashMap.insert (attempt_key request n) (row_of n) t)
  row-Ended n t h final = record {
    from = omega arith;
    bounded = h;
    recorded = λ m lo hi.
        let same : m ≡ n = omega (arith, lo, hi) in
        rw same (get-insert_self (attempt_key request n) (row_of n) t);
    tried_again = λ m lo hi. absurd (omega (arith, lo, hi));
    final = final;
    others = λ k apart.
        get-insert_ne k (attempt_key request n) (row_of n) t (apart n (omega arith) (omega arith));
  }

  -- An attempt that is tried again, and what followed it.
  pub earlier-Ended :
      (lo n : ℕ) (t t' : Table DeliveryRecord)
      → suc lo ≤ n
      → n ≤ max_attempts
      → is_retry (attempted a request lo) ≡ true
      → Ended (suc lo) n (HashMap.insert (attempt_key request lo) (row_of lo) t) t'
      → Ended lo n t t'
  earlier-Ended lo n t t' before bounded again e = record {
    from = omega arith;
    bounded = bounded;
    recorded = λ m hl hn. elim (Bool-cases (m == lo)) [
      | inl same ↦
          let at_lo : m ≡ lo = ground (arith, same) in
          rw at_lo (
            e.others (attempt_key request lo)
              (λ j hj hk key. apart_keys request lo j hj (omega (arith, hj, hk)) (sym key))
            ∙ get-insert_self (attempt_key request lo) (row_of lo) t)
      | inr other ↦ e.recorded m (ground (arith, other, hl)) hn
    ];
    tried_again = λ m hl hn. elim (Bool-cases (m == lo)) [
      | inl same ↦ let at_lo : m ≡ lo = ground (arith, same) in rw at_lo again
      | inr other ↦ e.tried_again m (ground (arith, other, hl)) hn
    ];
    final = e.final;
    others = λ k apart.
        e.others k (λ m hl hn. apart m (omega (arith, hl)) hn)
        ∙ get-insert_ne k (attempt_key request lo) (row_of lo) t
            (apart lo (omega arith) (omega arith));
  }

  pub insert-AreNew :
      (lo : ℕ) (t : Table DeliveryRecord)
      → AreNew lo t
      → AreNew (suc lo) (HashMap.insert (attempt_key request lo) (row_of lo) t)
  insert-AreNew lo t fresh m hl hm =
      get-insert_ne (attempt_key request m) (attempt_key request lo) (row_of lo) t
        (λ key. apart_keys request lo m (omega (arith, hl)) (omega (arith, hm)) key)
      ∙ fresh m (omega (arith, hl)) hm
