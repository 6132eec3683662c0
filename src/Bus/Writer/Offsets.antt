-- ===== src/Bus/Writer/Offsets.antt =====
-- The offsets that a committed transaction reports.
use Prim.Native.Nat.{max}
use crabforge.Prelude.{
  ◌⊎◌, ℕ, suc, ◌≡◌, refl, sym, Bool, true, false, List, [], ◌∷◌, Option, none, some, arith,
  Bool-cases, inl, inr, if◌then◌else◌, ok, err, Option-cases, Result-cases,
}
use crabforge.Str.{Text, text_eq}
use crabforge.Str.Laws.{text_eq_iff}
use crabforge.Bus.Writer.{
  aborted, closed, Bus, Broker, Run, returned, Ack, acked, refused, dropped, PendingRecord,
  Committed, offset_for, note_offset, collect, transact, WriteError, ProducerError, EndTxn,
  committed, failed, classify, end_transaction, reject, send_failed, channel_closed, producer,
}

-- The highest of the numbers and of `best`.
abbrev pub highest : Option ℕ → List ℕ → Option ℕ
highest best [] = best
highest none (o ∷ os) = highest (some o) os
highest (some p) (o ∷ os) = highest (some (max p o)) os

abbrev pub acked_offset : Ack → List ℕ → List ℕ
acked_offset (acked o) os = o ∷ os
acked_offset _ os = os

-- The offsets at which the broker acknowledged the records on a topic, from the `i`-th record on.
pub acked_on : Broker → ℕ → Text → List PendingRecord → List ℕ
acked_on b i t [] = []
acked_on b i t (r ∷ rs) =
    let rest = acked_on b (suc i) t rs in
    if text_eq r.topic t then acked_offset (b.ack i) rest else rest

abbrev join_max : Option ℕ → ℕ → Option ℕ
join_max none o = some o
join_max (some p) o = some (max p o)

offset_for-note_offset :
    (t u : Text) (o : ℕ) (c : Committed)
    → offset_for t (note_offset u o c)
      ≡ (if text_eq u t then join_max (offset_for t c) o else offset_for t c)
unfolding offset_for note_offset
offset_for-note_offset t u o [] = refl
offset_for-note_offset t u o ((v, p) ∷ c) =
    ground
      (arith, text_eq_iff u t, text_eq_iff v u, text_eq_iff v t, offset_for-note_offset t u o c)

highest-join_max :
    (best : Option ℕ) (o : ℕ) (os : List ℕ) → highest best (o ∷ os) ≡ highest (join_max best o) os
highest-join_max none o os = refl
highest-join_max (some p) o os = refl

highest-if :
    (same : Bool) (best : Option ℕ) (o : ℕ) (os : List ℕ)
    → highest (if same then join_max best o else best) os
      ≡ highest best (if same then o ∷ os else os)
highest-if true best o os = sym (highest-join_max best o os)
highest-if false best o os = refl

Ack-cases :
    (a : Ack) → ((o : ℕ) × (a ≡ acked o)) ⊎ ((e : ProducerError) × (a ≡ refused e)) ⊎ (a ≡ dropped)
Ack-cases (acked o) = inl (o, refl)
Ack-cases (refused e) = inr (inl (e, refl))
Ack-cases dropped = inr (inr refl)

pub offset_for-collect :
    (b : Broker) (i : ℕ) (t : Text) (rs : List PendingRecord) (c : Committed) {c' : Committed}
    → collect b i rs c ≡ ok c'
    → offset_for t c' ≡ highest (offset_for t c) (acked_on b i t rs)
unfolding collect acked_on
offset_for-collect b i t [] c h = ground arith
offset_for-collect b i t (r ∷ rs) c {c'} h = elim (Ack-cases (b.ack i)) [
  | inl (o, e) ↦
      let later : collect b (suc i) rs (note_offset r.topic o c) ≡ ok c' = rw (e, collect) at h in
      rw (e, offset_for-collect b (suc i) t rs (note_offset r.topic o c) later)
        (rw offset_for-note_offset (highest-if (text_eq r.topic t) (offset_for t c) o _))
  | inr (inl (p, e)) ↦ absurd (let bad : err (send_failed p) ≡ ok c' = rw (e, collect) at h in cc)
  | inr (inr e) ↦ absurd (let bad : err channel_closed ≡ ok c' = rw (e, collect) at h in cc)
]

reject-ne-ok :
    (r : Run (Bus × WriteError)) (s : Bus) (c : Committed) → ¬ (reject r ≡ returned (s, ok c))
reject-ne-ok (returned (t, e)) s c h = cc
reject-ne-ok (aborted log) s c h = cc

end_transaction_ok :
    (s : Bus) (end : EndTxn) (records : List PendingRecord) (c : Committed) (s' : Bus)
    (c' : Committed)
    → end_transaction s end records c ≡ returned (s', ok c')
    → c' ≡ c
unfolding end_transaction
end_transaction_ok s committed records c s' c' h = cc
end_transaction_ok s (failed e landed) records c s' c' h = absurd (reject-ne-ok _ s' c' h)

-- A transaction that succeeds reports, for every topic, the highest offset at which a record on
-- that topic was acknowledged, and none for a topic that it did not write to.
pub transact-offset_for :
    (b : Broker) (s : Bus) (records : List PendingRecord) (t : Text) (s' : Bus) (c : Committed)
    → transact b s records ≡ returned (s', ok c)
    → offset_for t c ≡ highest none (acked_on b 0 t records)
unfolding transact offset_for acked_on
transact-offset_for b s [] t s' c h = elim (Bool-cases s.fenced) [
  | inl f ↦
      absurd
        (let bad : returned (s, err WriteError.fenced) ≡ returned (s', ok c) = simp f at h in cc)
  | inr f ↦
      let none_sent : [] ≡ c =
        (let same : returned (s, ok []) ≡ returned (s', ok c) = simp f at h in cc) in
      rw (← none_sent)
]
transact-offset_for b s (r ∷ rs) t s' c h = elim (Bool-cases s.fenced) [
  | inl f ↦
      absurd
        (let bad : returned (s, err WriteError.fenced) ≡ returned (s', ok c) = simp f at h in cc)
  | inr f ↦ elim (Option-cases b.begin) [
    | inr (p, g) ↦ absurd (reject-ne-ok _ s' c (simp (f, g) at h))
    | inl g ↦ elim (Result-cases (collect b 0 (r ∷ rs) [])) [
      | inl (offsets, got) ↦
          let same = end_transaction_ok s b.commit (r ∷ rs) offsets s' c (simp (f, g, got) at h) in
          rw same (offset_for-collect b 0 t (r ∷ rs) [] got)
      | inr (send_failed p, got) ↦ absurd (reject-ne-ok (classify s p) s' c (simp (f, g, got) at h))
      | inr (channel_closed, got) ↦ absurd (
          let bad : returned (s, err (producer closed)) ≡ returned (s', ok c) =
            simp (f, g, got) at h in
          cc)
    ]
  ]
]
