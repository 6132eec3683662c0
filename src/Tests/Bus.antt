-- ===== src/Tests/Bus.antt =====
-- Transactions at concrete inputs.
use crabforge.Prelude.{◌≡◌, refl, true, false, List, [], ◌∷◌, none, ok, err}
use crabforge.Str.{codes, text_eq}
use crabforge.Bus.Writer.{
  Bus, WriteError, PendingRecord, returned, state_record, tombstone, transact, offset_for,
}
use crabforge.Bus.Writer.Laws.{IsAtomic, transact-IsAtomic, transact_fenced}
use crabforge.Bus.Writer.Offsets.{transact-offset_for, highest, acked_on}
use crabforge.Tests.Demo.{broker, lost_broker, lost_broker-IsBroker}

abbrev fresh : Bus
fresh = record { fenced = false; log = [] }

abbrev two_records : List PendingRecord
two_records =
    state_record (codes "t") (codes "k") (1 ∷ [])
    ∷ tombstone (codes "u") (codes "k")
    ∷ state_record (codes "t") (codes "j") (2 ∷ [])
    ∷ []

transact-IsAtomic_example : IsAtomic fresh two_records (transact lost_broker fresh two_records)
transact-IsAtomic_example = transact-IsAtomic lost_broker fresh two_records lost_broker-IsBroker

transact_fenced_example :
    transact broker (record { fenced = true; log = [] }) two_records
    ≡ returned (record { fenced = true; log = [] }, err WriteError.fenced)
transact_fenced_example =
    transact_fenced broker (record { fenced = true; log = [] }) two_records refl

two_land :
    transact broker fresh two_records
    ≡ returned
        (record { fenced = false; log = two_records }, ok ((codes "t", 12) ∷ (codes "u", 11) ∷ []))
unfolding transact text_eq
two_land = refl

transact-offset_for_example :
    offset_for (codes "t") ((codes "t", 12) ∷ (codes "u", 11) ∷ [])
    ≡ highest none (acked_on broker 0 (codes "t") two_records)
transact-offset_for_example =
    transact-offset_for broker fresh two_records (codes "t")
      (record { fenced = false; log = two_records }) ((codes "t", 12) ∷ (codes "u", 11) ∷ [])
      two_land
