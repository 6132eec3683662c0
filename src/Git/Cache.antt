-- ===== src/Git/Cache.antt =====
-- crates/forge-git/src/cache.rs: how the cache reads the objects of a repository from the log. Of
-- `hydrate` this is what it does with the records; the files that it writes are left out.
pub mod RoundTrip
use crabforge.Prelude.{
  ℕ, zero, suc, ◌+◌, ◌-◌, List, [], ◌∷◌, ◌++◌, Option, none, some, leb, if◌then◌else◌, Result, ok,
  err, length, replicate,
}
use crabforge.Str.{Text}
use crabforge.HashMap
use crabforge.Bus.Writer.{Bytes}
use crabforge.Types.Oid.{Oid}
use crabforge.Git.Frame.{
  Kind, Frame, whole, manifest, chunk, FrameError, decode, reassemble, verify,
}
use crabforge.Git.Frame.Keys.{parse_key}

-- A record's key, as `from_utf8_lossy` reads it, and its value.
abbrev pub ObjectRecord : Type 0
ObjectRecord = Option Text × Option Bytes

abbrev pub Object : Type 0
Object = Oid × (Kind × Bytes)

abbrev pub Slot : Type 0
Slot = List (Option Bytes)

-- The locals of `hydrate`.
pub record Buffers : Type 0 where
  pub manifests : List (Oid × (Kind × (ℕ × ℕ)))
  pub partials : List (Oid × Slot)
  pub pending : List Object

-- `Vec::resize` with `None`, to a length that is no smaller.
abbrev pub resize : Slot → ℕ → Slot
resize slot len = slot ++ replicate (len - length slot) none

-- `slot[index] = Some(data)`, in range.
abbrev pub set_elem : ℕ → Bytes → Slot → Slot
set_elem index part [] = []
set_elem zero part (x ∷ slot) = some part ∷ slot
set_elem (suc index) part (x ∷ slot) = x ∷ set_elem index part slot

unfoldable pub put_chunk : ℕ → Bytes → Slot → Slot
put_chunk index part slot =
    set_elem index part (if leb (length slot) index then resize slot (index + 1) else slot)

-- `partials.entry(oid).or_default()`
unfoldable pub slot_of : Option Slot → Slot
slot_of none = []
slot_of (some slot) = slot

-- `partials.entry(oid).or_insert_with(|| vec![None; chunk_count as usize])`
unfoldable pub start_slot : Oid → ℕ → List (Oid × Slot) → List (Oid × Slot)
unfolding HashMap.get HashMap.insert
start_slot oid chunk_count partials = elim (HashMap.get oid partials) [
  | some slot ↦ partials
  | none ↦ HashMap.insert oid (replicate chunk_count none) partials
]

-- The match on the frame and the index of its key.
unfoldable pub place : Oid → Option ℕ → Result Frame FrameError → Buffers → Buffers
unfolding start_slot put_chunk slot_of HashMap.get HashMap.insert
place oid none (ok (whole kind content)) b = record b {
  pending = b.pending ++ (oid, (kind, content)) ∷ [];
}
place oid none (ok (manifest kind total_len chunk_count)) b = record b {
  manifests = HashMap.insert oid (kind, (total_len, chunk_count)) b.manifests;
  partials = start_slot oid chunk_count b.partials;
}
place oid (some index) (ok (chunk kind part)) b = record b {
  partials =
      HashMap.insert oid (put_chunk index part (slot_of (HashMap.get oid b.partials))) b.partials;
}
place oid _ _ b = b

-- What a record with a key of this object, and of this chunk, does; without a value it is a tombstone.
unfoldable pub place_value : Oid → Option ℕ → Option Bytes → Buffers → Buffers
unfolding place decode HashMap.remove
place_value oid index none b = record b {
  manifests = HashMap.remove oid b.manifests;
  partials = HashMap.remove oid b.partials;
}
place_value oid index (some value) b = place oid index (decode value) b

-- The closure that `replay_to_end` calls on each record.
unfoldable pub read_record : ObjectRecord → Buffers → Buffers
unfolding parse_key place_value
read_record (none, value) b = b
read_record (some key, value) b = elim (parse_key key) [
  | none ↦ b
  | some (oid, index) ↦ place_value oid index value b
]

unfoldable pub read_records : List ObjectRecord → Buffers → Buffers
unfolding read_record
read_records [] b = b
read_records (r ∷ rs) b = read_records rs (read_record r b)

-- What a manifest adds to the pending objects; parts that are incomplete are left out.
abbrev pub assembled : Oid → Kind → Result Bytes FrameError → List Object
assembled oid kind (ok content) = (oid, (kind, content)) ∷ []
assembled oid kind (err e) = []

unfoldable pub assemble_one : Oid → Kind → ℕ → ℕ → Option Slot → List Object
unfolding reassemble
assemble_one oid kind total_len chunk_count none = []
assemble_one oid kind total_len chunk_count (some parts) =
    assembled oid kind (reassemble total_len chunk_count parts)

-- The loop over the manifests.
unfoldable pub assemble : List (Oid × (Kind × (ℕ × ℕ))) → List (Oid × Slot) → List Object
unfolding assemble_one HashMap.get
assemble [] partials = []
assemble ((oid, (kind, (total_len, chunk_count))) ∷ rest) partials =
    assemble_one oid kind total_len chunk_count (HashMap.get oid partials) ++ assemble rest partials

-- The loop over the pending objects, up to the write of each: all of them pass `verify`, or the first
-- that does not ends it.
unfoldable pub verify_all : (Bytes → Oid) → List Object → Result (List Object) FrameError
unfolding verify
verify_all sha1 [] = ok []
verify_all sha1 ((oid, (kind, content)) ∷ rest) = elim (verify sha1 oid kind content) [
  | err e ↦ err e
  | ok _ ↦ elim (verify_all sha1 rest) [
    | err e ↦ err e
    | ok objects ↦ ok ((oid, (kind, content)) ∷ objects)
  ]
]

abbrev pub no_buffers : Buffers
no_buffers = record { manifests = []; partials = []; pending = [] }

unfoldable pub objects_of : Buffers → List Object
unfolding assemble
objects_of b = b.pending ++ assemble b.manifests b.partials

-- `Cache::hydrate`, from the records to the objects that it writes.
unfoldable pub hydrate : (Bytes → Oid) → List ObjectRecord → Result (List Object) FrameError
unfolding read_records objects_of verify_all
hydrate sha1 records = verify_all sha1 (objects_of (read_records records no_buffers))
