-- ===== src/Tests/Git.antt =====
-- Git objects at concrete inputs.
use crabforge.Prelude.{[], ◌∷◌, ◌≡◌, refl, none, some, arith, ok}
use crabforge.Str.{codes}
use crabforge.Types.Oid.{Oid, IsOid, zero_oid}
use crabforge.Bus.Writer.{Bytes}
use crabforge.Git.Frame.{
  compute_oid, blob, encode_object, encode_manifest, encode_chunk, object_key, chunk_key,
}
use crabforge.Git.Cache.{hydrate}
use crabforge.Git.Cache.RoundTrip.{as_records, hydrate-encode_object}
use crabforge.Git.Frame.Keys.{parse_key}
use crabforge.Git.Frame.Keys.RoundTrip.{parse_key-chunk_key}

zero_oid-IsOid : IsOid zero_oid
zero_oid-IsOid = (refl, omega arith)

parse_key-chunk_key_example :
    (parse_key (object_key zero_oid) ≡ some (zero_oid, none))
    × (parse_key (chunk_key zero_oid 12) ≡ some (zero_oid, some 12))
parse_key-chunk_key_example = parse_key-chunk_key zero_oid 12 zero_oid-IsOid (omega arith)

-- A digest that gives every object the same id.
abbrev same_id : Bytes → Oid
same_id bytes = zero_oid

hydrate-encode_object_example :
    hydrate same_id (as_records (encode_object zero_oid blob (codes "hello")))
    ≡ ok ((zero_oid, (blob, codes "hello")) ∷ [])
unfolding compute_oid
hydrate-encode_object_example =
    hydrate-encode_object same_id blob (codes "hello") zero_oid-IsOid (omega arith)

-- Two chunks that arrive in the wrong order are put where their keys say.
out_of_order :
    hydrate same_id (
      as_records (
        (object_key zero_oid, encode_manifest blob 2 2)
        ∷ (chunk_key zero_oid 1, encode_chunk blob (8 ∷ []))
        ∷ (chunk_key zero_oid 0, encode_chunk blob (7 ∷ []))
        ∷ []))
    ≡ ok ((zero_oid, (blob, 7 ∷ 8 ∷ [])) ∷ [])
unfolding hydrate object_key chunk_key encode_manifest encode_chunk compute_oid
out_of_order = refl
