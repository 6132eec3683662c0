-- ===== src/Git/Cache/RoundTrip.antt =====
-- What is written as the records of an object is read from them.
use crabforge.Prelude.{
  ℕ, suc, ◌+◌, ◌*◌, ◌^◌, ◌%◌, ◌<◌, ◌≤◌, ◌≡◌, refl, sym, ap, ◌∙◌, false, List, [], ◌∷◌, ◌++◌, none,
  some, arith, leb, ok, length, length-append, replicate, map, append_assoc, All, Bool-cases, inl,
  inr,
}
use crabforge.Str.Laws.{text_eq_refl}
use crabforge.HashMap
use crabforge.Bus.Writer.{Bytes}
use crabforge.Types.Oid.{Oid, IsOid}
use crabforge.Types.Size.{object_chunk}
use crabforge.Git.Bytes.{chunks, concat, concat-chunks}
use crabforge.Git.Frame.{
  Kind, manifest, chunk, Encoded, encode_whole, encode_manifest, encode_chunk, encode_object,
  chunk_records, chunk_count_for, reassemble, decode, object_key, chunk_key, compute_oid, verify,
}
use crabforge.Git.Frame.Laws.{decode-encode_whole, decode-encode_manifest, decode-encode_chunk}
use crabforge.Git.Frame.Chunks.{
  length-chunks, chunks-All, object_chunk_pos, count_fits, reassemble-parts,
}
use crabforge.Git.Frame.Keys.RoundTrip.{parse_key-chunk_key}
use crabforge.Git.Cache.{
  ObjectRecord, Slot, Buffers, set_elem, put_chunk, slot_of, start_slot, place, place_value,
  read_record, read_records, assemble_one, assemble, verify_all, no_buffers, objects_of, hydrate,
}

-- The records as the log holds them.
abbrev pub as_records : Encoded → List ObjectRecord
as_records records = map (λ r. (some r.0, some r.1)) records

set_elem-append :
    (pre : Slot) (part : Bytes) (rest : Slot)
    → set_elem (length pre) part (pre ++ none ∷ rest) ≡ pre ++ some part ∷ rest
set_elem-append [] part rest = refl
set_elem-append (x ∷ pre) part rest = ap (λ l. x ∷ l) (set_elem-append pre part rest)

put_chunk-append :
    (pre : Slot) (part : Bytes) (rest : Slot)
    → put_chunk (length pre) part (pre ++ none ∷ rest) ≡ pre ++ some part ∷ rest
unfolding put_chunk
put_chunk-append pre part rest =
    let inside : leb (length (pre ++ none ∷ rest)) (length pre) ≡ false =
      ground (arith, length-append pre (none ∷ rest)) in
    rw inside (set_elem-append pre part rest)

module _ (oid : Oid) (kind : Kind) (total count : ℕ) (good : IsOid oid) where
  -- The buffers while the chunks of one object arrive.
  abbrev filling : Slot → Buffers
  filling slot = record {
    manifests = (oid, (kind, (total, count))) ∷ [];
    partials = (oid, slot) ∷ [];
    pending = [];
  }

  read_record-object_key :
      (value : Bytes) (b : Buffers)
      → read_record (some (object_key oid), some value) b ≡ place oid none (decode value) b
  unfolding read_record place_value
  read_record-object_key value b =
      rw ((parse_key-chunk_key oid 0 good (omega arith)).0, read_record) refl

  read_record-chunk_key :
      (index : ℕ) (value : Bytes) (b : Buffers)
      → index < 2 ^ 32
      → read_record (some (chunk_key oid index), some value) b
        ≡ place oid (some index) (decode value) b
  unfolding read_record place_value
  read_record-chunk_key index value b h =
      rw ((parse_key-chunk_key oid index good h).1, read_record) refl

  place-chunk :
      (index : ℕ) (part : Bytes) (slot : Slot)
      → place oid (some index) (ok (chunk kind part)) (filling slot)
        ≡ filling (put_chunk index part slot)
  unfolding place slot_of HashMap.get HashMap.insert
  place-chunk index part slot = rw (text_eq_refl oid) refl

  place-manifest :
      place oid none (ok (manifest kind total count)) no_buffers ≡ filling (replicate count none)
  unfolding place start_slot HashMap.get HashMap.insert
  place-manifest = refl

  -- One chunk's record fills the place that its key names.
  read_record-chunk :
      (pre : Slot) (part : Bytes) (rest : Slot)
      → length pre < 2 ^ 32
      → length part ≤ 4194304
      → read_record
          (some (chunk_key oid (length pre % 2 ^ 32)), some (encode_chunk kind part))
          (filling (pre ++ none ∷ rest))
        ≡ filling (pre ++ some part ∷ rest)
  read_record-chunk pre part rest h k =
      let index : length pre % 2 ^ 32 ≡ length pre = omega (arith, h) in
      rw index (
        read_record-chunk_key (length pre) (encode_chunk kind part) (filling (pre ++ none ∷ rest)) h
        ∙ (ap (λ f. place oid (some (length pre)) f (filling (pre ++ none ∷ rest)))
              (decode-encode_chunk kind part (omega (arith, k)))
            ∙ (place-chunk (length pre) part (pre ++ none ∷ rest)
                ∙ ap filling (put_chunk-append pre part rest))))

  read_records-chunks :
      (pre : Slot) (parts : List Bytes)
      → All (λ part. length part ≤ 4194304) parts
      → length pre + length parts < 2 ^ 32
      → read_records
          (as_records (chunk_records oid kind (length pre) parts))
          (filling (pre ++ replicate (length parts) none))
        ≡ filling (pre ++ map some parts)
  unfolding read_records chunk_records
  read_records-chunks pre [] small h = refl
  read_records-chunks pre (part ∷ parts) small h =
      let next : Slot = pre ++ some part ∷ [] in
      let empty : Slot = replicate (length parts) none in
      let index : suc (length pre) ≡ length next =
        omega (arith, length-append pre (some part ∷ [])) in
      ap (read_records (as_records (chunk_records oid kind (suc (length pre)) parts)))
        (read_record-chunk pre part empty (omega (arith, h)) small.0)
      ∙ (ap
            (λ l.
              read_records (as_records (chunk_records oid kind (suc (length pre)) parts))
                (filling l))
            (sym (append_assoc pre (some part ∷ []) empty))
          ∙ (ap
                (λ i.
                  read_records (as_records (chunk_records oid kind i parts))
                    (filling (next ++ empty)))
                index
              ∙ (read_records-chunks next parts small.1 (omega (arith, index, h))
                  ∙ ap filling (append_assoc pre (some part ∷ []) (map some parts)))))

  objects_of-filling :
      (parts : Slot) (content : Bytes)
      → reassemble total count parts ≡ ok content
      → objects_of (filling parts) ≡ (oid, (kind, content)) ∷ []
  unfolding objects_of assemble assemble_one HashMap.get
  objects_of-filling parts content h = rw (text_eq_refl oid) (rw h refl)

module _ (sha1 : Bytes → Oid) (kind : Kind) (content : Bytes) where
  verify_all-one :
      (oid : Oid)
      → oid ≡ compute_oid sha1 kind content
      → verify_all sha1 ((oid, (kind, content)) ∷ []) ≡ ok ((oid, (kind, content)) ∷ [])
  unfolding verify_all verify
  verify_all-one oid e =
      rw e (rw (text_eq_refl (compute_oid sha1 kind content), verify_all, verify) refl)

  chunked :
      (oid : Oid)
      → IsOid oid
      → length content ≤ 4194304 * 4294967295
      → objects_of (
          read_records
            (as_records (
              (
                object_key oid,
                encode_manifest kind
                    (length content)
                    (chunk_count_for (length content) object_chunk),
              )
              ∷ chunk_records oid kind 0 (chunks object_chunk content)))
            no_buffers)
        ≡ (oid, (kind, content)) ∷ []
  unfolding read_records
  chunked oid good h =
      let parts = chunks object_chunk content in
      let total = length content in
      let count = chunk_count_for total object_chunk in
      let counted : length parts ≡ count = length-chunks content h in
      let fits = count_fits total in
      let all : concat parts ≡ content = concat-chunks object_chunk content object_chunk_pos in
      let head =
        read_record-object_key oid kind total count good (encode_manifest kind total count)
          no_buffers
        ∙ (ap (λ f. place oid none f no_buffers)
              (decode-encode_manifest kind total count (omega (arith, h)) fits)
            ∙ (place-manifest oid kind total count good
                ∙ ap (λ n. filling oid kind total count good (replicate n none)) (sym counted))) in
      let filled =
        ap (read_records (as_records (chunk_records oid kind 0 parts))) head
        ∙ read_records-chunks oid kind total count good [] parts (chunks-All content)
            (omega (arith, counted, fits)) in
      ap objects_of filled
      ∙ objects_of-filling oid kind total count good (map some parts) content (
          ap (λ n. reassemble n count (map some parts)) (ap length (sym all))
          ∙ (ap (λ n. reassemble (length (concat parts)) n (map some parts)) (sym counted)
              ∙ (reassemble-parts parts ∙ ap ok all)))

  whole_one :
      (oid : Oid)
      → IsOid oid
      → length content ≤ 4194304 * 4294967295
      → objects_of
          (read_records (as_records ((object_key oid, encode_whole kind content) ∷ [])) no_buffers)
        ≡ (oid, (kind, content)) ∷ []
  unfolding read_records objects_of assemble place
  whole_one oid good h = ap objects_of (
      read_record-object_key oid kind 0 0 good (encode_whole kind content) no_buffers
      ∙ ap (λ f. place oid none f no_buffers) (decode-encode_whole kind content (omega (arith, h))))

  -- An object of up to 2^32 - 1 chunks whose id is the one that `sha1` gives it, 20 bytes long, is what the
  -- cache reads, and all that it reads, from the records that the object is written as: whole from one
  -- frame, or put together from a manifest and from chunks that stand where their keys say.
  pub hydrate-encode_object :
      IsOid (compute_oid sha1 kind content)
      → length content ≤ 4194304 * 4294967295
      → hydrate sha1 (as_records (encode_object (compute_oid sha1 kind content) kind content))
        ≡ ok ((compute_oid sha1 kind content, (kind, content)) ∷ [])
  unfolding hydrate encode_object
  hydrate-encode_object good h =
      let oid = compute_oid sha1 kind content in
      let checked = verify_all-one oid refl in
      elim (Bool-cases (leb (length content) object_chunk)) [
        | inl small ↦ rw small (ap (verify_all sha1) (whole_one oid good h) ∙ checked)
        | inr large ↦ rw large (ap (verify_all sha1) (chunked oid good h) ∙ checked)
      ]
