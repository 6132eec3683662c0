-- ===== src/Git/Frame/Chunks.antt =====
-- The chunks of an object, and what they are put together to.
use crabforge.Prelude.{
  ℕ, zero, suc, ◌+◌, ◌*◌, ◌^◌, ◌<◌, ◌≤◌, ◌≡◌, refl, sym, ap, ◌∙◌, List, [], ◌∷◌, ◌++◌, Option, some,
  arith, ok, length, length-append, length-take, length-drop, drop, get_elem?, map, append_assoc,
  append-nil, All,
}
use crabforge.Bus.Writer.{Bytes}
use crabforge.Types.Size.{mib, object_chunk}
use crabforge.Git.Bytes.{chunks, chunks_go, concat}
use crabforge.Git.Frame.{chunk_count_for, gather, reassemble}
use crabforge.Git.Frame.Laws.{==_refl}

-- The parts are as many as the chunk size makes them, and none is larger.
length-chunks_go :
    (fuel : ℕ) (bytes : Bytes)
    → length bytes ≤ fuel
    → let c = length (chunks_go fuel 4194304 bytes) in
      (length bytes ≤ c * 4194304) × (c * 4194304 < length bytes + 4194304)
unfolding chunks_go
length-chunks_go zero [] k = (omega arith, omega arith)
length-chunks_go zero (b ∷ bs) k = absurd (omega (arith, k))
length-chunks_go (suc fuel) [] k = (omega arith, omega arith)
length-chunks_go (suc fuel) (b ∷ bs) k =
    let rest = length-drop 4194304 (b ∷ bs) in
    let (fits, tight) = length-chunks_go fuel (drop 4194304 (b ∷ bs)) (omega (arith, rest, k)) in
    (omega (arith, rest, fits, tight), omega (arith, rest, fits, tight))

pub length-chunks :
    (bytes : Bytes)
    → length bytes ≤ 4194304 * 4294967295
    → length (chunks object_chunk bytes) ≡ chunk_count_for (length bytes) object_chunk
unfolding chunks object_chunk mib chunk_count_for
length-chunks bytes h =
    let (fits, tight) = length-chunks_go (length bytes) bytes (omega arith) in
    ground (arith, fits, tight, h)

chunks_go-All :
    (fuel n : ℕ) (bytes : Bytes) → All (λ part. length part ≤ n) (chunks_go fuel n bytes)
unfolding chunks_go
chunks_go-All zero n bytes = tt
chunks_go-All (suc fuel) n [] = tt
chunks_go-All (suc fuel) n (b ∷ bs) =
    (omega (arith, length-take n (b ∷ bs)), chunks_go-All fuel n (drop n (b ∷ bs)))

pub chunks-All : (bytes : Bytes) → All (λ part. length part ≤ 4194304) (chunks object_chunk bytes)
unfolding chunks object_chunk mib
chunks-All bytes = chunks_go-All (length bytes) 4194304 bytes

pub object_chunk_pos : 0 < object_chunk
unfolding object_chunk mib
object_chunk_pos = omega arith

pub count_fits : (len : ℕ) → chunk_count_for len object_chunk < 2 ^ 32
unfolding chunk_count_for
count_fits len = omega arith

get_elem-append :
    (pre : List (Option Bytes)) (part : Option Bytes) (rest : List (Option Bytes))
    → get_elem? (pre ++ part ∷ rest) (length pre) ≡ some part
get_elem-append [] part rest = refl
get_elem-append (x ∷ pre) part rest = get_elem-append pre part rest

gather-parts :
    (pre : List (Option Bytes)) (parts : List Bytes) (content : Bytes)
    → gather (length parts) (length pre) (pre ++ map some parts) content
      ≡ ok (content ++ concat parts)
unfolding gather
gather-parts pre [] content = ap ok (sym (append-nil content))
gather-parts pre (part ∷ parts) content =
    let rest : List (Option Bytes) = map some parts in
    let next : List (Option Bytes) = pre ++ some part ∷ [] in
    let index : suc (length pre) ≡ length next =
      omega (arith, length-append pre (some part ∷ [])) in
    rw (get_elem-append pre (some part) rest, gather)
      (ap (λ i. gather (length parts) i (pre ++ some part ∷ rest) (content ++ part)) index
        ∙ (ap (λ l. gather (length parts) (length next) l (content ++ part))
              (sym (append_assoc pre (some part ∷ []) rest))
            ∙ (gather-parts next parts (content ++ part)
                ∙ ap ok (append_assoc content part (concat parts)))))

pub reassemble-parts :
    (parts : List Bytes)
    → reassemble (length (concat parts)) (length parts) (map some parts) ≡ ok (concat parts)
unfolding reassemble
reassemble-parts parts = rw (gather-parts [] parts []) (rw (==_refl (length (concat parts))) refl)
