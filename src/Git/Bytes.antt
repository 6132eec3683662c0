-- ===== src/Git/Bytes.antt =====
-- Little-endian integers and slices of byte sequences, as the standard library gives them.
use crabforge.Prelude.{
  ℕ, zero, suc, ◌+◌, ◌*◌, ◌/◌, ◌%◌, ◌^◌, ◌≤◌, ◌<◌, ◌≡◌, refl, ap, ◌∙◌, List, [], ◌∷◌, ◌++◌, arith,
  length, take, drop, length-drop, take-append-drop,
}
use crabforge.Bus.Writer.{Bytes}

-- `to_le_bytes` of an integer of `w` bytes.
unfoldable pub to_le_bytes : ℕ → ℕ → Bytes
to_le_bytes zero v = []
to_le_bytes (suc w) v = (v % 256) ∷ to_le_bytes w (v / 256)

unfoldable pub from_le_bytes : Bytes → ℕ
from_le_bytes [] = 0
from_le_bytes (b ∷ bs) = b + 256 * from_le_bytes bs

pub from_le_bytes-to_le_bytes : (w v : ℕ) → v < 256 ^ w → from_le_bytes (to_le_bytes w v) ≡ v
unfolding from_le_bytes to_le_bytes
from_le_bytes-to_le_bytes zero v h = omega (arith, h)
from_le_bytes-to_le_bytes (suc w) v h =
    let rest = from_le_bytes-to_le_bytes w (v / 256) (omega (arith, h)) in omega (arith, rest)

-- `chunks(n)`: at most `n` at a time; the fuel is the length.
unfoldable pub chunks_go : ℕ → ℕ → Bytes → List Bytes
chunks_go zero n bytes = []
chunks_go (suc fuel) n [] = []
chunks_go (suc fuel) n (b ∷ bs) = take n (b ∷ bs) ∷ chunks_go fuel n (drop n (b ∷ bs))

unfoldable pub chunks : ℕ → Bytes → List Bytes
unfolding chunks_go
chunks n bytes = chunks_go (length bytes) n bytes

abbrev pub concat : List Bytes → Bytes
concat [] = []
concat (part ∷ parts) = part ++ concat parts

concat-chunks_go :
    (fuel n : ℕ) (bytes : Bytes)
    → 0 < n
    → length bytes ≤ fuel
    → concat (chunks_go fuel n bytes) ≡ bytes
unfolding chunks_go
concat-chunks_go zero n [] h k = refl
concat-chunks_go zero n (b ∷ bs) h k = absurd (omega (arith, k))
concat-chunks_go (suc fuel) n [] h k = refl
concat-chunks_go (suc fuel) n (b ∷ bs) h k =
    ap (λ rest. take n (b ∷ bs) ++ rest)
      (concat-chunks_go fuel n (drop n (b ∷ bs)) h (omega (arith, length-drop n (b ∷ bs), k, h)))
    ∙ take-append-drop n (b ∷ bs)

pub concat-chunks : (n : ℕ) (bytes : Bytes) → 0 < n → concat (chunks n bytes) ≡ bytes
unfolding chunks
concat-chunks n bytes h = concat-chunks_go (length bytes) n bytes h (omega arith)
