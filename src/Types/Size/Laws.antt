-- ===== src/Types/Size/Laws.antt =====
-- Chunk counts and conversions of byte quantities.
use crabforge.Prelude.{
  zero, suc, ◌∙◌, sym, ◌≢◌, ==_iff, ℕ, refl, ◌+◌, ◌*◌, ◌%◌, ◌≤◌, ◌<◌, ◌≡◌, arith, ◌==◌, true, false,
  Bool-cases, inl, inr,
}
use crabforge.Types.Size.{chunk_count, div_ceil, max_frame, object_chunk}
use native.Mathlib.Nat.{div-add-mod, mod-lt}

div_ceil_bounds : (a b : ℕ) → 0 < b → (a ≤ div_ceil a b * b) × (div_ceil a b * b < a + b)
div_ceil_bounds a b h = elim (Bool-cases (a % b == 0)) [
  | inl e ↦
      let whole : a % b ≡ 0 = (==_iff _ 0).0 e in
      rw e (omega (arith, div-add-mod a b, whole), omega (arith, div-add-mod a b, whole))
  | inr e ↦
      let part : a % b ≢ 0 =
        λ z. absurd (let f : true ≡ false = sym ((==_iff _ 0).1 z) ∙ e in cc) in
      rw e (omega (arith, div-add-mod a b, mod-lt a h), omega (arith, div-add-mod a b, part))
]

factor_pos : (a b c : ℕ) → 0 < a → a ≤ b * c → 1 ≤ b
factor_pos a zero c h k = absurd (omega (arith, k))
factor_pos a (suc b) c h k = omega arith

-- The chunks hold the whole object and are at least one. If the object has a byte, no chunk is spare: one
-- chunk fewer would not hold it. An empty object takes one chunk.
pub chunk_count_bounds :
    (total chunk : ℕ)
    → 0 < chunk
    → (1 ≤ chunk_count total chunk)
      × (total ≤ chunk_count total chunk * chunk)
      × (0 < total → chunk_count total chunk * chunk < total + chunk)
      × (total ≡ 0 → chunk_count total chunk ≡ 1)
unfolding chunk_count
chunk_count_bounds total chunk h = elim (Bool-cases (total == 0)) [
  | inl e ↦
      let z : total ≡ 0 = (==_iff _ 0).0 e in
      rw e (omega arith, omega arith, λ p. absurd (omega arith), λ p. refl)
  | inr e ↦
      let some_bytes : total ≢ 0 =
        λ z. absurd (let f : true ≡ false = sym ((==_iff _ 0).1 z) ∙ e in cc) in
      let (fits, tight) = div_ceil_bounds total chunk h in
      rw e (
        factor_pos total _ chunk (omega (arith, some_bytes)) fits,
        fits,
        λ p. tight,
        λ z. absurd (some_bytes z),
      )
]

-- The largest chunk, with any frame overhead below 96 MiB, fits in one wire frame.
pub object_chunk-lt-max_frame : object_chunk + 95 * 1048576 < max_frame
unfolding object_chunk max_frame
object_chunk-lt-max_frame = omega arith
