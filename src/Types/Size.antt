-- ===== src/Types/Size.antt =====
-- crates/forge-types/src/size.rs: byte quantities. A `ByteSize` is its number of bytes, a `u64`.
pub mod Laws
use crabforge.Prelude.{
  ℕ, suc, ◌+◌, ◌-◌, ◌*◌, ◌/◌, ◌%◌, ◌^◌, ◌<◌, Bool, List, [], ◌∷◌, ◌++◌, Option, none, some, ltb,
  leb, ◌==◌, if◌then◌else◌,
}

abbrev pub i64_max : ℕ
i64_max = 2 ^ 63 - 1

abbrev pub ByteSize : Type 0
ByteSize = ℕ

-- `ByteSize::mib`. The conversion is the `uom` crate's; the source relies on it as exact integer
-- arithmetic, and calls it on 4, 8 and 100.
unfoldable pub mib : ℕ → ByteSize
mib n = n * 1048576

unfoldable pub as_i64 : ByteSize → ℕ
as_i64 n = if leb n i64_max then n else i64_max

-- `ChunkSize::refine`: the refinement that a `chunk: ChunkSize` carries is `0 < chunk`.
unfoldable pub refine_chunk : ℕ → Option ℕ
refine_chunk bytes = if bytes == 0 then none else some bytes

-- `total.div_ceil(chunk)`
abbrev pub div_ceil : ℕ → ℕ → ℕ
div_ceil a b = if a % b == 0 then a / b else a / b + 1

unfoldable pub chunk_count : ℕ → ℕ → ℕ
chunk_count total chunk = if total == 0 then 1 else div_ceil total chunk

-- `expect("chunk size must be positive")`: `none` is the panic.
unfoldable pub chunks_of : ByteSize → ByteSize → Option ℕ
unfolding chunk_count refine_chunk
chunks_of size chunk = elim (refine_chunk chunk) [
  | none ↦ none
  | some c ↦ some (chunk_count size c)
]

unfoldable pub max_frame : ByteSize
unfolding mib
max_frame = mib 100

unfoldable pub object_chunk : ByteSize
unfolding mib
object_chunk = mib 4

unfoldable pub max_api_body : ByteSize
unfolding mib
max_api_body = mib 8
