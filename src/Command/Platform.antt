-- ===== src/Command/Platform.antt =====
-- What the command service takes from other crates: the formatting and serialisation of events,
-- claims and references.
use crabforge.Prelude.{ℕ, ◌≡◌, Option, some}
use crabforge.Str.Laws.{NoSlash}
use crabforge.Bus.Writer.{Bytes, Wire}
use crabforge.Command.Catalog.{Claim}
use crabforge.Command.Refs.{RefValue}

pub record Platform : Type 0 where
  pub wire : Wire
  pub encode_claim : Claim → Bytes
  pub decode_claim : Bytes → Option Claim
  pub encode_ref : RefValue → Bytes
  pub decode_ref : Bytes → Option RefValue

-- Documented behaviour: what `serde_json` writes it reads back, and a UUID's text identifies it and
-- holds hexadecimal digits and hyphens only, so no `/`.
pub record IsPlatform (p : Platform) : Type 0 where
  pub claim_read_back : (c : Claim) → p.decode_claim (p.encode_claim c) ≡ some c
  pub ref_read_back : (v : RefValue) → p.decode_ref (p.encode_ref v) ≡ some v
  pub uuid_injective : (a b : ℕ) → p.wire.uuid_text a ≡ p.wire.uuid_text b → a ≡ b
  pub uuid_no_slash : (a : ℕ) → NoSlash (p.wire.uuid_text a)
