-- ===== src/Tests/Hooks.antt =====
-- Webhook targets at concrete addresses.
use crabforge.Prelude.{◌≡◌, refl, false, not, any, arith}
use crabforge.Hooks.Target.{Ipv4Addr, is_public_v4, is_public_v6}
use crabforge.Hooks.Target.Blocks.{is_in, refused, is_public_v4-refused}
use crabforge.Hooks.Target.Embedded.{mapped, is_public_v6-mapped}

-- A cloud's metadata service, and the loopback address.
abbrev metadata : Ipv4Addr
metadata = record { a = 169; b = 254; c = 169; d = 254 }

abbrev localhost : Ipv4Addr
localhost = record { a = 127; b = 0; c = 0; d = 1 }

is_public_v4-refused_example : is_public_v4 metadata ≡ not (any (is_in metadata) refused)
is_public_v4-refused_example =
    is_public_v4-refused metadata (omega arith) (omega arith) (omega arith) (omega arith)

metadata_refused : is_public_v4 metadata ≡ false
unfolding is_public_v4
metadata_refused = refl

is_public_v6-mapped_example : is_public_v6 (mapped localhost) ≡ is_public_v4 localhost
is_public_v6-mapped_example = is_public_v6-mapped localhost (omega arith) (omega arith)
