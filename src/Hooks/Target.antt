-- ===== src/Hooks/Target.antt =====
-- crates/forge-hooks/src/target.rs: which addresses the forge will call.
pub mod Blocks
pub mod Embedded
use crabforge.Prelude.{ℕ, ◌+◌, ◌*◌, ◌/◌, ◌%◌, Bool, true, false, ◌&&◌, ◌||◌, not, ltb, leb, ◌==◌}

-- An `Ipv4Addr` by its octets, and an `Ipv6Addr` by its segments.
pub record Ipv4Addr : Type 0 where
  pub a : ℕ
  pub b : ℕ
  pub c : ℕ
  pub d : ℕ

pub record Ipv6Addr : Type 0 where
  pub s0 : ℕ
  pub s1 : ℕ
  pub s2 : ℕ
  pub s3 : ℕ
  pub s4 : ℕ
  pub s5 : ℕ
  pub s6 : ℕ
  pub s7 : ℕ

pub data IpAddr : Type 0 where
  v4 : Ipv4Addr → IpAddr
  v6 : Ipv6Addr → IpAddr

-- The tests of the standard library.
abbrev pub is_private : Ipv4Addr → Bool
is_private ip =
    ip.a == 10 || ((ip.a == 172 && (leb 16 ip.b && leb ip.b 31)) || (ip.a == 192 && ip.b == 168))

abbrev pub is_loopback : Ipv4Addr → Bool
is_loopback ip = ip.a == 127

abbrev pub is_link_local : Ipv4Addr → Bool
is_link_local ip = ip.a == 169 && ip.b == 254

abbrev pub is_broadcast : Ipv4Addr → Bool
is_broadcast ip = ip.a == 255 && (ip.b == 255 && (ip.c == 255 && ip.d == 255))

abbrev pub is_documentation : Ipv4Addr → Bool
is_documentation ip =
    (ip.a == 192 && (ip.b == 0 && ip.c == 2))
    || ((ip.a == 198 && (ip.b == 51 && ip.c == 100)) || (ip.a == 203 && (ip.b == 0 && ip.c == 113)))

abbrev pub is_unspecified : Ipv4Addr → Bool
is_unspecified ip = ip.a == 0 && (ip.b == 0 && (ip.c == 0 && ip.d == 0))

abbrev pub is_multicast : Ipv4Addr → Bool
is_multicast ip = leb 224 ip.a && leb ip.a 239

unfoldable pub is_public_v4 : Ipv4Addr → Bool
is_public_v4 ip = not (
    is_private ip
    || (is_loopback ip
        || (is_link_local ip
            || (is_broadcast ip
                || (is_documentation ip
                    || (is_unspecified ip
                        || (is_multicast ip
                            || ((ip.a == 100 && (leb 64 ip.b && ltb ip.b 128))
                                || ((ip.a == 198 && (leb 18 ip.b && ltb ip.b 20))
                                    || leb 240 ip.a)))))))))

-- Five zero segments in front.
abbrev pub is_low : Ipv6Addr → Bool
is_low ip = ip.s0 == 0 && (ip.s1 == 0 && (ip.s2 == 0 && (ip.s3 == 0 && ip.s4 == 0)))

-- The address in the last two segments.
abbrev pub embedded : Ipv6Addr → Ipv4Addr
embedded ip = record { a = ip.s6 / 256; b = ip.s6 % 256; c = ip.s7 / 256; d = ip.s7 % 256 }

unfoldable pub is_public_v6 : Ipv6Addr → Bool
unfolding is_public_v4
is_public_v6 ip = not (
    (is_low ip && (ip.s5 == 0 && (ip.s6 == 0 && ip.s7 == 1)))
    || ((is_low ip && (ip.s5 == 0 && (ip.s6 == 0 && ip.s7 == 0)))
        || (ip.s0 / 256 == 255
            || (ip.s0 / 512 == 126
                || (ip.s0 / 64 == 1018
                    || ((is_low ip && (ip.s5 == 65535 && not (is_public_v4 (embedded ip))))
                        || (is_low ip
                            && ((ip.s5 == 0 || ip.s5 == 65535)
                                && not (is_public_v4 (embedded ip))))))))))

unfoldable pub is_public : IpAddr → Bool
unfolding is_public_v4 is_public_v6
is_public (v4 ip) = is_public_v4 ip
is_public (v6 ip) = is_public_v6 ip
