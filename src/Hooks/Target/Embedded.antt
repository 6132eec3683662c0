-- ===== src/Hooks/Target/Embedded.antt =====
-- IPv4 addresses inside IPv6 ones.
use crabforge.Prelude.{◌+◌, ◌*◌, ◌/◌, ◌%◌, ◌<◌, ◌≡◌, refl, ap, ◌∙◌, arith}
use crabforge.Hooks.Target.{Ipv4Addr, Ipv6Addr, is_public_v4, is_public_v6, embedded}

-- `::ffff:a.b.c.d`
abbrev pub mapped : Ipv4Addr → Ipv6Addr
mapped ip = record {
  s0 = 0;
  s1 = 0;
  s2 = 0;
  s3 = 0;
  s4 = 0;
  s5 = 65535;
  s6 = ip.a * 256 + ip.b;
  s7 = ip.c * 256 + ip.d;
}

embedded-mapped : (ip : Ipv4Addr) → ip.b < 256 → ip.d < 256 → embedded (mapped ip) ≡ ip
embedded-mapped ip h k =
    let a : (ip.a * 256 + ip.b) / 256 ≡ ip.a = omega (arith, h) in
    let b : (ip.a * 256 + ip.b) % 256 ≡ ip.b = omega (arith, h) in
    let c : (ip.c * 256 + ip.d) / 256 ≡ ip.c = omega (arith, k) in
    let d : (ip.c * 256 + ip.d) % 256 ≡ ip.d = omega (arith, k) in rw (a, b, c, d) refl

mapped_lem : (ip : Ipv4Addr) → is_public_v6 (mapped ip) ≡ is_public_v4 (embedded (mapped ip))
unfolding is_public_v6
mapped_lem ip = ground arith

-- An IPv4 address that is mapped into IPv6 is judged as the IPv4 address.
pub is_public_v6-mapped :
    (ip : Ipv4Addr) → ip.b < 256 → ip.d < 256 → is_public_v6 (mapped ip) ≡ is_public_v4 ip
is_public_v6-mapped ip h k = mapped_lem ip ∙ ap is_public_v4 (embedded-mapped ip h k)
