-- ===== src/Hooks/Target/Blocks.antt =====
-- The refused addresses as blocks, and IPv4 addresses inside IPv6 ones.
use crabforge.Prelude.{
  ℕ, ◌+◌, ◌*◌, ◌/◌, ◌<◌, ◌≡◌, Bool, false, ◌&&◌, ◌||◌, not, arith, ltb, leb, ◌==◌, List, [], ◌∷◌,
  any,
}
use crabforge.Hooks.Target.{Ipv4Addr, is_public_v4}

-- The address as one number of 32 bits.
abbrev pub number_of : Ipv4Addr → ℕ
number_of ip = ((ip.a * 256 + ip.b) * 256 + ip.c) * 256 + ip.d

-- A block, by its first address and the size of what its prefix leaves free.
pub record Block : Type 0 where
  pub first : Ipv4Addr
  pub size : ℕ

abbrev pub is_in : Ipv4Addr → Block → Bool
is_in ip block = number_of ip / block.size == number_of block.first / block.size

abbrev block : ℕ → ℕ → ℕ → ℕ → ℕ → Block
block a b c d size = record { first = record { a = a; b = b; c = c; d = d }; size = size }

-- 10/8, 172.16/12, 192.168/16, 127/8, 169.254/16, 255.255.255.255/32, 192.0.2/24, 198.51.100/24,
-- 203.0.113/24, 0.0.0.0/32, 224/4, 100.64/10, 198.18/15 and 240/4.
abbrev pub refused : List Block
refused =
    block 10 0 0 0 16777216
    ∷ block 172 16 0 0 1048576
    ∷ block 192 168 0 0 65536
    ∷ block 127 0 0 0 16777216
    ∷ block 169 254 0 0 65536
    ∷ block 255 255 255 255 1
    ∷ block 192 0 2 0 256
    ∷ block 198 51 100 0 256
    ∷ block 203 0 113 0 256
    ∷ block 0 0 0 0 1
    ∷ block 224 0 0 0 268435456
    ∷ block 100 64 0 0 4194304
    ∷ block 198 18 0 0 131072
    ∷ block 240 0 0 0 268435456
    ∷ []

module _ (a b c d : ℕ) (hb : b < 256) (hc : c < 256) (hd : d < 256) where
  abbrev number : ℕ
  number = ((a * 256 + b) * 256 + c) * 256 + d

  private_10_block : (number / 16777216 == 10) ≡ (a == 10)
  private_10_block = ground (arith, hb, hc, hd)

  private_172_block : (number / 1048576 == 2753) ≡ (a == 172 && (leb 16 b && leb b 31))
  private_172_block = ground (arith, hb, hc, hd)

  private_192_block : (number / 65536 == 49320) ≡ (a == 192 && b == 168)
  private_192_block = ground (arith, hb, hc, hd)

  loopback_block : (number / 16777216 == 127) ≡ (a == 127)
  loopback_block = ground (arith, hb, hc, hd)

  link_local_block : (number / 65536 == 43518) ≡ (a == 169 && b == 254)
  link_local_block = ground (arith, hb, hc, hd)

  broadcast_block : (number / 1 == 4294967295) ≡ (a == 255 && (b == 255 && (c == 255 && d == 255)))
  broadcast_block = ground (arith, hb, hc, hd)

  documentation_1_block : (number / 256 == 12582914) ≡ (a == 192 && (b == 0 && c == 2))
  documentation_1_block = ground (arith, hb, hc, hd)

  documentation_2_block : (number / 256 == 12989284) ≡ (a == 198 && (b == 51 && c == 100))
  documentation_2_block = ground (arith, hb, hc, hd)

  documentation_3_block : (number / 256 == 13303921) ≡ (a == 203 && (b == 0 && c == 113))
  documentation_3_block = ground (arith, hb, hc, hd)

  unspecified_block : (number / 1 == 0) ≡ (a == 0 && (b == 0 && (c == 0 && d == 0)))
  unspecified_block = ground (arith, hb, hc, hd)

  multicast_block : (number / 268435456 == 14) ≡ (leb 224 a && leb a 239)
  multicast_block = ground (arith, hb, hc, hd)

  shared_block : (number / 4194304 == 401) ≡ (a == 100 && (leb 64 b && ltb b 128))
  shared_block = ground (arith, hb, hc, hd)

  benchmarking_block : (number / 131072 == 25353) ≡ (a == 198 && (leb 18 b && ltb b 20))
  benchmarking_block = ground (arith, hb, hc, hd)

  reserved_block : (ha : a < 256) → (number / 268435456 == 15) ≡ (leb 240 a)
  reserved_block ha = ground (arith, hb, hc, hd, ha)

regroup :
    (p1 p2 p3 p4 p5 p6 p7 p8 p9 p10 p11 p12 p13 p14 : Bool)
    → not (
        (p1 || (p2 || p3))
        || (p4 || (p5 || (p6 || ((p7 || (p8 || p9)) || (p10 || (p11 || (p12 || (p13 || p14)))))))))
      ≡ not (
          p1
          || (p2
              || (p3
                  || (p4
                      || (p5
                          || (p6
                              || (p7
                                  || (p8
                                      || (p9
                                          || (p10
                                              || (p11 || (p12 || (p13 || (p14 || false))))))))))))))
regroup p1 p2 p3 p4 p5 p6 p7 p8 p9 p10 p11 p12 p13 p14 = ground arith

-- An IPv4 address, of four octets below 256, is taken for public exactly when it lies in none of the
-- listed blocks.
pub is_public_v4-refused :
    (ip : Ipv4Addr)
    → ip.a < 256
    → ip.b < 256
    → ip.c < 256
    → ip.d < 256
    → is_public_v4 ip ≡ not (any (is_in ip) refused)
unfolding is_public_v4
is_public_v4-refused ip h i j k =
    rw
      (
        private_10_block ip.a ip.b ip.c ip.d i j k,
        private_172_block ip.a ip.b ip.c ip.d i j k,
        private_192_block ip.a ip.b ip.c ip.d i j k,
        loopback_block ip.a ip.b ip.c ip.d i j k,
        link_local_block ip.a ip.b ip.c ip.d i j k,
        broadcast_block ip.a ip.b ip.c ip.d i j k,
        documentation_1_block ip.a ip.b ip.c ip.d i j k,
        documentation_2_block ip.a ip.b ip.c ip.d i j k,
        documentation_3_block ip.a ip.b ip.c ip.d i j k,
        unspecified_block ip.a ip.b ip.c ip.d i j k,
        multicast_block ip.a ip.b ip.c ip.d i j k,
        shared_block ip.a ip.b ip.c ip.d i j k,
        benchmarking_block ip.a ip.b ip.c ip.d i j k,
        reserved_block ip.a ip.b ip.c ip.d i j k h,
      )
      (regroup (ip.a == 10) (ip.a == 172 && (leb 16 ip.b && leb ip.b 31))
        (ip.a == 192 && ip.b == 168) (ip.a == 127) (ip.a == 169 && ip.b == 254)
        (ip.a == 255 && (ip.b == 255 && (ip.c == 255 && ip.d == 255)))
        (ip.a == 192 && (ip.b == 0 && ip.c == 2)) (ip.a == 198 && (ip.b == 51 && ip.c == 100))
        (ip.a == 203 && (ip.b == 0 && ip.c == 113))
        (ip.a == 0 && (ip.b == 0 && (ip.c == 0 && ip.d == 0))) (leb 224 ip.a && leb ip.a 239)
        (ip.a == 100 && (leb 64 ip.b && ltb ip.b 128)) (ip.a == 198 && (leb 18 ip.b && ltb ip.b 20))
        (leb 240 ip.a))
