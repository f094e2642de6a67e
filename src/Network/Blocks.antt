-- ===== src/Network/Blocks.antt =====
-- The reserved blocks of IPv4 addresses, by base address and prefix length, and that the tests of
-- `isPrivateIpv4` in apps/api/src/settings/network.ts are membership in one of them.
use octopus_job_search.Base.{
  ℕ, ◌+◌, ◌-◌, ◌*◌, ◌/◌, ◌^◌, ◌<◌, ◌≡◌, refl, sym, Bool, true, false, ◌&&◌, ◌||◌, List, [], ◌∷◌,
  arith,
}
use octopus_job_search.Base.Tests.{◌==◌, leb}
use octopus_job_search.Base.Lists.{any}
use octopus_job_search.Network.Ranges.{is_private_quad, is_private_ipv4}

-- An address as a number of 32 bits.
abbrev pub number : ℕ → ℕ → ℕ → ℕ → ℕ
number a b c d = a * 16777216 + b * 65536 + c * 256 + d

-- Whether two numbers of 32 bits have their first `length` bits in common.
abbrev pub agree_on : ℕ → ℕ → ℕ → Bool
agree_on length n m = n / 2 ^ (32 - length) == m / 2 ^ (32 - length)

pub record Block : Type 0 where
  pub base : ℕ
  pub length : ℕ

abbrev pub in_block : ℕ → Block → Bool
in_block n block = agree_on block.length n block.base

abbrev block : ℕ → ℕ → ℕ → ℕ → ℕ → Block
block a b c d length = record { base = number a b c d; length = length }

-- "This network", private use, loopback, link-local, shared address space, protocol assignments,
-- the three documentation blocks, benchmarking, and multicast with all that is reserved above it.
unfoldable pub reserved_blocks : List Block
reserved_blocks =
    block 0 0 0 0 8
    ∷ block 10 0 0 0 8
    ∷ block 127 0 0 0 8
    ∷ block 169 254 0 0 16
    ∷ block 172 16 0 0 12
    ∷ block 192 168 0 0 16
    ∷ block 100 64 0 0 10
    ∷ block 192 0 0 0 24
    ∷ block 192 0 2 0 24
    ∷ block 198 18 0 0 15
    ∷ block 198 51 100 0 24
    ∷ block 203 0 113 0 24
    ∷ block 224 0 0 0 3
    ∷ []

abbrev pub is_reserved : ℕ → Bool
is_reserved n = any (in_block n) reserved_blocks

or_split :
    (x y p q r : Bool) → ((x && (y && (p || q))) || r) ≡ ((x && (y && p)) || ((x && (y && q)) || r))
or_split true true true q r = refl
or_split true true false q r = refl
or_split true false p q r = refl
or_split false y p q r = refl

or_false : (x : Bool) → (x || false) ≡ x
or_false true = refl
or_false false = refl

module _ (a b c d : ℕ) (x : a < 256) (y : b < 256) (z : c < 256) (w : d < 256) where
  first_byte : (v : ℕ) → (number a b c d / 16777216 == v) ≡ (a == v)
  first_byte v = ground arith

  two_bytes : (u v : ℕ) → v < 256 → (number a b c d / 65536 == u * 256 + v) ≡ (a == u && b == v)
  two_bytes u v h = ground arith

  three_bytes :
      (t u v : ℕ)
      → u < 256
      → v < 256
      → (number a b c d / 256 == t * 65536 + u * 256 + v) ≡ (a == t && (b == u && c == v))
  three_bytes t u v h k = ground arith

  private_use : (number a b c d / 1048576 == 2753) ≡ (a == 172 && (leb 16 b && leb b 31))
  private_use = ground arith

  shared : (number a b c d / 4194304 == 401) ≡ (a == 100 && (leb 64 b && leb b 127))
  shared = ground arith

  benchmark : (number a b c d / 131072 == 25353) ≡ (a == 198 && (b == 18 || b == 19))
  benchmark = ground arith

  multicast : (number a b c d / 536870912 == 7) ≡ leb 224 a
  multicast = ground arith

  -- The quads that `isPrivateIpv4` refuses are those whose number lies in a reserved block.
  is_private_quad-is_reserved : is_private_quad a b c ≡ is_reserved (number a b c d)
  unfolding is_private_quad reserved_blocks
  is_private_quad-is_reserved =
      rw
        (
          first_byte 0,
          first_byte 10,
          first_byte 127,
          two_bytes 169 254 (omega arith),
          private_use,
          two_bytes 192 168 (omega arith),
          shared,
          three_bytes 192 0 0 (omega arith) (omega arith),
          three_bytes 192 0 2 (omega arith) (omega arith),
          benchmark,
          three_bytes 198 51 100 (omega arith) (omega arith),
          three_bytes 203 0 113 (omega arith) (omega arith),
          multicast,
        )
        (rw
          (
            or_false (leb 224 a),
            sym (
                or_split (a == 192) (b == 0) (c == 0) (c == 2) (
                  a == 198 && (b == 18 || b == 19)
                  || (a == 198 && (b == 51 && c == 100)
                      || (a == 203 && (b == 0 && c == 113) || leb 224 a)))),
          )
          refl)

-- Of the four bytes of an address `isPrivateIpv4` holds exactly where the address, as a number of 32
-- bits, lies in one of the thirteen reserved blocks, compared by prefix.
pub is_private_ipv4-is_reserved :
    (a b c d : ℕ)
    → a < 256
    → b < 256
    → c < 256
    → d < 256
    → is_private_ipv4 (a ∷ b ∷ c ∷ d ∷ []) ≡ is_reserved (number a b c d)
unfolding is_private_ipv4
is_private_ipv4-is_reserved a b c d x y z w = is_private_quad-is_reserved a b c d x y z w
