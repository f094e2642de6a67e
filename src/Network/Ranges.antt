-- ===== src/Network/Ranges.antt =====
-- `isPrivateIpv4`, `isPrivateIpv6` and `isPrivateAddress` of apps/api/src/settings/network.ts. The
-- masks of the source are quotients here: `x & 0xfe` is twice `x / 2` for a byte `x`.
use octopus_job_search.Base.{ℕ, ◌/◌, Bool, true, ◌&&◌, ◌||◌, Option, none, some, List, [], ◌∷◌}
use octopus_job_search.Base.Tests.{◌==◌, leb, if◌then◌else◌, or_else, same_opt}
use octopus_job_search.Base.Lists.{take, drop, every}
use octopus_job_search.Base.Text.{Text, is_blank, trim}
use octopus_job_search.Network.Parse.{parse_ipv4, parse_ipv6}

-- `bytes[n]`.
abbrev pub byte_at : ℕ → List ℕ → Option ℕ
byte_at n [] = none
byte_at ℕ.zero (b ∷ bytes) = some b
byte_at (ℕ.suc n) (b ∷ bytes) = byte_at n bytes

abbrev pub byte_or_zero : ℕ → List ℕ → ℕ
byte_or_zero n bytes = or_else (byte_at n bytes) 0

abbrev pub is_byte : ℕ → ℕ → List ℕ → Bool
is_byte n v bytes = same_opt (byte_at n bytes) (some v)

-- The tests of `isPrivateIpv4` on the first three bytes.
unfoldable pub is_private_quad : ℕ → ℕ → ℕ → Bool
is_private_quad a b c =
    a == 0
    || (a == 10
        || (a == 127
            || ((a == 169 && b == 254)
                || ((a == 172 && (leb 16 b && leb b 31))
                    || ((a == 192 && b == 168)
                        || ((a == 100 && (leb 64 b && leb b 127))
                            || ((a == 192 && (b == 0 && (c == 0 || c == 2)))
                                || ((a == 198 && (b == 18 || b == 19))
                                    || ((a == 198 && (b == 51 && c == 100))
                                        || ((a == 203 && (b == 0 && c == 113))
                                            || (leb 224 a)))))))))))

unfoldable pub is_private_ipv4 : List ℕ → Bool
unfolding is_private_quad
is_private_ipv4 bytes =
    is_private_quad (byte_or_zero 0 bytes) (byte_or_zero 1 bytes) (byte_or_zero 2 bytes)

abbrev pub is_zero : ℕ → Bool
is_zero b = b == 0

unfoldable pub is_private_ipv6 : List ℕ → Bool
unfolding is_private_ipv4
is_private_ipv6 bytes =
    let b0 = byte_or_zero 0 bytes in
    let b1 = byte_or_zero 1 bytes in
    let b2 = byte_or_zero 2 bytes in
    let b3 = byte_or_zero 3 bytes in
    let leading_zero = every is_zero (take 10 bytes) in
    let v4 = drop 12 bytes in
    if leading_zero && (is_byte 10 255 bytes && is_byte 11 255 bytes)
    then is_private_ipv4 v4
    else if leading_zero && (is_byte 10 0 bytes && is_byte 11 0 bytes)
    then every is_zero v4
      || (is_byte 0 0 v4 && (is_byte 1 0 v4 && (is_byte 2 0 v4 && is_byte 3 1 v4)))
      || is_private_ipv4 v4
    else b0 / 2 == 126
      || (b0 == 254 && b1 / 64 == 2)
      || b0 == 255
      || (b0 == 32 && (b1 == 1 && (b2 == 13 && b3 == 184)))
      || (b0 == 1 && (b1 == 0 && (b2 == 0 && b3 == 0)))

-- What `isIP` of the platform says of a text.
pub data IpVersion : Type 0 where
  no_ip ip4 ip6 : IpVersion

abbrev pub private_or : (List ℕ → Bool) → Option (List ℕ) → Bool → Bool
private_or test none otherwise = otherwise
private_or test (some bytes) otherwise = test bytes

-- `to_lower` is `toLowerCase`, and `is_ip` is `isIP` of node:net.
module _ (to_lower : Text → Text) (is_ip : Text → IpVersion) where
  unfoldable pub is_private_text : Text → Bool
  unfolding parse_ipv4 parse_ipv6 is_private_ipv4 is_private_ipv6
  is_private_text normalised = if is_blank normalised then true else elim (is_ip normalised) [
    | ip4 ↦ private_or is_private_ipv4 (parse_ipv4 normalised) true
    | ip6 ↦ private_or is_private_ipv6 (parse_ipv6 normalised) true
    | no_ip ↦
        private_or is_private_ipv6 (parse_ipv6 normalised)
          (private_or is_private_ipv4 (parse_ipv4 normalised) true)
  ]

  unfoldable pub is_private_address : Text → Bool
  unfolding is_private_text trim
  is_private_address address = is_private_text (to_lower (trim address))
