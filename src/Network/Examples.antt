-- ===== src/Network/Examples.antt =====
-- A provider that resolves to a public address, and addresses of every kind.
use octopus_job_search.Base.{◌≡◌, refl, true, false, Option, none, some, [], ◌∷◌, arith}
use octopus_job_search.Base.Text.{Text, codes, text_eq, trim, trim_start, trim_end, is_space}
use octopus_job_search.Network.Parse.{
  parse_ipv4, parse_ipv6, split, parse_bytes, parse_byte, decimal_from, hex_digit, hex_from,
  parse_group, parse_groups, to_groups, strip_brackets, before_zone, at_last_colon, to_hex,
  expand_quad, zeros, fill_up, parse_halves, split_double,
}
use octopus_job_search.Network.Ranges.{
  no_ip, ip4, is_private_quad, is_private_ipv4, is_private_ipv6, is_private_text,
  is_private_address,
}
use octopus_job_search.Network.Blocks.{number, is_reserved, is_private_ipv4-is_reserved}
use octopus_job_search.Network.Quads.{show_ipv4, parse_ipv4-show_ipv4}
use octopus_job_search.Network.Policy.{
  Url, required, FetchPolicy, Platform, bare_hostname, is_allowlisted, resolve_or_refuse,
  check_addresses, is_ip_literal, addresses_of, assert_url_allowed,
}
use octopus_job_search.Network.Settings.{
  openai_compatible, Config, accepted, fetch_policy_for, check_base_url,
  assert_provider_request_allowed,
}
use octopus_job_search.Network.Stored.{IsStorable, assert_provider_request_allowed-IsStorable}

abbrev public_text : Text
public_text = codes "93.184.215.14"

-- The platform of the tests: texts are in lower case already, and one text is an address.
abbrev platform : Platform
platform = record {
  to_lower = λ t. t;
  is_ip = λ t. elim (text_eq t public_text) [ true ↦ ip4 | false ↦ no_ip ];
  resolve = λ host. some (public_text ∷ []);
}

abbrev url : Url
url = record {
  protocol = codes "https:";
  username = [];
  password = [];
  hostname = codes "api.example.com";
  port = [];
}

abbrev policy : FetchPolicy
policy = record { require_https = true; allowed_hosts = []; dns = required }

abbrev config : Config
config = record { allowed_fetch_hosts = codes "localhost" ∷ []; local_model_base_url = none }

-- A mapped private address is private, and so is what the brackets of a URL hold.
mapped : is_private_address platform.to_lower platform.is_ip (codes "::ffff:10.0.0.5") ≡ true
unfolding is_private_address is_private_text parse_ipv6 strip_brackets before_zone expand_quad
    at_last_colon parse_ipv4 split parse_bytes parse_byte decimal_from to_hex split_double
    parse_halves to_groups parse_groups parse_group hex_from hex_digit fill_up zeros is_private_ipv6
    is_private_ipv4 is_private_quad text_eq trim trim_start trim_end is_space
mapped = refl

loopback : is_private_address platform.to_lower platform.is_ip (codes "[::1]") ≡ true
unfolding is_private_address is_private_text parse_ipv6 strip_brackets before_zone expand_quad
    at_last_colon parse_ipv4 split parse_bytes parse_byte decimal_from to_hex split_double
    parse_halves to_groups parse_groups parse_group hex_from hex_digit fill_up zeros is_private_ipv6
    is_private_ipv4 is_private_quad text_eq trim trim_start trim_end is_space
loopback = refl

global : is_private_address platform.to_lower platform.is_ip (codes "2606:4700::6810:84e5") ≡ false
unfolding is_private_address is_private_text parse_ipv6 strip_brackets before_zone expand_quad
    at_last_colon parse_ipv4 split parse_bytes parse_byte decimal_from to_hex split_double
    parse_halves to_groups parse_groups parse_group hex_from hex_digit fill_up zeros is_private_ipv6
    is_private_ipv4 is_private_quad text_eq trim trim_start trim_end is_space
global = refl

is_private_ipv4-is_reserved_example :
    is_private_ipv4 (172 ∷ 20 ∷ 0 ∷ 9 ∷ []) ≡ is_reserved (number 172 20 0 9)
is_private_ipv4-is_reserved_example =
    is_private_ipv4-is_reserved 172 20 0 9 (omega arith) (omega arith) (omega arith) (omega arith)

parse_ipv4-show_ipv4_example : parse_ipv4 (show_ipv4 203 0 113 7) ≡ some (203 ∷ 0 ∷ 113 ∷ 7 ∷ [])
parse_ipv4-show_ipv4_example =
    parse_ipv4-show_ipv4 203 0 113 7 (omega arith) (omega arith) (omega arith) (omega arith)

known : platform.is_ip (show_ipv4 93 184 215 14) ≡ ip4
unfolding text_eq
known = refl

shown : platform.to_lower (trim public_text) ≡ show_ipv4 93 184 215 14
unfolding trim trim_start trim_end is_space
shown = refl

abbrev parse_url : Text → Option Url
parse_url base = some url

accepts :
    assert_provider_request_allowed platform parse_url config openai_compatible
      (some (codes "https://api.example.com"))
    ≡ accepted
unfolding assert_provider_request_allowed check_base_url fetch_policy_for assert_url_allowed
    bare_hostname strip_brackets is_allowlisted addresses_of is_ip_literal resolve_or_refuse
    check_addresses is_private_address is_private_text parse_ipv6 before_zone expand_quad
    at_last_colon parse_ipv4 split parse_bytes parse_byte decimal_from split_double parse_halves
    to_groups parse_groups parse_group hex_from hex_digit is_private_ipv4 is_private_quad text_eq
    trim trim_start trim_end is_space
accepts = refl

assert_provider_request_allowed-IsStorable_example :
    IsStorable platform parse_url config openai_compatible (some (codes "https://api.example.com"))
assert_provider_request_allowed-IsStorable_example =
    assert_provider_request_allowed-IsStorable platform parse_url config openai_compatible
      (some (codes "https://api.example.com")) accepts
