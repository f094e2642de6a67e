-- ===== src/Network/Policy.antt =====
-- `isAllowlisted`, `assertUrlAllowed` and `resolveOrRefuse` of apps/api/src/settings/network.ts, and
-- `fetchPolicyFor` and `assertProviderRequestAllowed` of apps/api/src/settings/providers.ts. The URL
-- parser, `toLowerCase`, `isIP` and the resolver are the platform's.
use octopus_job_search.Base.{
  Bool, true, false, not, ◌&&◌, ◌||◌, Option, none, some, List, [], ◌∷◌, ◌++◌,
}
use octopus_job_search.Base.Tests.{◌==◌, if◌then◌else◌, is_some}
use octopus_job_search.Base.Lists.{length, any}
use octopus_job_search.Base.Text.{Text, codes, text_eq, is_blank, trim}
use octopus_job_search.Network.Parse.{parse_ipv4, parse_ipv6, strip_brackets}
use octopus_job_search.Network.Ranges.{IpVersion, no_ip, ip4, ip6, is_private_address}

-- The parts of a parsed URL; an absent port is blank.
pub record Url : Type 0 where
  pub protocol : Text
  pub username : Text
  pub password : Text
  pub hostname : Text
  pub port : Text

pub data DnsMode : Type 0 where
  required best_effort : DnsMode

pub record FetchPolicy : Type 0 where
  pub require_https : Bool
  pub allowed_hosts : List Text
  pub dns : DnsMode

-- Why a fetch is refused: the reasons of `FetchNotAllowedError`.
pub data FetchNotAllowed : Type 0 where
  bad_protocol embedded_credentials no_host forbidden_host https_only : FetchNotAllowed
  metadata_address private_address unresolved : FetchNotAllowed

pub data Verdict {ℓ} (A : Type ℓ) : Type ℓ where
  allowed : A → Verdict A
  refused : FetchNotAllowed → Verdict A

-- What the platform does: case conversion, `isIP`, and the resolver, with no answer where it throws.
pub record Platform : Type 0 where
  pub to_lower : Text → Text
  pub is_ip : Text → IpVersion
  pub resolve : Text → Option (List Text)

abbrev pub has_text : Text → List Text → Bool
has_text t = any (text_eq t)

-- `FORBIDDEN_HOSTNAMES`.
abbrev pub forbidden_hostnames : List Text
forbidden_hostnames =
    codes "metadata.google.internal"
    ∷ codes "metadata.goog"
    ∷ codes "instance-data"
    ∷ codes "instance-data.ec2.internal"
    ∷ []

-- `METADATA_ADDRESSES`.
abbrev pub metadata_addresses : List Text
metadata_addresses =
    codes "169.254.169.254"
    ∷ codes "169.254.170.2"
    ∷ codes "100.100.100.200"
    ∷ codes "fd00:ec2::254"
    ∷ []

abbrev pub is_lenient : DnsMode → Bool
is_lenient best_effort = true
is_lenient required = false

abbrev pub keep_address : Text → Verdict (List Text) → Verdict (List Text)
keep_address address (refused r) = refused r
keep_address address (allowed l) = allowed (address ∷ l)

abbrev pub if_resolved :
    Verdict (List Text) → (List Text → Verdict (List Text)) → Verdict (List Text)
if_resolved (refused r) check = refused r
if_resolved (allowed addresses) check = check addresses

module _ (platform : Platform) where
  unfoldable pub bare_hostname : Url → Text
  unfolding strip_brackets
  bare_hostname url = strip_brackets (platform.to_lower url.hostname)

  unfoldable pub host_port : Url → Text
  unfolding bare_hostname
  host_port url =
      if is_blank url.port then bare_hostname url else bare_hostname url ++ (58 ∷ url.port)

  unfoldable pub is_allowlisted : Url → List Text → Bool
  unfolding bare_hostname host_port text_eq trim
  is_allowlisted url allowed_hosts =
      if length allowed_hosts == 0
      then false
      else any
          (λ entry.
            let candidate = platform.to_lower (trim entry) in
            text_eq candidate (bare_hostname url) || text_eq candidate (host_port url))
          allowed_hosts

  unfoldable pub resolve_or_refuse : Text → FetchPolicy → Verdict (List Text)
  resolve_or_refuse hostname policy = elim (platform.resolve hostname) [
    | none ↦ if is_lenient policy.dns then allowed [] else refused unresolved
    | some addresses ↦
        if length addresses == 0 && not (is_lenient policy.dns)
        then refused unresolved
        else allowed addresses
  ]

  -- The loop over the addresses.
  unfoldable pub check_addresses : Bool → List Text → Verdict (List Text)
  unfolding is_private_address text_eq
  check_addresses allowlisted [] = allowed []
  check_addresses allowlisted (address ∷ addresses) =
      let rest = check_addresses allowlisted addresses in
      if has_text (platform.to_lower address) metadata_addresses
      then refused metadata_address
      else if is_private_address platform.to_lower platform.is_ip address && not allowlisted
      then refused private_address
      else keep_address address rest

  unfoldable pub is_ip_literal : Text → Bool
  is_ip_literal host = elim (platform.is_ip host) [ no_ip ↦ false | ip4 ↦ true | ip6 ↦ true ]

  -- A literal address stands for itself.
  unfoldable pub addresses_of : Text → FetchPolicy → Verdict (List Text)
  unfolding parse_ipv4 parse_ipv6 resolve_or_refuse is_ip_literal
  addresses_of host policy =
      if is_ip_literal host || (is_some (parse_ipv6 host) || is_some (parse_ipv4 host))
      then allowed (host ∷ [])
      else resolve_or_refuse host policy

  -- `assertUrlAllowed`, which gives here the addresses that it let pass.
  unfoldable pub assert_url_allowed : Url → FetchPolicy → Verdict (List Text)
  unfolding text_eq bare_hostname is_allowlisted addresses_of check_addresses
  assert_url_allowed url policy =
      let https = text_eq url.protocol (codes "https:") in
      if not (text_eq url.protocol (codes "http:")) && not https
      then refused bad_protocol
      else if not (is_blank url.username) || not (is_blank url.password)
      then refused embedded_credentials
      else if is_blank (bare_hostname url)
      then refused no_host
      else if has_text (bare_hostname url) forbidden_hostnames
      then refused forbidden_host
      else if policy.require_https && not https
      then refused https_only
      else if_resolved (addresses_of (bare_hostname url) policy)
          (check_addresses (is_allowlisted url policy.allowed_hosts))
