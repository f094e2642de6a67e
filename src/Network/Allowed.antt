-- ===== src/Network/Allowed.antt =====
-- What `assertUrlAllowed` guarantees of the destinations that it lets pass.
use octopus_job_search.Base.{
  ℕ, ◌<◌, ◌≡◌, refl, sym, ap, subst, ◌∙◌, Bool, true, false, not, ◌&&◌, ◌||◌, List, [], ◌∷◌, arith,
}
use octopus_job_search.Base.Tests.{if◌then◌else◌}
use octopus_job_search.Base.Lists.{All}
use octopus_job_search.Base.Text.{Text, codes, text_eq, is_blank, trim}
use octopus_job_search.Network.Quads.{show_ipv4}
use octopus_job_search.Network.Blocks.{number, is_reserved}
use octopus_job_search.Network.Ranges.{ip4, is_private_address}
use octopus_job_search.Network.Policy.{
  Url, FetchPolicy, Verdict, allowed, refused, Platform, has_text, FetchNotAllowed, keep_address,
  if_resolved, metadata_addresses, forbidden_hostnames, is_allowlisted, assert_url_allowed,
  check_addresses, addresses_of, bare_hostname,
}

keep_address-eq-allowed :
    (address : Text) (v : Verdict (List Text)) {l : List Text}
    → keep_address address v ≡ allowed l
    → (rest : List Text) × (v ≡ allowed rest) × (l ≡ address ∷ rest)
keep_address-eq-allowed address (refused r) e = cc
keep_address-eq-allowed address (allowed rest) e = (rest, refl, cc)

if_resolved-eq-allowed :
    (v : Verdict (List Text)) (check : List Text → Verdict (List Text)) {l : List Text}
    → if_resolved v check ≡ allowed l
    → (found : List Text) × (v ≡ allowed found) × (check found ≡ allowed l)
if_resolved-eq-allowed (refused r) check e = cc
if_resolved-eq-allowed (allowed found) check e = (found, refl, e)

-- A guard that refuses was not met where the whole is allowed.
guard-eq-allowed :
    (b : Bool) (r : FetchNotAllowed) (rest : Verdict (List Text)) {l : List Text}
    → (if b then refused r else rest) ≡ allowed l
    → (b ≡ false) × (rest ≡ allowed l)
guard-eq-allowed true r rest e = cc
guard-eq-allowed false r rest e = (refl, e)

pub private_outside :
    (private allowlisted : Bool)
    → allowlisted ≡ false
    → (private && not allowlisted) ≡ false
    → private ≡ false
private_outside private allowlisted outside h = ground (arith, outside, h)

module _ (platform : Platform) where
  -- What the loop asks of an address, by whether the destination is on the allow list.
  pub record IsPassed (allowlisted : Bool) (address : Text) : Type 0 where
    pub metadata : has_text (platform.to_lower address) metadata_addresses ≡ false
    pub public :
        (is_private_address platform.to_lower platform.is_ip address && not allowlisted) ≡ false

  -- The loop lets a list of addresses pass only as it is.
  check_addresses-IsPassed :
      (allowlisted : Bool) (addresses : List Text) {l : List Text}
      → check_addresses platform allowlisted addresses ≡ allowed l
      → (l ≡ addresses) × All (IsPassed allowlisted) addresses
  unfolding check_addresses
  check_addresses-IsPassed allowlisted [] {l} e = (cc, tt)
  check_addresses-IsPassed allowlisted (address ∷ addresses) {l} e =
      let (metadata, later) =
        guard-eq-allowed (has_text (platform.to_lower address) metadata_addresses) _ _ e in
      let (private, kept) =
        guard-eq-allowed
          (is_private_address platform.to_lower platform.is_ip address && not allowlisted) _ _
          later in
      let (rest, passed, whole) =
        keep_address-eq-allowed address (check_addresses platform allowlisted addresses) kept in
      let (same, clean) = check_addresses-IsPassed allowlisted addresses passed in
      (
        whole ∙ ap (λ q. address ∷ q) same,
        (record { metadata = metadata; public = private }, clean),
      )

  -- The guards of `assertUrlAllowed`, with what the loop asked of each address.
  pub record IsJudged (url : Url) (policy : FetchPolicy) (l : List Text) : Type 0 where
    pub scheme :
        (not (text_eq url.protocol (codes "http:")) && not (text_eq url.protocol (codes "https:")))
        ≡ false
    pub username : is_blank url.username ≡ true
    pub password : is_blank url.password ≡ true
    pub host : is_blank (bare_hostname platform url) ≡ false
    pub named : has_text (bare_hostname platform url) forbidden_hostnames ≡ false
    pub https : (policy.require_https && not (text_eq url.protocol (codes "https:"))) ≡ false
    pub resolved : addresses_of platform (bare_hostname platform url) policy ≡ allowed l
    pub clean : All (IsPassed (is_allowlisted platform url policy.allowed_hosts)) l

  pub assert_url_allowed-IsJudged :
      (url : Url) (policy : FetchPolicy) {l : List Text}
      → assert_url_allowed platform url policy ≡ allowed l
      → IsJudged url policy l
  unfolding assert_url_allowed
  assert_url_allowed-IsJudged url policy {l} e =
      let (scheme, e1) =
        guard-eq-allowed
          (not (text_eq url.protocol (codes "http:"))
            && not (text_eq url.protocol (codes "https:")))
          _ _ e in
      let (credentials, e2) =
        guard-eq-allowed (not (is_blank url.username) || not (is_blank url.password)) _ _ e1 in
      let (host, e3) = guard-eq-allowed (is_blank (bare_hostname platform url)) _ _ e2 in
      let (named, e4) =
        guard-eq-allowed (has_text (bare_hostname platform url) forbidden_hostnames) _ _ e3 in
      let (https, e5) =
        guard-eq-allowed (policy.require_https && not (text_eq url.protocol (codes "https:"))) _ _
          e4 in
      let (found, resolved, checked) =
        if_resolved-eq-allowed (addresses_of platform (bare_hostname platform url) policy) _ e5 in
      let (same, clean) = check_addresses-IsPassed _ found checked in
      record {
        scheme = scheme;
        username = ground (arith, credentials);
        password = ground (arith, credentials);
        host = host;
        named = named;
        https = https;
        resolved = resolved ∙ ap allowed (sym same);
        clean =
            subst (λ q. All (IsPassed (is_allowlisted platform url policy.allowed_hosts)) q)
              (sym same) clean;
      }

  -- The address reads, trimmed and in lower case, as a dotted quad that `isIP` knows, and the quad is in
  -- a reserved block.
  pub record IsReservedQuad (address : Text) : Type 0 where
    pub a : ℕ
    pub b : ℕ
    pub c : ℕ
    pub d : ℕ
    pub a_bound : a < 256
    pub b_bound : b < 256
    pub c_bound : c < 256
    pub d_bound : d < 256
    pub known : platform.is_ip (show_ipv4 a b c d) ≡ ip4
    pub reads : platform.to_lower (trim address) ≡ show_ipv4 a b c d
    pub reserved : is_reserved (number a b c d) ≡ true
