-- ===== src/Network/Stored.antt =====
-- What a provider setting that `assertProviderRequestAllowed` accepts may point at.
use octopus_job_search.Base.{
  ◌≡◌, refl, Bool, true, false, not, ◌&&◌, Option, none, some, List, [], arith, inl, inr,
}
use octopus_job_search.Base.Tests.{if◌then◌else◌, Option-cases}
use octopus_job_search.Base.Lists.{All, All-mono}
use octopus_job_search.Base.Text.{Text, codes, text_eq}
use octopus_job_search.Network.Ranges.{is_private_address}
use octopus_job_search.Network.Policy.{
  Url, best_effort, FetchPolicy, Verdict, allowed, refused, Platform, has_text, metadata_addresses,
  is_allowlisted, assert_url_allowed, addresses_of, bare_hostname,
}
use octopus_job_search.Network.Settings.{
  ProviderId, no_provider, fake, ollama, openai_compatible, Config, Checked, accepted,
  unprocessable, SettingsRefusal, destination, not_allowlisted, is_ollama, fetch_policy_for,
  check_base_url, assert_provider_request_allowed,
}
use octopus_job_search.Network.Allowed.{IsJudged, assert_url_allowed-IsJudged, private_outside}

module _ (platform : Platform) (parse_url : Text → Option Url) (config : Config) where
  abbrev policy_of : ProviderId → FetchPolicy
  policy_of chosen = fetch_policy_for platform parse_url config best_effort chosen

  -- Not a metadata address, and not private.
  pub record IsPublic (address : Text) : Type 0 where
    pub metadata : has_text (platform.to_lower address) metadata_addresses ≡ false
    pub public : is_private_address platform.to_lower platform.is_ip address ≡ false

  -- Not a metadata address.
  abbrev pub IsNoMetadata : Text → Type 0
  IsNoMetadata address = has_text (platform.to_lower address) metadata_addresses ≡ false

  -- A remote endpoint: https, and public at every address found for it.
  pub record IsRemote (url : Url) : Type 0 where
    pub https : text_eq url.protocol (codes "https:") ≡ true
    pub found : List Text
    pub resolved :
        addresses_of platform (bare_hostname platform url) (policy_of openai_compatible)
        ≡ allowed found
    pub public : All IsPublic found

  -- A local endpoint: on the operator's list, and no metadata address.
  pub record IsLocal (url : Url) : Type 0 where
    pub listed : is_allowlisted platform url (policy_of ollama).allowed_hosts ≡ true
    pub found : List Text
    pub resolved :
        addresses_of platform (bare_hostname platform url) (policy_of ollama) ≡ allowed found
    pub clean : All IsNoMetadata found

  abbrev IsEndpoint : (Url → Type 0) → Option Text → Type 0
  IsEndpoint P base_url =
      (base : Text) × (url : Url) × (base_url ≡ some base) × (parse_url base ≡ some url) × P url

  -- What an accepted setting may be, by the provider.
  abbrev pub IsStorable : ProviderId → Option Text → Type 0
  IsStorable no_provider base_url = base_url ≡ none
  IsStorable fake base_url = base_url ≡ none
  IsStorable ollama base_url = IsEndpoint IsLocal base_url
  IsStorable openai_compatible base_url = IsEndpoint IsRemote base_url

  unprocessable-ne : {r : SettingsRefusal} → unprocessable r ≡ accepted → ⊥
  unprocessable-ne e = cc

  -- An empty list allows nothing.
  nowhere : (url : Url) → is_allowlisted platform url [] ≡ false
  unfolding is_allowlisted
  nowhere url = refl

  judge-accepted :
      (v : Verdict (List Text))
      → (elim v [ allowed found ↦ accepted | refused reason ↦ unprocessable (destination reason) ])
        ≡ accepted
      → (found : List Text) × (v ≡ allowed found)
  judge-accepted (allowed found) e = (found, refl)
  judge-accepted (refused reason) e = cc

  guard-accepted :
      (b : Bool) (rest : Checked)
      → (if b then unprocessable not_allowlisted else rest) ≡ accepted
      → (b ≡ false) × (rest ≡ accepted)
  guard-accepted true rest e = cc
  guard-accepted false rest e = (refl, e)

  -- The guards of an endpoint.
  check_base_url-accepted :
      (chosen : ProviderId) (base_url : Option Text)
      → check_base_url platform parse_url config chosen base_url ≡ accepted
      → (base : Text) × (url : Url) × (found : List Text) × (base_url ≡ some base)
        × (parse_url base ≡ some url)
        × ((is_ollama chosen && not (is_allowlisted platform url (policy_of chosen).allowed_hosts))
            ≡ false)
        × IsJudged platform url (policy_of chosen) found
  unfolding check_base_url
  check_base_url-accepted chosen none e = cc
  check_base_url-accepted chosen (some base) e = elim (Option-cases (parse_url base)) [
    | inl n ↦ absurd (unprocessable-ne (rw (n, check_base_url) at e))
    | inr (url, parsed) ↦
        let (listed, judged) =
          guard-accepted
            (is_ollama chosen && not (is_allowlisted platform url (policy_of chosen).allowed_hosts))
            _ (rw (parsed, check_base_url) at e) in
        let (found, passed) =
          judge-accepted (assert_url_allowed platform url (policy_of chosen)) judged in
        (
          base,
          url,
          found,
          refl,
          parsed,
          listed,
          assert_url_allowed-IsJudged platform url (policy_of chosen) passed,
        )
  ]

  -- A setting that is accepted names no address for a provider without one; for an OpenAI-compatible
  -- provider a URL under https, every address of which is public and no metadata address; for Ollama
  -- a URL on the operator's list, no address of which is a metadata address. Public and metadata are
  -- as `isPrivateAddress` and the list of metadata addresses judge.
  pub assert_provider_request_allowed-IsStorable :
      (chosen : ProviderId) (base_url : Option Text)
      → assert_provider_request_allowed platform parse_url config chosen base_url ≡ accepted
      → IsStorable chosen base_url
  unfolding assert_provider_request_allowed fetch_policy_for
  assert_provider_request_allowed-IsStorable no_provider none e = refl
  assert_provider_request_allowed-IsStorable no_provider (some base) e = cc
  assert_provider_request_allowed-IsStorable fake none e = refl
  assert_provider_request_allowed-IsStorable fake (some base) e = cc
  assert_provider_request_allowed-IsStorable ollama base_url e =
      let (base, url, found, given, parsed, listed, judged) =
        check_base_url-accepted ollama base_url e in
      (
        base,
        url,
        given,
        parsed,
        record {
          listed = ground (arith, listed);
          found = found;
          resolved = judged.resolved;
          clean = All-mono (λ a p. p.metadata) found judged.clean;
        },
      )
  assert_provider_request_allowed-IsStorable openai_compatible base_url e =
      let (base, url, found, given, parsed, listed, judged) =
        check_base_url-accepted openai_compatible base_url e in
      (
        base,
        url,
        given,
        parsed,
        record {
          https = ground (arith, judged.https);
          found = found;
          resolved = judged.resolved;
          public =
              All-mono
                (λ a p. record {
                  metadata = p.metadata;
                  public = private_outside _ _ (nowhere url) p.public;
                })
                found judged.clean;
        },
      )
