-- ===== src/Network/Settings.antt =====
-- `fetchPolicyFor`, `parseBaseUrl` and `assertProviderRequestAllowed` of
-- apps/api/src/settings/providers.ts: which destinations a stored provider setting may name.
use octopus_job_search.Base.{Bool, true, false, not, ◌&&◌, Option, none, some, List, [], ◌∷◌, ◌++◌}
use octopus_job_search.Base.Tests.{◌==◌, if◌then◌else◌}
use octopus_job_search.Base.Text.{Text, is_blank}
use octopus_job_search.Network.Parse.{ends_with, but_last}
use octopus_job_search.Network.Policy.{
  Url, DnsMode, best_effort, FetchPolicy, FetchNotAllowed, Verdict, allowed, refused, Platform,
  has_text, is_allowlisted, assert_url_allowed,
}

pub data ProviderId : Type 0 where
  no_provider fake ollama openai_compatible : ProviderId

-- The parts of the operator's configuration that matter here.
pub record Config : Type 0 where
  pub allowed_fetch_hosts : List Text
  pub local_model_base_url : Option Text

-- Why a request to store settings is refused.
pub data SettingsRefusal : Type 0 where
  base_url_unused base_url_missing not_absolute not_allowlisted : SettingsRefusal
  destination : FetchNotAllowed → SettingsRefusal

pub data Checked : Type 0 where
  accepted : Checked
  unprocessable : SettingsRefusal → Checked

-- `hostname.replace(/^\[|\]$/g, '')`.
abbrev drop_bracket : Text → Text
drop_bracket [] = []
drop_bracket (c ∷ s) = if c == 91 then s else c ∷ s

unfoldable pub without_brackets : Text → Text
without_brackets host =
    let opened = drop_bracket host in if ends_with 93 opened then but_last opened else opened

-- `Set.add`, which keeps the order of first insertion.
abbrev pub add_host : Text → List Text → List Text
add_host host hosts = if has_text host hosts then hosts else hosts ++ (host ∷ [])

abbrev pub add_all : List Text → List Text → List Text
add_all [] hosts = hosts
add_all (h ∷ hs) hosts = add_all hs (add_host h hosts)

abbrev pub is_ollama : ProviderId → Bool
is_ollama ollama = true
is_ollama _ = false

-- `parse_url` is the URL parser, with no answer where it throws.
module _ (platform : Platform) (parse_url : Text → Option Url) (config : Config) where
  -- What the address of the local model adds to the allowed hosts.
  unfoldable pub add_local_model : Option Text → List Text → List Text
  unfolding without_brackets
  add_local_model none hosts = hosts
  add_local_model (some base) hosts = elim (parse_url base) [
    | none ↦ hosts
    | some url ↦
        let host = platform.to_lower (without_brackets url.hostname) in
        let named = add_host host hosts in
        if is_blank url.port then named else add_host (host ++ (58 ∷ url.port)) named
  ]

  -- `fetchPolicyFor`; its answer leaves `dns` to the caller, who passes it here.
  unfoldable pub fetch_policy_for : DnsMode → ProviderId → FetchPolicy
  unfolding add_local_model
  fetch_policy_for dns ollama = record {
    require_https = false;
    allowed_hosts =
        add_local_model config.local_model_base_url (add_all config.allowed_fetch_hosts []);
    dns = dns;
  }
  fetch_policy_for dns _ = record { require_https = true; allowed_hosts = []; dns = dns }

  abbrev judge : Verdict (List Text) → Checked
  judge (allowed addresses) = accepted
  judge (refused reason) = unprocessable (destination reason)

  -- What is asked of a provider that is reached over the network.
  unfoldable pub check_base_url : ProviderId → Option Text → Checked
  unfolding fetch_policy_for is_allowlisted assert_url_allowed
  check_base_url chosen none = unprocessable base_url_missing
  check_base_url chosen (some base) = elim (parse_url base) [
    | none ↦ unprocessable not_absolute
    | some url ↦
        let policy = fetch_policy_for best_effort chosen in
        if is_ollama chosen && not (is_allowlisted platform url policy.allowed_hosts)
        then unprocessable not_allowlisted
        else judge (assert_url_allowed platform url policy)
  ]

  abbrev check_unused : Option Text → Checked
  check_unused none = accepted
  check_unused (some base) = unprocessable base_url_unused

  unfoldable pub assert_provider_request_allowed : ProviderId → Option Text → Checked
  unfolding check_base_url
  assert_provider_request_allowed no_provider base_url = check_unused base_url
  assert_provider_request_allowed fake base_url = check_unused base_url
  assert_provider_request_allowed ollama base_url = check_base_url ollama base_url
  assert_provider_request_allowed openai_compatible base_url =
      check_base_url openai_compatible base_url
