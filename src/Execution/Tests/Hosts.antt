-- ===== src/Execution/Tests/Hosts.antt =====
-- Host names and requests of lib/execution/network-policy-service.ts at concrete inputs.
use moatazalasrai.Prelude.{◌≡◌, refl, ◌≢◌, ◌≤◌, ◌↔◌, true, false, [], ◌∷◌, none, some, length, ◌⊎◌}
use moatazalasrai.Prelude.Text.{
  Text, codes, text_eq, has_text, ends_with, to_lower, trim, includes_text,
}
use moatazalasrai.Execution.Errors.{ok, terminal, lease_unavailable, invalid_transition}
use moatazalasrai.Execution.Errors.Http.{http_status, http_status-conflict}
use moatazalasrai.Execution.Schema.{NetworkPolicy, allowlist}
use moatazalasrai.Execution.Network.Hostname.{normalize_hostname, metadata_hosts}
use moatazalasrai.Execution.Network.Hostname.Laws.{
  IsHost, normalize_hostname_iff, normalize_hostname-remote,
}
use moatazalasrai.Execution.Network.Egress.{
  Platform, Url, Egress, unicast, allowed_egress, url_port, resolve_host, unique_texts,
  is_public_address,
}
use moatazalasrai.Execution.Network.Egress.Laws.{IsChecked, allowed_egress-IsChecked}

abbrev api : Text
api = codes "api.org"

normalize_hostname_iff_example : normalize_hostname api ≡ ok api ↔ IsHost api
normalize_hostname_iff_example = normalize_hostname_iff api

api_run : normalize_hostname (codes " API.org. ") ≡ ok api
unfolding normalize_hostname text_eq to_lower trim ends_with includes_text
api_run = refl

normalize_hostname-remote_example :
    (api ≢ codes "localhost")
    × (has_text metadata_hosts api ≡ false)
    × (ends_with api (codes ".localhost") ≡ false)
    × (1 ≤ length api)
    × (length api ≤ 253)
normalize_hostname-remote_example = normalize_hostname-remote (codes " API.org. ") api_run

abbrev address : Text
address = codes "93.184.216.34"

-- No name is an address, and every name has one public address.
abbrev platform : Platform
platform = record {
  parse = λ t. elim (has_text (address ∷ []) t) [ true ↦ some unicast | false ↦ none ];
  lookup = λ _. some (address ∷ []);
}

abbrev policy : NetworkPolicy
policy = record {
  mode = allowlist;
  allowed_hosts = api ∷ [];
  allowed_ports = 443 ∷ [];
  allow_dns = true;
  allowed_methods = codes "GET" ∷ [];
  max_requests = 10;
}

abbrev url : Url
url = record {
  protocol = codes "https:";
  username = [];
  password = [];
  fragment = [];
  hostname = api;
  port = none;
}

abbrev let_out : Egress
let_out = record { host = api; port = 443; addresses = address ∷ [] }

egress_run : allowed_egress platform policy (some url) (codes "GET") ≡ ok let_out
unfolding allowed_egress has_text text_eq normalize_hostname to_lower trim ends_with includes_text
    url_port resolve_host unique_texts is_public_address
egress_run = refl

allowed_egress-IsChecked_example : IsChecked platform policy url (codes "GET") let_out
allowed_egress-IsChecked_example =
    allowed_egress-IsChecked platform policy url (codes "GET") egress_run

http_status-conflict_example :
    ((http_status lease_unavailable ≡ 409)
      ↔ ((lease_unavailable ≡ terminal) ⊎ (lease_unavailable ≡ lease_unavailable)))
    × (http_status invalid_transition ≡ 422)
http_status-conflict_example = http_status-conflict lease_unavailable
