-- ===== src/Execution/Network/Egress.antt =====
-- `normalizeNetworkPolicy`, `isPublicAddress`, `resolvePublicHost`, `assertAllowedEgressUrl` and
-- `assertRedirectAllowed` of lib/execution/network-policy-service.ts.
pub mod Laws
use moatazalasrai.Prelude.{
  ℕ, Bool, true, false, ◌&&◌, ◌||◌, not, List, [], ◌∷◌, Option, none, some, ◌==◌, ltb, any,
  if◌then◌else◌, length,
}
use moatazalasrai.Prelude.Text.{Text, codes, text_eq, has_text}
use moatazalasrai.Execution.Errors.{
  Result, ok, err, ◌>>=◌, ◌>>◌, guard, refuse, need, network_denied, Thrown,
}
use moatazalasrai.Execution.Schema.{NetworkPolicy, deny_all, allowlist, NetworkMode}
use moatazalasrai.Execution.Network.Hostname.{normalize_hostname}

-- `address.range()` of ipaddr.js.
pub data Range : Type 0 where
  unicast unspecified broadcast multicast link_local loopback private_range : Range
  reserved unique_local carrier_grade_nat other_range : Range

-- What the platform and ipaddr.js answer. `parse` is none on a text that is no address; `range` is
-- the range of the address, of the embedded IPv4 address where it is a mapped one. `lookup` is
-- none where the name is not resolved.
pub record Platform : Type 0 where
  pub parse : Text → Option Range
  pub lookup : Text → Option (List Text)

-- The parts of `new URL(text)` that are read; `port` is none where the text gives none or the
-- default one.
pub record Url : Type 0 where
  pub protocol : Text
  pub username : Text
  pub password : Text
  pub fragment : Text
  pub hostname : Text
  pub port : Option ℕ

unfoldable pub is_public_range : Range → Bool
is_public_range unicast = true
is_public_range other_range = true
is_public_range _ = false

-- `Array.from(new Set(texts))`
unfoldable pub unique_texts : List Text → List Text → List Text
unique_texts seen [] = []
unique_texts seen (t ∷ ts) =
    let rest = unique_texts (t ∷ seen) ts in
    let old = unique_texts seen ts in if has_text seen t then old else t ∷ rest

abbrev has_number : List ℕ → ℕ → Bool
has_number xs n = any (λ x. x == n) xs

unfoldable pub unique_numbers : List ℕ → List ℕ → List ℕ
unique_numbers seen [] = []
unique_numbers seen (n ∷ ns) =
    let rest = unique_numbers (n ∷ seen) ns in
    let old = unique_numbers seen ns in if has_number seen n then old else n ∷ rest

-- `hosts.map(normalizeHostname)`: the first name that is refused is thrown.
unfoldable pub normalize_all : List Text → Result (List Text)
normalize_all [] = ok []
normalize_all (h ∷ hs) = do host ← normalize_hostname h; rest ← normalize_all hs; ok (host ∷ rest)

-- `normalizeNetworkPolicy`, of a policy that the schema has accepted.
unfoldable pub normalize_policy : NetworkPolicy → Result NetworkPolicy
unfolding normalize_all unique_texts unique_numbers
normalize_policy p = elim p.mode [
  | deny_all ↦
      ok (record p { allowed_hosts = []; allowed_ports = []; allow_dns = false; max_requests = 0 })
  | allowlist ↦ do
    guard (not (length p.allowed_hosts == 0 || length p.allowed_ports == 0 || ltb p.max_requests 1))
        (refuse network_denied)
    hosts ← normalize_all p.allowed_hosts
    ok (record p {
      allowed_hosts = unique_texts [] hosts;
      allowed_ports = unique_numbers [] p.allowed_ports;
    })
]

pub record Egress : Type 0 where
  pub host : Text
  pub port : ℕ
  pub addresses : List Text

-- `url.port ? Number(url.port) : url.protocol === "https:" ? 443 : 80`
unfoldable pub url_port : Url → ℕ
url_port url = elim url.port [
  | some p ↦ p
  | none ↦ if text_eq url.protocol (codes "https:") then 443 else 80
]

module _ (platform : Platform) where
  unfoldable pub is_public_address : Text → Bool
  unfolding is_public_range
  is_public_address value = elim (platform.parse value) [
    | none ↦ false
    | some range ↦ is_public_range range
  ]

  abbrev is_private : Text → Bool
  is_private value = not (is_public_address value)

  unfoldable pub resolve_host : Text → Result (List Text)
  resolve_host hostname = do
    host ← normalize_hostname hostname
    elim (platform.parse host) [
      | some _ ↦ do guard (is_public_address host) (refuse network_denied); ok (host ∷ [])
      | none ↦ do
        rows ← need (platform.lookup host) (refuse network_denied)
        let addresses = unique_texts [] rows
        guard (not (length addresses == 0 || any is_private addresses)) (refuse network_denied)
        ok addresses
    ]

  -- `assertAllowedEgressUrl`; `url` is none where the text is no URL. The method is in upper case.
  unfoldable pub allowed_egress : NetworkPolicy → Option Url → Text → Result Egress
  allowed_egress policy parsed method = do
    guard (elim policy.mode [ deny_all ↦ false | allowlist ↦ true ]) (refuse network_denied)
    url ← need parsed (refuse network_denied)
    guard (text_eq url.protocol (codes "https:") || text_eq url.protocol (codes "http:"))
        (refuse network_denied)
    guard (text_eq url.username [] && text_eq url.password [] && text_eq url.fragment [])
        (refuse network_denied)
    host ← normalize_hostname url.hostname
    guard (has_text policy.allowed_hosts host) (refuse network_denied)
    let port = url_port url
    guard (has_number policy.allowed_ports port) (refuse network_denied)
    guard (has_text policy.allowed_methods method) (refuse network_denied)
    addresses ← resolve_host host
    ok (record { host = host; port = port; addresses = addresses })

-- `assertRedirectAllowed`, on the host of the new location.
unfoldable pub allowed_redirect : Text → Text → NetworkPolicy → Result Text
allowed_redirect original target policy = do
  host ← normalize_hostname target
  first ← normalize_hostname original
  guard (text_eq host first && has_text policy.allowed_hosts host) (refuse network_denied)
  ok host
