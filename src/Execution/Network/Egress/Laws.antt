-- ===== src/Execution/Network/Egress/Laws.antt =====
-- What an allowed request has been checked for.
use moatazalasrai.Prelude.{
  ◌≡◌, refl, ◌<◌, ◌⊎◌, inl, inr, subst, Bool, true, false, ◌&&◌, ◌||◌, not, List, [], ◌∷◌, Option,
  none, some, ◌==◌, any, length, All, any-eq-false, arith, not-inv, &&-inv, ||-inv,
}
use moatazalasrai.Prelude.Text.{Text, codes, text_eq, text_eq_iff, has_text}
use moatazalasrai.Execution.Errors.{
  ok, ◌>>=◌, ◌>>◌, guard, refuse, need, network_denied, guard-eq-ok, need-eq-ok, bind-eq-ok,
  ok-injective,
}
use moatazalasrai.Execution.Schema.{NetworkPolicy, deny_all, allowlist}
use moatazalasrai.Execution.Network.Hostname.{normalize_hostname}
use moatazalasrai.Execution.Network.Egress.{
  Platform, Range, Url, is_public_address, is_private, resolve_host, Egress, url_port,
  allowed_egress, has_number, unique_texts,
}

module _ (platform : Platform) where
  -- Some addresses, and each is public.
  abbrev pub ArePublic : List Text → Type 0
  ArePublic addresses =
      (0 < length addresses) × All (λ a. is_public_address platform a ≡ true) addresses

  All-public :
      (xs : List Text)
      → All (λ a. is_private platform a ≡ false) xs
      → All (λ a. is_public_address platform a ≡ true) xs
  All-public [] h = tt
  All-public (x ∷ xs) h = ground (arith, All-public xs h.1)

  some_public :
      (xs : List Text) → not (length xs == 0 || any (is_private platform) xs) ≡ true → ArePublic xs
  some_public xs h =
      let (some_address, none_private) = ||-inv (length xs == 0) _ (not-inv _ h) in
      (ground arith, All-public xs (any-eq-false (is_private platform) xs none_private))

  resolve_host-ArePublic :
      (hostname : Text) {addresses : List Text}
      → resolve_host platform hostname ≡ ok addresses
      → ArePublic addresses
  unfolding resolve_host
  resolve_host-ArePublic hostname {addresses} h =
      let (host, _, rest) = bind-eq-ok (normalize_hostname hostname) _ h in
      by_kind host (platform.parse host) rest
    where
      by_kind :
          (host : Text) (kind : Option Range)
          → elim kind [
            | some _ ↦ do
              guard (is_public_address platform host) (refuse network_denied)
              ok (host ∷ [])
            | none ↦ do
              rows ← need (platform.lookup host) (refuse network_denied)
              let addresses = unique_texts [] rows
              guard
                  (not (length addresses == 0 || any (is_private platform) addresses))
                  (refuse network_denied)
              ok addresses
          ]
            ≡ ok addresses
          → ArePublic addresses
      by_kind host (some r) e =
          let (public, last) = guard-eq-ok (is_public_address platform host) _ _ e in
          subst ArePublic (ok-injective last) (omega arith, (public, tt))
      by_kind host none e =
          let (rows, _, rest) = need-eq-ok (platform.lookup host) _ _ e in
          let (checked, last) =
            guard-eq-ok
              (not (
                length (unique_texts [] rows) == 0
                || any (is_private platform) (unique_texts [] rows)))
              _ _ rest in
          subst ArePublic (ok-injective last) (some_public _ checked)

abbrev is_allowlist : NetworkPolicy → Bool
is_allowlist policy = elim policy.mode [ deny_all ↦ false | allowlist ↦ true ]

-- What a request has passed when it is let out.
pub record IsChecked (platform : Platform) (policy : NetworkPolicy) (url : Url) (method : Text)
    (e : Egress) : Type 0 where
  pub open_policy : policy.mode ≡ allowlist
  pub anonymous : (url.username ≡ []) × (url.password ≡ []) × (url.fragment ≡ [])
  pub web : (url.protocol ≡ codes "https:") ⊎ (url.protocol ≡ codes "http:")
  pub named : normalize_hostname url.hostname ≡ ok e.host
  pub host_listed : has_text policy.allowed_hosts e.host ≡ true
  pub port_listed : has_number policy.allowed_ports (url_port url) ≡ true
  pub same_port : e.port ≡ url_port url
  pub method_listed : has_text policy.allowed_methods method ≡ true
  pub public : ArePublic platform e.addresses

||-cases : (a b : Bool) → (a || b) ≡ true → (a ≡ true) ⊎ (b ≡ true)
||-cases true b h = inl refl
||-cases false b h = inr h

-- A request that is let out had an open policy, a plain http or https URL without credentials or
-- fragment, a host, a port and a method that the policy lists, and a host whose addresses, one at
-- least, are all public.
pub allowed_egress-IsChecked :
    (platform : Platform) (policy : NetworkPolicy) (url : Url) (method : Text) {e : Egress}
    → allowed_egress platform policy (some url) method ≡ ok e
    → IsChecked platform policy url method e
unfolding allowed_egress
allowed_egress-IsChecked platform policy url method {e} h =
    let (open_policy, h1) = guard-eq-ok (is_allowlist policy) _ _ h in
    let (web, h2) =
      guard-eq-ok (text_eq url.protocol (codes "https:") || text_eq url.protocol (codes "http:")) _
        _ h1 in
    let (plain, h3) =
      guard-eq-ok (text_eq url.username [] && text_eq url.password [] && text_eq url.fragment []) _
        _ h2 in
    let (host, named, h4) = bind-eq-ok (normalize_hostname url.hostname) _ h3 in
    let (host_listed, h5) = guard-eq-ok (has_text policy.allowed_hosts host) _ _ h4 in
    let (port_listed, h6) = guard-eq-ok (has_number policy.allowed_ports (url_port url)) _ _ h5 in
    let (method_listed, h7) = guard-eq-ok (has_text policy.allowed_methods method) _ _ h6 in
    let (addresses, resolved, last) = bind-eq-ok (resolve_host platform host) _ h7 in
    let (credentials, no_fragment) = &&-inv _ (text_eq url.fragment []) plain in
    let (no_user, no_password) = &&-inv (text_eq url.username []) _ credentials in
    subst (IsChecked platform policy url method) (ok-injective last) (record {
      open_policy = ground arith;
      anonymous = (
        (text_eq_iff url.username []).0 no_user,
        (text_eq_iff url.password []).0 no_password,
        (text_eq_iff url.fragment []).0 no_fragment,
      );
      web = elim (||-cases (text_eq url.protocol (codes "https:")) _ web) [
        | inl s ↦ inl ((text_eq_iff _ _).0 s)
        | inr p ↦ inr ((text_eq_iff _ _).0 p)
      ];
      named = named;
      host_listed = host_listed;
      port_listed = port_listed;
      same_port = refl;
      method_listed = method_listed;
      public = resolve_host-ArePublic platform host resolved;
    })
