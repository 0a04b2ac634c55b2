-- ===== src/Execution/Network/Hostname/Laws.antt =====
-- Host names that have been normalized.
use moatazalasrai.Prelude.{
  ℕ, ◌≡◌, refl, ap, true, false, ◌&&◌, not, [], ◌∷◌, length, arith, not-inv, &&-inv, ||-inv, ◌≤◌,
  ◌≢◌, ◌↔◌, subst,
}
use moatazalasrai.Prelude.Text.{
  Text, codes, text_eq, text_eq_iff, has_text, trim, trim_start, trim_end, to_lower, ends_with,
  includes_text, is_space,
}
use moatazalasrai.Execution.Errors.{ok, guard-eq-ok, ok-injective}
use moatazalasrai.Execution.Network.Hostname.{
  strip_dot, is_alnum, is_host_char, is_host_rest, is_host_name, is_local, normalize_hostname,
  metadata_hosts,
}

-- Every character is one of `[a-z0-9.-]`.
abbrev AllHost : Text → Type 0
AllHost [] = Unit
AllHost (c ∷ s) = (is_host_char c ≡ true) × AllHost s

is_host_char-alnum : (c : ℕ) → is_alnum c ≡ true → is_host_char c ≡ true
unfolding is_host_char
is_host_char-alnum c h = rw h

is_host_rest-AllHost : (s : Text) → is_host_rest s ≡ true → AllHost s
unfolding is_host_rest
is_host_rest-AllHost [] h = tt
is_host_rest-AllHost (c ∷ []) h = (is_host_char-alnum c h, tt)
is_host_rest-AllHost (c ∷ d ∷ s) h = ground (arith, is_host_rest-AllHost (d ∷ s))

is_space-host : (c : ℕ) → is_host_char c ≡ true → is_space c ≡ false
unfolding is_host_char is_space
is_space-host c h = ground arith

trim_end-host : (s : Text) → AllHost s → trim_end s ≡ s
unfolding trim_end
trim_end-host [] h = refl
trim_end-host (c ∷ []) h = rw (is_space-host c h.0)
trim_end-host (c ∷ d ∷ s) h = rw (trim_end-host (d ∷ s) h.1)

to_lower-host : (s : Text) → AllHost s → to_lower s ≡ s
unfolding to_lower is_host_char is_alnum
to_lower-host [] h = refl
to_lower-host (c ∷ s) h = ground (arith, to_lower-host s h.1)

strip_dot-rest : (s : Text) → is_host_rest s ≡ true → strip_dot s ≡ s
unfolding strip_dot is_host_rest is_alnum
strip_dot-rest [] h = refl
strip_dot-rest (c ∷ []) h = ground arith
strip_dot-rest (c ∷ d ∷ s) h = ground (arith, strip_dot-rest (d ∷ s))

strip_dot-host :
    (c : ℕ) (s : Text) → is_alnum c ≡ true → is_host_rest s ≡ true → strip_dot (c ∷ s) ≡ c ∷ s
unfolding strip_dot is_host_rest
strip_dot-host c [] h k = strip_dot-rest (c ∷ []) h
strip_dot-host c (d ∷ s) h k = ap (◌∷◌ c) (strip_dot-rest (d ∷ s) k)

trim_start-host : (s : Text) → AllHost s → trim_start s ≡ s
unfolding trim_start
trim_start-host [] h = refl
trim_start-host (c ∷ s) h = rw (is_space-host c h.0)

trim_lem : (s : Text) → trim s ≡ trim_end (trim_start s)
unfolding trim
trim_lem s = refl

trim-host : (s : Text) → AllHost s → trim s ≡ s
trim-host s h = rw (trim_lem s, trim_start-host s h) (trim_end-host s h)

host_name-parts :
    (c : ℕ) (s : Text)
    → is_host_name (c ∷ s) ≡ true
    → (is_alnum c ≡ true) × (is_host_rest s ≡ true) × (length s ≤ 252)
unfolding is_host_name
host_name-parts c s e = ground arith

-- A name of the accepted form is left as it is by the steps before the tests.
host_name-fixed : (h : Text) → is_host_name h ≡ true → strip_dot (to_lower (trim h)) ≡ h
unfolding is_host_name
host_name-fixed [] e = cc
host_name-fixed (c ∷ s) e =
    let (first, rest, _) = host_name-parts c s e in
    let all : AllHost (c ∷ s) = (is_host_char-alnum c first, is_host_rest-AllHost s rest) in
    rw (trim-host (c ∷ s) all, to_lower-host (c ∷ s) all) (strip_dot-host c s first rest)

-- What a normalized name satisfies.
pub record IsHost (h : Text) : Type 0 where
  pub named : is_host_name h ≡ true
  pub remote : is_local h ≡ false
  pub undotted : includes_text h (codes "..") ≡ false

normalize_hostname-IsHost : (v : Text) {h : Text} → normalize_hostname v ≡ ok h → IsHost h
unfolding normalize_hostname
normalize_hostname-IsHost v {h} e =
    let host = strip_dot (to_lower (trim v)) in
    let (far, rest) = guard-eq-ok (not (is_local host)) _ _ e in
    let (form, last) =
      guard-eq-ok (is_host_name host && not (includes_text host (codes ".."))) _ _ rest in
    let (named, single) = &&-inv (is_host_name host) _ form in
    subst IsHost (ok-injective last)
      (record { named = named; remote = not-inv _ far; undotted = not-inv _ single })

IsHost-normalize_hostname : (h : Text) → IsHost h → normalize_hostname h ≡ ok h
unfolding normalize_hostname
IsHost-normalize_hostname h i = rw (host_name-fixed h i.named) (rw (i.remote, i.named, i.undotted))

-- The names that normalization leaves as they are are exactly those of the accepted form that are
-- not local and have no two dots in a row.
pub normalize_hostname_iff : (h : Text) → normalize_hostname h ≡ ok h ↔ IsHost h
normalize_hostname_iff h = (normalize_hostname-IsHost h, IsHost-normalize_hostname h)

-- Normalization is idempotent: a result is normalized to itself.
pub normalize_hostname_idem :
    (v : Text) {h : Text} → normalize_hostname v ≡ ok h → normalize_hostname h ≡ ok h
normalize_hostname_idem v {h} e = IsHost-normalize_hostname h (normalize_hostname-IsHost v e)

is_local-parts :
    (h : Text)
    → is_local h ≡ false
    → (h ≢ codes "localhost")
      × (has_text metadata_hosts h ≡ false)
      × (ends_with h (codes ".localhost") ≡ false)
unfolding is_local
is_local-parts h e =
    let (upper, below) = ||-inv _ (ends_with h (codes ".localhost")) e in
    let (front, metadata) = ||-inv _ (has_text metadata_hosts h) upper in
    let (_, named) = ||-inv (text_eq h []) (text_eq h (codes "localhost")) front in
    (λ same_name. cc ((text_eq_iff h (codes "localhost")).1 same_name, named), metadata, below)

host_name-length : (h : Text) → is_host_name h ≡ true → (1 ≤ length h) × (length h ≤ 253)
unfolding is_host_name
host_name-length [] e = cc
host_name-length (c ∷ s) e = omega (arith, host_name-parts c s e)

-- No result is empty, a name of this machine, a cloud metadata name, or a name below localhost,
-- and none is longer than 253 characters.
pub normalize_hostname-remote :
    (v : Text) {h : Text}
    → normalize_hostname v ≡ ok h
    → (h ≢ codes "localhost")
      × (has_text metadata_hosts h ≡ false)
      × (ends_with h (codes ".localhost") ≡ false)
      × (1 ≤ length h)
      × (length h ≤ 253)
normalize_hostname-remote v {h} e =
    let i = normalize_hostname-IsHost v e in
    let (local, metadata, below) = is_local-parts h i.remote in
    let (low, high) = host_name-length h i.named in (local, metadata, below, low, high)
