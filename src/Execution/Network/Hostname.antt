-- ===== src/Execution/Network/Hostname.antt =====
-- `normalizeHostname` of lib/execution/network-policy-service.ts.
pub mod Laws
use moatazalasrai.Prelude.{
  ℕ, ◌≡◌, refl, Bool, true, false, ◌&&◌, ◌||◌, not, List, [], ◌∷◌, ◌==◌, leb, if◌then◌else◌, length,
  arith,
}
use moatazalasrai.Prelude.Text.{
  Text, codes, text_eq, has_text, trim, to_lower, ends_with, includes_text, starts_with,
}
use moatazalasrai.Execution.Errors.{Result, ok, err, ◌>>=◌, ◌>>◌, guard, refuse, network_denied}

unfoldable pub metadata_hosts : List Text
metadata_hosts =
    codes "metadata.google.internal"
    ∷ codes "metadata.google.internal."
    ∷ codes "instance-data.ec2.internal"
    ∷ codes "metadata.azure.internal"
    ∷ []

-- `replace(/\.$/, "")`
unfoldable pub strip_dot : Text → Text
strip_dot [] = []
strip_dot (c ∷ []) = if c == b'.' then [] else c ∷ []
strip_dot (c ∷ d ∷ s) = c ∷ strip_dot (d ∷ s)

-- `[a-z0-9]`
unfoldable pub is_alnum : ℕ → Bool
is_alnum c = (leb b'a' c && leb c b'z') || (leb b'0' c && leb c b'9')

-- `[a-z0-9.-]`
unfoldable pub is_host_char : ℕ → Bool
unfolding is_alnum
is_host_char c = is_alnum c || c == b'.' || c == b'-'

-- The rest of a name after its first character: `(?:[a-z0-9.-]*[a-z0-9])?`.
unfoldable pub is_host_rest : Text → Bool
unfolding is_host_char
is_host_rest [] = true
is_host_rest (c ∷ []) = is_alnum c
is_host_rest (c ∷ d ∷ s) = is_host_char c && is_host_rest (d ∷ s)

-- `/^[a-z0-9](?:[a-z0-9.-]{0,251}[a-z0-9])?$/`
unfoldable pub is_host_name : Text → Bool
unfolding is_host_rest
is_host_name [] = false
is_host_name (c ∷ s) = is_alnum c && is_host_rest s && leb (length s) 252

-- The names that are refused whatever the policy says.
unfoldable pub is_local : Text → Bool
unfolding metadata_hosts has_text
is_local host =
    text_eq host []
    || text_eq host (codes "localhost")
    || has_text metadata_hosts host
    || ends_with host (codes ".localhost")

unfoldable pub normalize_hostname : Text → Result Text
unfolding is_local strip_dot is_host_name
normalize_hostname value = do
  let host = strip_dot (to_lower (trim value))
  guard (not (is_local host)) (refuse network_denied)
  guard (is_host_name host && not (includes_text host (codes ".."))) (refuse network_denied)
  ok host
