-- ===== src/Execution/Network/Policy.antt =====
-- `networkPolicySchema` of lib/execution/contracts.ts.
use moatazalasrai.Prelude.{ℕ, Bool, ◌&&◌, not, List, [], ◌∷◌, leb, if◌then◌else◌, length, map, any}
use moatazalasrai.Prelude.Text.{Text, codes, trim, has_text}
use moatazalasrai.Execution.Errors.{Result, ok, err, other}
use moatazalasrai.Execution.Schema.{NetworkPolicy}

abbrev between : ℕ → ℕ → ℕ → Bool
between low high n = leb low n && leb n high

unfoldable pub http_methods : List Text
http_methods =
    codes "GET" ∷ codes "HEAD" ∷ codes "POST" ∷ codes "PUT" ∷ codes "PATCH" ∷ codes "DELETE" ∷ []

abbrev is_bad_host : Text → Bool
is_bad_host h = not (between 1 253 (length h))

abbrev is_bad_port : ℕ → Bool
is_bad_port p = not (between 1 65535 p)

abbrev is_bad_method : Text → Bool
is_bad_method m = not (has_text http_methods m)

-- The hosts are trimmed before they are measured.
unfoldable pub is_valid_policy : NetworkPolicy → Bool
unfolding http_methods
is_valid_policy p =
    not (any is_bad_host (map trim p.allowed_hosts))
    && leb (length p.allowed_hosts) 100
    && not (any is_bad_port p.allowed_ports)
    && leb (length p.allowed_ports) 50
    && not (any is_bad_method p.allowed_methods)
    && leb (length p.allowed_methods) 6
    && leb p.max_requests 10000

-- `networkPolicySchema.parse`
unfoldable pub parse_policy : NetworkPolicy → Result NetworkPolicy
unfolding is_valid_policy
parse_policy p =
    if is_valid_policy p
    then ok (record p { allowed_hosts = map trim p.allowed_hosts })
    else err other
