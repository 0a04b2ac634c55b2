-- ===== src/AiSdk/ApprovalPolicy.antt =====
-- lib/ai-sdk/approval-policy.ts: which calls of tools wait for an approval, and what a user is shown
-- of their arguments. The regular expressions ignore the case of ASCII letters only.
pub mod Laws
pub mod Redaction
pub mod Words
use moatazalasrai.Prelude.{
  ℕ, ◌+◌, Bool, true, false, ◌&&◌, ◌||◌, not, List, [], ◌∷◌, ◌++◌, map, Option, none, some, ◌==◌,
  leb, if◌then◌else◌, any, String, or_else,
}
use moatazalasrai.Prelude.Text.{Text, codes, text_eq, has_text, trim, to_lower, includes_text}

pub data ApprovalMode : Type 0 where
  always never risk_based : ApprovalMode

pub data ToolRisk : Type 0 where
  low medium high : ToolRisk

abbrev texts : List String → List Text
texts words = map codes words

abbrev pub side_effect_capabilities : List Text
side_effect_capabilities = texts (
    "write" ∷ "delete" ∷ "publish" ∷ "payment" ∷ "send" ∷ "execute" ∷ "deployment"
    ∷ "repository_write" ∷ "messaging" ∷ "account_management" ∷ "media_generation" ∷ [])

abbrev pub read_only_capabilities : List Text
read_only_capabilities = texts (
    "read" ∷ "search" ∷ "lookup" ∷ "list" ∷ "fetch" ∷ "query" ∷ "documentation" ∷ "general_read"
    ∷ [])

-- The canonical form of a character under the flag `i`, for a pattern in lower case.
abbrev pub fold_char : ℕ → ℕ
fold_char c = if leb b'A' c && leb c b'Z' then c + 32 else c

-- `\w`
abbrev pub is_word_char : ℕ → Bool
is_word_char c =
    (leb b'a' c && leb c b'z')
    || (leb b'A' c && leb c b'Z')
    || (leb b'0' c && leb c b'9')
    || c == b'_'

-- `word\b`, where the word ends in a letter.
unfoldable pub matches_word : Text → Text → Bool
matches_word [] [] = true
matches_word [] (c ∷ s) = not (is_word_char c)
matches_word (p ∷ word) [] = false
matches_word (p ∷ word) (c ∷ s) = fold_char c == p && matches_word word s

-- `\b(words)\b` from a place on, where `inside` says that a word character comes before.
unfoldable pub has_word : List Text → Bool → Text → Bool
unfolding matches_word
has_word words inside [] = false
has_word words inside (c ∷ s) =
    (not inside && any (λ word. matches_word word (c ∷ s)) words)
    || has_word words (is_word_char c) s

unfoldable pub fold_text : Text → Text
fold_text = map fold_char

-- `/a|b|c/i.test(text)`
unfoldable pub has_part : List Text → Text → Bool
unfolding includes_text fold_text
has_part parts text = any (includes_text (fold_text text)) parts

abbrev pub side_effect_words : List Text
side_effect_words = texts (
    "delete" ∷ "remove" ∷ "write" ∷ "update" ∷ "create" ∷ "publish" ∷ "deploy" ∷ "send" ∷ "email"
    ∷ "message" ∷ "pay" ∷ "purchase" ∷ "charge" ∷ "transfer" ∷ "execute" ∷ "run command" ∷ "commit"
    ∷ "push" ∷ "merge" ∷ [])

-- The Arabic words for deleting, changing, creating, publishing, sending, paying, transferring and
-- executing, letter by letter.
abbrev pub side_effect_parts : List Text
side_effect_parts =
    (0x62d ∷ 0x630 ∷ 0x641 ∷ [])
    ∷ (0x62a ∷ 0x639 ∷ 0x62f ∷ 0x64a ∷ 0x644 ∷ [])
    ∷ (0x625 ∷ 0x646 ∷ 0x634 ∷ 0x627 ∷ 0x621 ∷ [])
    ∷ (0x646 ∷ 0x634 ∷ 0x631 ∷ [])
    ∷ (0x625 ∷ 0x631 ∷ 0x633 ∷ 0x627 ∷ 0x644 ∷ [])
    ∷ (0x62f ∷ 0x641 ∷ 0x639 ∷ [])
    ∷ (0x62a ∷ 0x62d ∷ 0x648 ∷ 0x64a ∷ 0x644 ∷ [])
    ∷ (0x62a ∷ 0x646 ∷ 0x641 ∷ 0x64a ∷ 0x630 ∷ [])
    ∷ []

-- `SIDE_EFFECT_LANGUAGE.test`
unfoldable pub side_effect_language : Text → Bool
unfolding has_word has_part
side_effect_language text = has_word side_effect_words false text || has_part side_effect_parts text

abbrev pub side_effect_keys : List Text
side_effect_keys = texts (
    "recipient" ∷ "destination" ∷ "amount" ∷ "payment" ∷ "commit" ∷ "branch" ∷ "publish" ∷ "delete"
    ∷ [])

-- `SENSITIVE_KEY`, with its optional characters written out.
abbrev pub sensitive_parts : List Text
sensitive_parts = texts (
    "secret" ∷ "password" ∷ "authorization" ∷ "cookie" ∷ "token" ∷ "apikey" ∷ "api-key" ∷ "api_key"
    ∷ "credential" ∷ "privatekey" ∷ "private-key" ∷ "private_key" ∷ [])

-- The input of `evaluateToolApproval`: the annotations that are exactly `true`, and the names of the
-- arguments.
pub record ToolCall : Type 0 where
  pub mode : ApprovalMode
  pub risk : Text
  pub capability : Text
  pub name : Text
  pub description : Option Text
  pub read_only_hint : Bool
  pub destructive_hint : Bool
  pub open_world_hint : Bool
  pub argument_names : List Text

pub record Evaluation : Type 0 where
  pub requires_approval : Bool
  pub risk : ToolRisk
  pub read_only : Bool
  pub side_effectful : Bool

unfoldable pub risk_of : Text → ToolRisk
unfolding text_eq
risk_of risk =
    if text_eq risk (codes "low") then low else if text_eq risk (codes "high") then high else medium

unfoldable pub has_side_effects : ToolCall → Bool
unfolding side_effect_language has_part has_text trim to_lower
has_side_effects call =
    call.destructive_hint
    || has_text side_effect_capabilities (to_lower (trim call.capability))
    || side_effect_language (call.name ++ b' ' ∷ or_else call.description [])
    || any (has_part side_effect_keys) call.argument_names

unfoldable pub is_read_only : ToolCall → Bool
unfolding has_side_effects has_text trim to_lower
is_read_only call =
    call.read_only_hint
    || (has_text read_only_capabilities (to_lower (trim call.capability))
        && not (has_side_effects call)
        && not call.open_world_hint)

abbrev is_always : ApprovalMode → Bool
is_always always = true
is_always _ = false

abbrev is_risk_based : ApprovalMode → Bool
is_risk_based risk_based = true
is_risk_based _ = false

abbrev is_never : ApprovalMode → Bool
is_never never = true
is_never _ = false

abbrev pub is_low : ToolRisk → Bool
is_low low = true
is_low _ = false

abbrev asks : ToolRisk → Bool → Bool → Evaluation
asks risk read_only side_effectful = record {
  requires_approval = true;
  risk = risk;
  read_only = read_only;
  side_effectful = side_effectful;
}

-- The returns of `evaluateToolApproval`, without the reason.
unfoldable pub evaluation : ApprovalMode → ToolRisk → Bool → Bool → Evaluation
evaluation mode risk read_only side_effectful =
    if is_always mode
    then asks risk read_only side_effectful
    else if side_effectful
    then asks risk false true
    else if is_risk_based mode && not (is_low risk)
    then asks risk read_only side_effectful
    else if (is_never mode || is_risk_based mode) && is_low risk && read_only
    then record { requires_approval = false; risk = risk; read_only = true; side_effectful = false }
    else asks risk read_only side_effectful

-- `evaluateToolApproval`
unfoldable pub evaluate_tool_approval : ToolCall → Evaluation
evaluate_tool_approval call =
    evaluation call.mode (risk_of call.risk) (is_read_only call) (has_side_effects call)
