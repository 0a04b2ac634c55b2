-- ===== src/AiSdk/ApprovalPolicy/Laws.antt =====
-- Which calls run without an approval.
use moatazalasrai.Prelude.{
  ◌≡◌, ◌≢◌, ◌↔◌, ◌⊎◌, refl, Bool, true, false, ◌∷◌, [], ◌++◌, any, or_else, arith,
}
use moatazalasrai.Prelude.Text.{Text, has_text, trim, to_lower}
use moatazalasrai.AiSdk.ApprovalPolicy.{
  ApprovalMode, always, never, risk_based, ToolRisk, low, ToolCall, risk_of, has_side_effects,
  is_read_only, evaluation, evaluate_tool_approval, side_effect_capabilities,
  read_only_capabilities, side_effect_language, side_effect_words, side_effect_parts,
  side_effect_keys, has_part, has_word,
}
use moatazalasrai.AiSdk.ApprovalPolicy.Words.{
  ShowsWord, ShowsPart, none_passes, has_word-ShowsWord, has_part-ShowsPart,
}

runs :
    (mode : ApprovalMode) (risk : ToolRisk) (r s : Bool)
    → (evaluation mode risk r s).requires_approval ≡ false
    → (mode ≢ always) × (risk ≡ low) × (s ≡ false) × (r ≡ true)
unfolding evaluation
runs always risk r s h = cc
runs never low true false h = (λ e. cc e, refl, refl, refl)
runs risk_based low true false h = (λ e. cc e, refl, refl, refl)
runs mode risk r true h = absurd (cc h)
runs mode risk true false h = absurd (cc h)
runs mode low false false h = absurd (cc h)
runs mode risk false false h = absurd (cc h)

allowed :
    (mode : ApprovalMode) (risk : ToolRisk) (r s : Bool)
    → mode ≢ always
    → risk ≡ low
    → s ≡ false
    → r ≡ true
    → (evaluation mode risk r s).requires_approval ≡ false
unfolding evaluation
allowed always risk r s m l e f = absurd (m refl)
allowed never low true false m l e f = refl
allowed risk_based low true false m l e f = refl
allowed mode low r true m l e f = absurd (cc e)
allowed mode low false s m l e f = absurd (cc f)
allowed mode risk r s m l e f = absurd (cc l)

no_effects :
    (call : ToolCall)
    → (has_side_effects call ≡ false) ↔ (
        (call.destructive_hint ≡ false)
        × (has_text side_effect_capabilities (to_lower (trim call.capability)) ≡ false)
        × (side_effect_language (call.name ++ b' ' ∷ or_else call.description []) ≡ false)
        × (any (has_part side_effect_keys) call.argument_names ≡ false))
unfolding has_side_effects
no_effects call = ground arith

reads_only :
    (call : ToolCall)
    → has_side_effects call ≡ false
    → (is_read_only call ≡ true) ↔ (
        (call.read_only_hint ≡ true)
        ⊎ ((has_text read_only_capabilities (to_lower (trim call.capability)) ≡ true)
            × (call.open_world_hint ≡ false)))
unfolding is_read_only
reads_only call h = rw h (ground arith)

side_effect_language-eq-false :
    (text : Text)
    → side_effect_language text ≡ false
    → (has_word side_effect_words false text ≡ false) × (has_part side_effect_parts text ≡ false)
unfolding side_effect_language
side_effect_language-eq-false text h = ground arith

-- A call runs without an approval exactly when the agent does not ask for one at every call, the
-- risk is low, no annotation says that it destroys, its capability is none of those with a side
-- effect, the name and the description show no word of a side effect (none of the English words
-- between characters of no word, none of the Arabic ones anywhere), no name of an argument shows one
-- of the keys, and the tool is read-only by its annotation or by a capability of reading without the
-- annotation of an open world. These conditions are the same in the modes `never` and `risk_based`.
pub evaluate-requires :
    (call : ToolCall)
    → ((evaluate_tool_approval call).requires_approval ≡ false) ↔ (
        (call.mode ≢ always)
        × (risk_of call.risk ≡ low)
        × (call.destructive_hint ≡ false)
        × (has_text side_effect_capabilities (to_lower (trim call.capability)) ≡ false)
        × (side_effect_language (call.name ++ b' ' ∷ or_else call.description []) ≡ false)
        × (any (has_part side_effect_keys) call.argument_names ≡ false)
        × (¬ ShowsWord side_effect_words false (call.name ++ b' ' ∷ or_else call.description []))
        × (¬ ShowsPart side_effect_parts (call.name ++ b' ' ∷ or_else call.description []))
        × (¬ (
            (name : Text) × (has_text call.argument_names name ≡ true)
            × ShowsPart side_effect_keys name))
        × ((call.read_only_hint ≡ true)
            ⊎ ((has_text read_only_capabilities (to_lower (trim call.capability)) ≡ true)
                × (call.open_world_hint ≡ false))))
unfolding evaluate_tool_approval
evaluate-requires call = (
  λ h.
      let (mode, risk, quiet, reads) =
        runs call.mode (risk_of call.risk) (is_read_only call) (has_side_effects call) h in
      let (destructive, capability, language, keys) = (no_effects call).0 quiet in
      let (words, parts) =
        side_effect_language-eq-false (call.name ++ b' ' ∷ or_else call.description []) language in
      (
        mode,
        risk,
        destructive,
        capability,
        language,
        keys,
        has_word-ShowsWord side_effect_words false _ words,
        has_part-ShowsPart side_effect_parts _ parts,
        λ shown.
            has_part-ShowsPart side_effect_keys shown.0
              (none_passes (has_part side_effect_keys) call.argument_names shown.0 keys shown.1)
              shown.2,
        (reads_only call quiet).0 reads,
      ),
  λ (mode, risk, destructive, capability, language, keys, _, _, _, reads).
      let quiet = (no_effects call).1 (destructive, capability, language, keys) in
      allowed call.mode (risk_of call.risk) (is_read_only call) (has_side_effects call) mode risk
        quiet ((reads_only call quiet).1 reads),
)
