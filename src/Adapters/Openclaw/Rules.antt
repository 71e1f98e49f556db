-- ===== src/Adapters/Openclaw/Rules.antt =====
-- The rule that the OpenClaw plugin makes of the input of a tool.
use x402guard.Base.{
  if◌then◌else◌, ◌⊎◌, ◌≡◌, refl, ap, ◌∙◌, sym, some, List, [], ◌∷◌, Bool, true, false, inl, inr,
}
use x402guard.Js.Text.{Text, text, text_eq}
use x402guard.Js.Text.Laws.{text_eq_iff}
use x402guard.Js.Json.{str, get_field, fields_of}
use x402guard.Sdk.Errors.{Result, ok, property}
use x402guard.Sdk.Types.{
  RuleType, max_spend_per_tx, max_spend_per_day, max_leverage, max_slippage, allowed_contracts,
  rule_type_json,
}
use x402guard.Adapters.Openclaw.{Input}
use x402guard.Adapters.Openclaw.Tools.{shown, rule_parsers, rule_named, parse_rule_type}

-- The tag under which the proxy reads a rule.
abbrev pub tag_of : RuleType → Text
tag_of (max_spend_per_tx _) = text "MaxSpendPerTx"
tag_of (max_spend_per_day _) = text "MaxSpendPerDay"
tag_of (allowed_contracts _) = text "AllowedContracts"
tag_of (max_leverage _) = text "MaxLeverage"
tag_of (max_slippage _) = text "MaxSlippage"

property-rule_type_json :
    (r : RuleType) → property (text "type") (rule_type_json r) ≡ ok (some (str (tag_of r)))
unfolding property rule_type_json fields_of get_field text text_eq
property-rule_type_json (max_spend_per_tx _) = refl
property-rule_type_json _ = refl

-- Every entry of the table is under the tag of its rule.
abbrev Named : List (Text × RuleType) → Type 0
Named [] = Unit
Named ((name, rule) ∷ r) = (tag_of rule ≡ name) × Named r

if-ok :
    (b : Bool) (rule r : RuleType) (rest : Result RuleType)
    → (if b then ok rule else rest) ≡ ok r
    → ((b ≡ true) × (rule ≡ r)) ⊎ (rest ≡ ok r)
if-ok true rule r rest e = inl (refl, cc)
if-ok false rule r rest e = inr e

rule_named-ok :
    (s : Text) (table : List (Text × RuleType)) (r : RuleType)
    → Named table
    → rule_named s table ≡ ok r
    → tag_of r ≡ s
unfolding rule_named
rule_named-ok s [] r h e = cc
rule_named-ok s ((name, rule) ∷ table) r (same, h) e =
    elim (if-ok (text_eq s name) rule r (rule_named s table) e) [
      | inl (hit, chosen) ↦ ap tag_of (sym chosen) ∙ (same ∙ sym ((text_eq_iff s name).0 hit))
      | inr later ↦ rule_named-ok s table r h later
    ]

-- A rule that the plugin makes of an input is sent with the input's `rule_type` as its tag.
pub parse_rule_type-rule_type_json :
    (i : Input) (r : RuleType)
    → parse_rule_type i ≡ ok r
    → property (text "type") (rule_type_json r) ≡ ok (some (str (shown i.rule_type)))
unfolding parse_rule_type
parse_rule_type-rule_type_json i r e =
    property-rule_type_json r
    ∙ ap (λ s. ok (some (str s)))
        (rule_named-ok (shown i.rule_type) (rule_parsers i) r
          (refl, (refl, (refl, (refl, (refl, tt))))) e)
