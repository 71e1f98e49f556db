-- ===== src/Dashboard/Actions/Forms/Rules.antt =====
-- The rules that the form of a rule may lead to.
use x402guard.Base.{
  ℕ, zero, suc, keep, map, subst, ◌||◌, ◌≡◌, refl, sym, inl, inr, true, false, not, Bool-cases, All,
  any, Option, some, none, List, [], ◌∷◌, if◌then◌else◌,
}
use x402guard.Base.Slices.{All-map, All-kept}
use x402guard.Js.Text.{Text, text, text_eq, is_empty, split, trim}
use x402guard.Js.Text.Laws.{text_eq_iff}
use x402guard.Js.Number.{ℤ, pos, negsuc, parse_int}
use x402guard.Js.Json.{Json, num, str, arr, object, items_of}
use x402guard.Js.Float.{Float, parse_float}
use x402guard.Adapters.Openclaw.{present}
use x402guard.Dashboard.Actions.Forms.{
  valid_types, Form, Checked, invalid, valid, no_amount, micro_usdc, split_list, spend_params,
  contract_params, count_params, rule_params, rule_body, check_rule, rule_of,
}

-- The parameters that suit a type of rule.
pub data Suits : Text → Json → Type 0 where
  per_tx :
      (x : Float)
      → no_amount x ≡ false
      → Suits (text "MaxSpendPerTx") (object ((text "limit", some (micro_usdc x)) ∷ []))
  per_day :
      (x : Float)
      → no_amount x ≡ false
      → Suits (text "MaxSpendPerDay") (object ((text "limit", some (micro_usdc x)) ∷ []))
  contracts :
      (a : Text) (more : List Text)
      → All (λ t. is_empty t ≡ false) (a ∷ more)
      → Suits
          (text "AllowedContracts")
          (object ((text "addresses", some (arr (items_of (a ∷ more)))) ∷ []))
  leverage :
      (n : ℕ) → Suits (text "MaxLeverage") (object ((text "max", some (num (pos (suc n)))) ∷ []))
  slippage :
      (n : ℕ) → Suits (text "MaxSlippage") (object ((text "bps", some (num (pos (suc n)))) ∷ []))

-- A complaint, or what `P` holds of.
abbrev pub ValidIs : (Json → Type 0) → Checked Json → Type 0
ValidIs P (invalid m) = Unit
ValidIs P (valid p) = P p

abbrev IsLimit : Float → Json → Type 0
IsLimit x p = (no_amount x ≡ false) × (p ≡ object ((text "limit", some (micro_usdc x)) ∷ []))

spend_params-valid : (x : Float) → ValidIs (IsLimit x) (spend_params x)
unfolding spend_params
spend_params-valid x = elim (Bool-cases (no_amount x)) [
  | inl bad ↦ rw bad tt
  | inr good ↦ rw good (good, refl)
]

split_list-filled : (s : Text) → All (λ t. is_empty t ≡ false) (split_list s)
unfolding split_list
split_list-filled s =
    All-map (λ t. not (is_empty t) ≡ true) not_true
      (keep (λ t. not (is_empty t)) (map trim (split b',' s)))
      (All-kept (λ t. not (is_empty t)) (map trim (split b',' s)))
  where
    not_true : (t : Text) → not (is_empty t) ≡ true → is_empty t ≡ false
    not_true [] h = cc
    not_true (c ∷ t) h = refl

weaken :
    (P Q : Json → Type 0) (c : Checked Json) → ((p : Json) → P p → Q p) → ValidIs P c → ValidIs Q c
weaken P Q (invalid m) f h = tt
weaken P Q (valid p) f h = f p h

contract_params-valid :
    (l : List Text)
    → All (λ t. is_empty t ≡ false) l
    → ValidIs (Suits (text "AllowedContracts")) (contract_params l)
unfolding contract_params
contract_params-valid [] h = tt
contract_params-valid (a ∷ more) h = contracts a more h

count_params-valid :
    (name complaint : Text) (n : Option ℤ)
    → ValidIs
        (λ p. (k : ℕ) × (p ≡ object ((name, some (num (pos (suc k)))) ∷ [])))
        (count_params name complaint n)
unfolding count_params
count_params-valid name complaint none = tt
count_params-valid name complaint (some (negsuc n)) = tt
count_params-valid name complaint (some (pos zero)) = tt
count_params-valid name complaint (some (pos (suc n))) = (n, refl)

module _ (t value : Text) where
  -- One case of the `switch`.
  case-Suits :
      (name : Text) (c rest : Checked Json)
      → ValidIs (Suits name) c
      → ValidIs (Suits t) rest
      → ValidIs (Suits t) (if text_eq t name then c else rest)
  case-Suits name c rest h k = elim (Bool-cases (text_eq t name)) [
    | inl same ↦ rw same (subst (λ n. ValidIs (Suits n) c) (sym ((text_eq_iff t name).0 same)) h)
    | inr other ↦ rw other k
  ]

  -- Two cases with one body.
  cases-Suits :
      (a b : Text) (c rest : Checked Json)
      → ValidIs (Suits a) c
      → ValidIs (Suits b) c
      → ValidIs (Suits t) rest
      → ValidIs (Suits t) (if text_eq t a || text_eq t b then c else rest)
  cases-Suits a b c rest h k r = elim (Bool-cases (text_eq t a)) [
    | inl same ↦ rw same (subst (λ n. ValidIs (Suits n) c) (sym ((text_eq_iff t a).0 same)) h)
    | inr other ↦ rw other (case-Suits b c rest k r)
  ]

  rule_params-Suits : ValidIs (Suits t) (rule_params t value)
  unfolding rule_params
  rule_params-Suits =
      let x = parse_float value in
      cases-Suits (text "MaxSpendPerTx") (text "MaxSpendPerDay") (spend_params x) _
        (weaken (IsLimit x) (Suits (text "MaxSpendPerTx")) (spend_params x)
          (λ p h. subst (Suits (text "MaxSpendPerTx")) (sym h.1) (per_tx x h.0))
          (spend_params-valid x))
        (weaken (IsLimit x) (Suits (text "MaxSpendPerDay")) (spend_params x)
          (λ p h. subst (Suits (text "MaxSpendPerDay")) (sym h.1) (per_day x h.0))
          (spend_params-valid x))
        (case-Suits (text "AllowedContracts") (contract_params (split_list value)) _
          (contract_params-valid (split_list value) (split_list-filled value))
          (case-Suits (text "MaxLeverage") _ _
            (weaken _ (Suits (text "MaxLeverage")) _
              (λ p h. subst (Suits (text "MaxLeverage")) (sym h.1) (leverage h.0))
              (count_params-valid (text "max") (text "Leverage must be a positive integer")
                (parse_int value)))
            (case-Suits (text "MaxSlippage") _ _
              (weaken _ (Suits (text "MaxSlippage")) _
                (λ p h. subst (Suits (text "MaxSlippage")) (sym h.1) (slippage h.0))
                (count_params-valid (text "bps") (text "Slippage must be at least 1 basis point")
                  (parse_int value)))
              tt)))

-- The body of a request for a rule whose parameters suit its type.
abbrev pub IsRule : Json → Type 0
IsRule body =
    (t : Text) × (p : Json) × (body
      ≡ object ((text "rule_type", some (str t)) ∷ (text "rule_params", some p) ∷ []))
    × Suits t p

rule_body-IsRule :
    (t : Text) (c : Checked Json) → ValidIs (Suits t) c → ValidIs IsRule (rule_body t c)
rule_body-IsRule t (invalid m) h = tt
rule_body-IsRule t (valid p) h = (t, p, refl, h)

check_rule-IsRule : (a b : Option Text) → ValidIs IsRule (check_rule a b)
check_rule-IsRule none b = tt
check_rule-IsRule (some t) none = tt
check_rule-IsRule (some t) (some v) = elim (Bool-cases (any (text_eq t) valid_types)) [
  | inl known ↦ rw known (rule_body-IsRule t (rule_params t v) (rule_params-Suits t v))
  | inr unknown ↦ rw unknown tt
]

-- Whatever the form of a rule: it is refused with a complaint, or it makes the body of a request with
-- one of the five types and the parameters that suit it: a limit for the spends, made from a number
-- above zero, at least one address and none that is empty, and a leverage or a slippage of at least
-- one.
pub rule_of-IsRule : (form : Form) → ValidIs IsRule (rule_of form)
unfolding rule_of
rule_of-IsRule form =
    check_rule-IsRule (present (form (text "rule_type"))) (present (form (text "value")))
