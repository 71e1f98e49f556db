-- ===== src/Dashboard/Agent/Values.antt =====
-- dashboard/src/app/api/agent/route.ts: the values that the agent's tools work with.
use x402guard.Base.{ℕ, zero, ◌+◌, Bool, true, false, not, ◌||◌, Option, some, none, List, [], ◌∷◌}
use x402guard.Js.Text.{Text, text, text_eq, is_empty, includes}
use x402guard.Js.Number.{pos, decimal}
use x402guard.Js.Json.{
  Json, null, bool, num, str, arr, obj, Items, nil, cons, Fields, end, field, get_field, set_field,
  object,
}
use x402guard.Sdk.Errors.{type_error, Result, ok, throw}
use x402guard.Dashboard.Audit.{eq}
use x402guard.Dashboard.Agent.{
  Question, asked, Found, found, problem, AgentServer, Agent, error_object,
}

-- A value that counts as true.
unfoldable pub is_truthy : Option Json → Bool
is_truthy none = false
is_truthy (some null) = false
is_truthy (some (bool b)) = b
is_truthy (some (num (pos zero))) = false
is_truthy (some (str s)) = not (is_empty s)
is_truthy (some _) = true

abbrev pub is_text : Text → Json → Bool
is_text w (str s) = text_eq s w
is_text w _ = false

abbrev pub has_text : Text → Items → Bool
has_text w nil = false
has_text w (cons v vs) = is_text w v || has_text w vs

-- `v.includes(w)` of a value that counts as true.
unfoldable pub includes_text : Text → Json → Result Bool
includes_text w (str s) = ok (includes s w)
includes_text w (arr vs) = ok (has_text w vs)
includes_text w _ = throw (type_error (text "result.error.includes is not a function"))

abbrev pub rows_or_error : Text → Found Items → Json
rows_or_error name (problem m) = error_object m
rows_or_error name (found none) = object ((name, some (arr nil)) ∷ [])
rows_or_error name (found (some rows)) = object ((name, some (arr rows)) ∷ [])

-- `{ ...base, ...data }`
unfoldable pub merge_fields : Fields → Fields → Fields
merge_fields base end = base
merge_fields base (field k v fs) = merge_fields (set_field k v base) fs

abbrev pub indexed : ℕ → Items → Fields
indexed i nil = end
indexed i (cons v vs) = field (decimal i) v (indexed (i + 1) vs)

abbrev pub characters : ℕ → Text → Fields
characters i [] = end
characters i (c ∷ s) = field (decimal i) (str (c ∷ [])) (characters (i + 1) s)

-- The properties that `...v` spreads.
unfoldable pub spread_fields : Json → Fields
spread_fields (obj fs) = fs
spread_fields (arr vs) = indexed 0 vs
spread_fields (str s) = characters 0 s
spread_fields _ = end

-- `v?.k` of a value that is no text and no array, or has no such property.
unfoldable pub optional_field : Text → Option Json → Option Json
optional_field k (some (obj fs)) = get_field k fs
optional_field k _ = none

abbrev pub rules_question : Text → Text → Question
rules_question columns id = record {
  table = text "guardrail_rules";
  columns = columns;
  conditions = eq (text "agent_id") id ∷ eq (text "is_active") (text "true") ∷ [];
  orders = [];
  limit = none;
}

module _ (s : AgentServer) where
  abbrev pub select : Question → Agent (Found Items)
  select q t = (ok (s.select t q), asked q ∷ t)

  abbrev pub select_amounts : Question → Agent (Found (List ℕ))
  select_amounts q t = (ok (s.select_amounts t q), asked q ∷ t)
