-- ===== src/Dashboard/Chat/Labels.antt =====
-- How the page shows the tools of the API.
use x402guard.Base.{
  [], ◌≡◌, refl, ap, Option, some, none, [], ◌∷◌, ◌++◌, get_or, drop, if◌then◌else◌,
}
use x402guard.Js.Text.{Text, text, text_eq, starts_with, strip_prefix}
use x402guard.Dashboard.Agent.Tools.{
  AgentTool, tool_name, proxy_health, agents, rules, keys, spending, payment, events,
}
use x402guard.Dashboard.Chat.{
  indicator_with, Part, Label, label_of, is_done, indicator_text, tool_call, tool_of, render_part,
}

-- Every tool of the API has a label.
labelled : (tool : AgentTool) → (l : Label) × (label_of (tool_name tool) ≡ some l)
unfolding tool_name label_of text text_eq
labelled proxy_health = (_, refl)
labelled agents = (_, refl)
labelled rules = (_, refl)
labelled keys = (_, refl)
labelled spending = (_, refl)
labelled (payment amount target) = (_, refl)
labelled (events limit) = (_, refl)

-- The part that the library makes of a call of a tool.
abbrev pub call_part : Text → Option Text → Part
call_part name state = record {
  kind = text "tool-" ++ name;
  body = [];
  tool_name = none;
  state = state;
}

-- The call of a tool of the API is shown under the name of the tool.
call_shown :
    (name : Text) (state : Option Text)
    → render_part (call_part name state)
      ≡ some (tool_call name (get_or state (text "input-available")))
unfolding render_part tool_of starts_with strip_prefix text text_eq drop
call_shown name state = refl

-- Whatever tool of the API the model calls: the page shows the call under the tool's name, with the
-- label of this tool, as running until the call has an output, an error or a denial, and as finished
-- from there on.
pub call_labelled :
    (tool : AgentTool) (state : Text)
    → (l : Label) × (label_of (tool_name tool) ≡ some l)
      × (render_part (call_part (tool_name tool) (some state))
          ≡ some (tool_call (tool_name tool) state))
      × (indicator_text (tool_name tool) state
          ≡ l.icon ++ b' ' ∷ (if is_done state then l.finished else l.loading))
unfolding indicator_text
call_labelled tool state =
    let (l, e) = labelled tool in
    (
      l,
      e,
      call_shown (tool_name tool) (some state),
      ap (λ o. indicator_with o (tool_name tool) (is_done state)) e,
    )
