-- ===== src/Dashboard/Spend.antt =====
-- dashboard/src/hooks/useSpendRealtime.ts and dashboard/src/components/spend: the spending of an agent
-- as it comes in, and what is shown of it.
pub mod Laws
pub mod Warns
mod Tests
use x402guard.Base.{
  ◌∙◌, ℕ, ◌+◌, ◌==◌, ltb, leb, Bool, true, false, not, ◌&&◌, ◌||◌, Option, some, none, List, [],
  ◌∷◌, ◌++◌, ◌≡◌, refl, Bool-cases, inl, inr, arith, if◌then◌else◌,
}
use x402guard.Js.Text.{Text, text, text_eq}
use x402guard.Js.Float.{Float, nan, infinite, finite, from_fraction, times, rounded_json}
use x402guard.Js.Json.{to_text}

-- `SpendLedgerInsert`, as far as it is read.
pub record Insert : Type 0 where
  pub agent_id : Text
  pub amount : ℕ

pub record Monitor : Type 0 where
  pub spent : ℕ
  pub prev_pct : Option Float
  pub warnings : List Text

-- `x >= y`
unfoldable pub at_least : Float → Float → Bool
at_least nan y = false
at_least (infinite n) nan = false
at_least (infinite n) (infinite m) = not n || m
at_least (infinite n) (finite m b) = not n
at_least (finite n a) nan = false
at_least (finite n a) (infinite m) = m
at_least (finite false a) (finite false b) = leb b a
at_least (finite false a) (finite true b) = true
at_least (finite true a) (finite false b) = a == 0 && b == 0
at_least (finite true a) (finite true b) = leb a b

-- `x < y`
abbrev pub below : Float → Float → Bool
below x y = at_least y x && not (at_least x y)

abbrev pub eight_tenths : Float
unfolding from_fraction
eight_tenths = from_fraction false 8 10

abbrev pub half_used : Float
unfolding from_fraction
half_used = from_fraction false 5 10

-- `pctUsed`: the amounts are integers below 2^53, so that they are doubles.
unfoldable pub pct_used : Option ℕ → ℕ → Option Float
unfolding from_fraction
pct_used none spent = none
pct_used (some cap) spent = if ltb 0 cap then some (from_fraction false spent cap) else none

-- `Math.round(pct * 100)`
unfoldable pub percent_text : Float → Text
unfolding times rounded_json to_text
percent_text pct = to_text (rounded_json (times pct 100))

-- Whether a share crosses the threshold of 80 % from below.
unfoldable pub crosses : Option Float → Option Float → Bool
unfolding at_least
crosses (some previous) (some pct) = below previous eight_tenths && at_least pct eight_tenths
crosses _ _ = false

abbrev pub warning_text : Text → Option Float → List Text
warning_text name none = []
warning_text name (some pct) =
    (name ++ (text " approaching limit: " ++ (percent_text pct ++ text "% of daily budget used")))
    ∷ []

-- The effect of a render with a share.
unfoldable pub watch : Text → Option Float → Monitor → Monitor
unfolding crosses percent_text
watch name pct m = record m {
  prev_pct = pct;
  warnings = if crosses m.prev_pct pct then m.warnings ++ warning_text name pct else m.warnings;
}

-- What the subscription does with an inserted row: only those of the agent count.
unfoldable pub receive : Text → Insert → Monitor → Monitor
receive agent row m =
    if text_eq row.agent_id agent then record m { spent = m.spent + row.amount } else m

-- The monitor after its first render.
unfoldable pub start_monitor : Text → Option ℕ → ℕ → Monitor
unfolding watch pct_used
start_monitor name cap initial_spent =
    watch name (pct_used cap initial_spent)
      (record { spent = initial_spent; prev_pct = none; warnings = [] })

-- A row that comes in, and the render after it.
unfoldable pub insert_and_render : Text → Text → Option ℕ → Insert → Monitor → Monitor
unfolding receive watch pct_used
insert_and_render agent name cap row m =
    let m' = receive agent row m in watch name (pct_used cap m'.spent) m'

unfoldable pub run : Text → Text → Option ℕ → List Insert → Monitor → Monitor
unfolding insert_and_render
run agent name cap [] m = m
run agent name cap (row ∷ rows) m = run agent name cap rows (insert_and_render agent name cap row m)

-- What the agent's rows add up to.
unfoldable pub total_of : Text → List Insert → ℕ
total_of agent [] = 0
total_of agent (row ∷ rows) =
    let rest = total_of agent rows in if text_eq row.agent_id agent then row.amount + rest else rest

-- `SpendAlertBadge`: the variant, and the text.
unfoldable pub alert_badge : Option Float → Option (Text × Text)
unfolding at_least percent_text
alert_badge none = none
alert_badge (some pct) = some (
  if at_least pct eight_tenths
      then text "destructive"
      else (if at_least pct half_used then text "secondary" else text "outline"),
  percent_text pct ++ text "% used",
)

-- `getAlertColor`
unfoldable pub alert_color : Float → Text
unfolding at_least
alert_color pct =
    if at_least pct eight_tenths
    then text "[&>div]:bg-destructive"
    else (if at_least pct half_used
        then text "[&>div]:bg-yellow-500"
        else text "[&>div]:bg-green-500")

-- `displayPct`
unfoldable pub display_pct : Float → Float
unfolding times at_least from_fraction
display_pct pct =
    let percent = times pct 100 in
    let hundred = from_fraction false 100 1 in if at_least percent hundred then hundred else percent
