-- ===== src/HookDecision/Tests.antt =====
-- The normalization theorems at concrete returns.
use looplet.Prelude.{none, refl, some, ◌≡◌}
use looplet.Value.{Fields, dict, end, field, text}
use looplet.HookDecision.{HookDecision, no_effect}
use looplet.HookDecision.Wire.{to_wire}
use looplet.HookDecision.Wire.Values.{got}
use looplet.HookDecision.Wire.Reading.{from_wire}
use looplet.HookDecision.Wire.RoundTrip.{as_sent, from_wire-to_wire}

-- a block without a permission
abbrev too_risky : HookDecision
too_risky = record no_effect { block = some "too risky" }

-- a decision with an audit record, a changed argument and a note
abbrev audited : HookDecision
audited = record no_effect {
  permission = some "allow";
  updated_args = some (field "path" (text "/tmp") end);
  additional_context = some "path narrowed";
  policy_decision = some (record {
    decision = "allow";
    tool = some "write";
    policy_id = none;
    policy_version = some "";
    reason = "";
    subject_id = none;
    target = some "/tmp";
    metadata = end;
  });
}

from_wire-to_wire_example : from_wire (dict (to_wire audited)) ≡ got (some (as_sent audited))
from_wire-to_wire_example = from_wire-to_wire audited refl

abbrev greeting : Fields
greeting = field "kind" (text "Continue") (field "text" (text "mind the budget") end)

abbrev bare_allow : Fields
bare_allow = field "kind" (text "Allow") end
