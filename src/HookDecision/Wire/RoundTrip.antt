-- ===== src/HookDecision/Wire/RoundTrip.antt =====
-- What survives the wire, and what the reader does with the short forms.
use looplet.Prelude.{
  Bool, Bool-cases, List, Option, String, [], false, if◌then◌else◌, inl, inr, none, refl, some,
  str_eq, sym, true, ◌||◌, ◌∙◌, ◌∷◌, ◌≡◌,
}
use looplet.Value.{Fields, Value, bool, dict, end, field, get, int, list, null, text, truthy, tuple}
use looplet.Types.{PolicyRecord, ToolResult}
use looplet.HookDecision.{HookDecision}
use looplet.HookDecision.Wire.{
  items_of, to_wire, toolresult_to_wire, wire_dict, wire_policy, wire_text, wire_thread,
}
use looplet.HookDecision.Wire.Values.{got, read_dict, read_text, read_texts, value_error}
use looplet.HookDecision.Wire.Reading.{
  by_kind, canonical, continue_of, from_fields, from_wire, has_payload, is_set, read_policy,
  read_thread, toolresult_from_wire, toolresult_of,
}
use looplet.HookDecision.Wire.PolicyTrip.{policy_round_trip, sent_policy}

abbrev pub sent_result : ToolResult → ToolResult
sent_result r = record r { error_detail = none }

abbrev pub sent_thread : Option Fields → Option Fields
sent_thread none = none
sent_thread (some end) = none
sent_thread (some (field k v fs)) = some (field k v fs)

-- What of a decision arrives: no `error_detail` of a result, no empty text of a policy record, and
-- no empty rewrite of the thread.
abbrev pub as_sent : HookDecision → HookDecision
as_sent d = record d {
  updated_result = elim d.updated_result [ none ↦ none | some r ↦ some (sent_result r) ];
  rewrite_thread = sent_thread d.rewrite_thread;
  policy_decision = elim d.policy_decision [ none ↦ none | some p ↦ some (sent_policy p) ];
}

-- the policy record, if there is one, names its decision
abbrev pub IsNamed : Option PolicyRecord → Type 0
IsNamed none = Unit
IsNamed (some p) = str_eq p.decision "" ≡ false

read_text-wire_text : (o : Option String) → read_text (some (wire_text o)) ≡ got o
read_text-wire_text none = refl
read_text-wire_text (some s) = refl

read_dict-wire_dict : (o : Option Fields) → read_dict (some (wire_dict o)) ≡ got o
read_dict-wire_dict none = refl
read_dict-wire_dict (some fs) = refl

read_thread-wire_thread : (o : Option Fields) → read_thread (some (wire_thread o)) ≡ sent_thread o
read_thread-wire_thread none = refl
read_thread-wire_thread (some end) = refl
read_thread-wire_thread (some (field k v fs)) = refl

read_texts-items_of : (ss : List String) → read_texts (items_of ss) ≡ got ss
read_texts-items_of [] = refl
read_texts-items_of (s ∷ ss) = rw (read_texts-items_of ss)

toolresult_round_trip :
    (o : Option ToolResult)
    → toolresult_from_wire (some (toolresult_to_wire o))
      ≡ got (elim o [ none ↦ none | some r ↦ some (sent_result r) ])
unfolding toolresult_from_wire toolresult_to_wire toolresult_of
toolresult_round_trip none = refl
toolresult_round_trip (some r) = rw (
  read_text-wire_text r.error,
  read_text-wire_text r.result_key,
  read_text-wire_text r.call_id,
  read_texts-items_of r.warnings,
)

read_policy-wire_policy :
    (o : Option PolicyRecord)
    → IsNamed o
    → read_policy (some (wire_policy o))
      ≡ got (elim o [ none ↦ none | some p ↦ some (sent_policy p) ])
read_policy-wire_policy none h = refl
read_policy-wire_policy (some p) h = rw (policy_round_trip p h)

-- A decision that is sent over the wire and read back is the decision that was sent, less exactly
-- the `error_detail` of its result, an empty rewrite of the thread, and the empty texts of its policy
-- record. The policy record, if there is one, names its decision with a text that is not empty.
pub from_wire-to_wire :
    (d : HookDecision)
    → IsNamed d.policy_decision
    → from_wire (dict (to_wire d)) ≡ got (some (as_sent d))
unfolding from_wire from_fields canonical to_wire
from_wire-to_wire d h = rw (
  read_text-wire_text d.block,
  read_text-wire_text d.stop,
  read_dict-wire_dict d.updated_args,
  toolresult_round_trip d.updated_result,
  read_text-wire_text d.permission,
  read_text-wire_text d.additional_context,
  read_policy-wire_policy d.policy_decision h,
  read_thread-wire_thread d.rewrite_thread,
)

continue_of_falsy : (v : Value) → truthy v ≡ false → continue_of (some v) ≡ got none
continue_of_falsy (text s) h = elim (Bool-cases (str_eq s "")) [
  | inl e ↦ rw e
  | inr e ↦ let contrary : true ≡ false = rw e at h in cc
]
continue_of_falsy null h = refl
continue_of_falsy (bool b) h = rw h
continue_of_falsy (int n) h = rw (continue_of, h)
continue_of_falsy (list vs) h = rw (continue_of, h)
continue_of_falsy (tuple vs) h = rw (continue_of, h)
continue_of_falsy (dict fs) h = rw (continue_of, h)

continue_of_blank :
    (o : Option Value)
    → (elim o [ none ↦ false | some v ↦ truthy v ]) ≡ false
    → continue_of o ≡ got none
continue_of_blank none h = refl
continue_of_blank (some v) h = continue_of_falsy v h

-- without a text, `additional_context` alone decides
continue_of_either :
    (o t : Option Value)
    → (elim t [ none ↦ false | some v ↦ truthy v ]) ≡ false
    → continue_of (elim o [ none ↦ t | some v ↦ if truthy v then some v else t ]) ≡ continue_of o
continue_of_either none t h = continue_of_blank t h
continue_of_either (some v) t h = elim (Bool-cases (truthy v)) [
  | inl e ↦ rw e
  | inr e ↦ rw e (continue_of_blank t h ∙ sym (continue_of_falsy v e))
]

left_false : (a b : Bool) → (a || b) ≡ false → a ≡ false
left_false false b h = refl
left_false true b h = h

text_unset : (raw : Fields) → has_payload raw ≡ false → is_set "text" raw ≡ false
text_unset raw h = left_false (is_set "text" raw) _ h

-- The text of a `Continue` effect is never read: with a text, block, reason, args or result that is
-- set the effect is refused as an unknown kind, and otherwise its `additional_context` alone decides.
pub from_wire-continue :
    (raw : Fields)
    → get "kind" raw ≡ some (text "Continue")
    → from_wire (dict raw)
      ≡ (if has_payload raw then value_error else continue_of (get "additional_context" raw))
unfolding from_wire from_fields by_kind
from_wire-continue raw k = elim (Bool-cases (has_payload raw)) [
  | inl e ↦ rw (from_wire, from_fields, k, e)
  | inr e ↦
      rw (from_wire, from_fields, k, e)
        (continue_of_either (get "additional_context" raw) (get "text" raw) (text_unset raw e))
]

-- The `updated_args` of an `Allow` effect are ignored when none of text, block, reason, args and
-- result is set: the effect is read as it would be without them.
pub from_wire-allow_updated_args :
    (raw : Fields) (args : Value)
    → get "kind" raw ≡ some (text "Allow")
    → has_payload raw ≡ false
    → from_wire (dict (field "updated_args" args raw)) ≡ from_wire (dict raw)
unfolding from_wire from_fields
from_wire-allow_updated_args raw args k n = rw (from_wire, from_fields, k, n)
