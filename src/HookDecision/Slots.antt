-- ===== src/HookDecision/Slots.antt =====
-- Which effect fields apply in which hook slot: `_HOOK_SLOT_EFFECTS`, `hook_effect_fields` and
-- `HookDecision.ignored_effects` of src/looplet/hook_decision.py.
use looplet.Prelude.{
  Bool, List, Option, String, [], false, if◌then◌else◌, is_some, none, not, or_else, some, str_eq,
  str_mem, ◌&&◌, ◌||◌, ◌∷◌,
}
use looplet.HookDecision.{HookDecision}

abbrev pre_tool_fields : List String
pre_tool_fields =
    "updated_args" ∷ "updated_result" ∷ "permission" ∷ "block" ∷ "additional_context" ∷ []

abbrev post_tool_fields : List String
post_tool_fields = "updated_result" ∷ "additional_context" ∷ "stop" ∷ []

abbrev model_fields : List String
model_fields = "additional_context" ∷ "stop" ∷ []

-- the table, as an association list
abbrev pub hook_slot_effects : List (String × List String)
hook_slot_effects =
    ("pre_prompt", "additional_context" ∷ [])
    ∷ ("pre_dispatch", pre_tool_fields)
    ∷ ("check_permission", "permission" ∷ "block" ∷ [])
    ∷ ("post_dispatch", post_tool_fields)
    ∷ ("check_done", "block" ∷ "permission" ∷ [])
    ∷ ("should_stop", "stop" ∷ [])
    ∷ ("pre_tool_use", pre_tool_fields)
    ∷ ("post_tool_use", post_tool_fields)
    ∷ ("post_tool_failure", post_tool_fields)
    ∷ ("pre_llm_call", model_fields)
    ∷ ("post_llm_response", model_fields)
    ∷ ("pre_compact", "stop" ∷ [])
    ∷ ("post_compact", "rewrite_thread" ∷ [])
    ∷ ("session_start", [])
    ∷ ("tool_progress", [])
    ∷ ("hook_decision", [])
    ∷ ("done_accepted", [])
    ∷ ("stop", [])
    ∷ ("subagent_start", [])
    ∷ ("subagent_stop", [])
    ∷ []

abbrev find_slot : String → List (String × List String) → Option (List String)
find_slot s [] = none
find_slot s ((t, fs) ∷ r) = if str_eq t s then some fs else find_slot s r

unfoldable pub hook_effect_fields : String → List String
hook_effect_fields slot = or_else (find_slot slot hook_slot_effects) []

-- the effect fields that are set, in the order of their names
unfoldable pub set_effects : HookDecision → List (String × Bool)
set_effects d =
    ("additional_context", is_some d.additional_context)
    ∷ ("block", is_some d.block)
    ∷ ("permission", is_some d.permission)
    ∷ ("rewrite_thread", is_some d.rewrite_thread)
    ∷ ("stop", is_some d.stop)
    ∷ ("updated_args", is_some d.updated_args)
    ∷ ("updated_result", is_some d.updated_result)
    ∷ []

-- a permission that is neither "allow" nor "deny"
abbrev pub bad_permission : Option String → Bool
bad_permission none = false
bad_permission (some p) = not (str_eq p "allow" || str_eq p "deny")

-- the set comprehension, `ignored.add("permission")`, and the sort
unfoldable pub ignored_in : List String → Bool → List (String × Bool) → List String
ignored_in applicable bad [] = []
ignored_in applicable bad ((name, present) ∷ r) =
    let rest = ignored_in applicable bad r in
    if (present && not (str_mem name applicable)) || (bad && str_eq name "permission")
    then name ∷ rest
    else rest

unfoldable pub ignored_effects : HookDecision → String → List String
unfolding set_effects ignored_in
ignored_effects d slot = elim (find_slot slot hook_slot_effects) [
  | none ↦ []
  | some applicable ↦ ignored_in applicable (bad_permission d.permission) (set_effects d)
]
