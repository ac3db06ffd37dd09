-- ===== src/HookDecision.antt =====
-- The single return type of every hook: src/looplet/hook_decision.py. `none` is Python's `None`.
pub mod Normalize
pub mod Gates
pub mod Slots
pub mod Wire
mod Tests
use looplet.Prelude.{
  Bool, Option, String, false, if◌then◌else◌, is_some, none, not, some, str_eq, true, ◌&&◌, ◌||◌,
}
use looplet.Value.{Fields, Items, bool, dict, end, field, list, truthy}
use looplet.Types.{PolicyRecord, ToolResult}

pub record HookDecision : Type 0 where
  pub block : Option String
  pub stop : Option String
  pub updated_args : Option Fields
  pub updated_result : Option ToolResult
  pub permission : Option String
  pub additional_context : Option String
  pub rewrite_thread : Option Fields
  pub policy_decision : Option PolicyRecord
  pub metadata : Fields

-- `HookDecision()`
abbrev pub no_effect : HookDecision
no_effect = record {
  block = none;
  stop = none;
  updated_args = none;
  updated_result = none;
  permission = none;
  additional_context = none;
  rewrite_thread = none;
  policy_decision = none;
  metadata = end;
}

-- `opt == "text"`
abbrev pub is_text : Option String → String → Bool
is_text none s = false
is_text (some t) s = str_eq t s

unfoldable pub is_block : HookDecision → Bool
is_block d = is_some d.block || is_text d.permission "deny"

unfoldable pub is_stop : HookDecision → Bool
is_stop d = is_some d.stop

unfoldable pub is_noop : HookDecision → Bool
is_noop d =
    not (is_some d.block)
    && (not (is_some d.stop)
        && (not (is_some d.updated_args)
            && (not (is_some d.updated_result)
                && (not (is_some d.permission)
                    && (not (is_some d.additional_context)
                        && (not (is_some d.rewrite_thread)
                            && (not (is_some d.policy_decision)
                                && not (truthy (dict d.metadata)))))))))

-- the factories
unfoldable pub allow : Option Fields → Option PolicyRecord → HookDecision
allow args audit = record no_effect {
  permission = some "allow";
  updated_args = args;
  policy_decision = audit;
}

unfoldable pub deny : String → Bool → Option PolicyRecord → HookDecision
deny reason retry audit = record no_effect {
  permission = some "deny";
  block = some reason;
  policy_decision = audit;
  metadata = if retry then field "retry" (bool true) end else end;
}

unfoldable pub reject : String → HookDecision
reject reason = record no_effect { block = some reason }

unfoldable pub stop_with : String → HookDecision
stop_with reason = record no_effect { stop = some reason }

unfoldable pub continue_with : Option String → HookDecision
continue_with context = record no_effect { additional_context = context }

unfoldable pub inject_context : String → HookDecision
inject_context s = record no_effect { additional_context = some s }

-- the keyword arguments of `RewriteThread`: an empty list or dict is left out of the spec
unfoldable pub rewrite_thread : Items → Fields → HookDecision
rewrite_thread keys updates =
    let tail = if truthy (dict updates) then field "metadata_updates" (dict updates) end else end in
    record no_effect {
      rewrite_thread =
          some (if truthy (list keys) then field "reset_metadata_keys" (list keys) tail else tail);
    }
