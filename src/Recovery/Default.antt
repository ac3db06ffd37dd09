-- ===== src/Recovery/Default.antt =====
-- `build_default_registry` of src/looplet/recovery.py: the recipe of each scenario.
use looplet.Prelude.{Option, String, some, true}
use looplet.Value.{Fields, bool, end, field}
use looplet.Recovery.{
  RecoveryAction, RecoveryRecipe, RecoveryRegistry, empty_result, llm_error, parse_error,
  prompt_too_long, recovery_registry, register, repeated_tool, stagnation, timeout, tool_error,
}

-- a handler that always gives the same action
abbrev always : String → Fields → String → Fields → Option RecoveryAction
always action_type payload message context =
    some (record { action_type = action_type; payload = payload; message = message })

abbrev pub parse_error_recipe : RecoveryRecipe
parse_error_recipe = record {
  scenario = parse_error;
  handler =
      always "modify_prompt" (field "simplify" (bool true) end)
        "Your previous response could not be parsed as a tool call. Please respond using ONLY the JSON tool-call format with no extra text before or after the JSON.";
  max_attempts = 2;
  description = "Simplify prompt when LLM output cannot be parsed";
}

abbrev pub prompt_too_long_recipe : RecoveryRecipe
prompt_too_long_recipe = record {
  scenario = prompt_too_long;
  handler =
      always "inject_guidance" (field "compact" (bool true) end)
        "The context has grown too large. Please summarise what you have found so far and continue with a focused next step rather than repeating prior context.";
  max_attempts = 3;
  description = "Compact context when prompt exceeds token limit";
}

abbrev pub tool_error_recipe : RecoveryRecipe
tool_error_recipe = record {
  scenario = tool_error;
  handler =
      always "retry" (field "backoff" (bool true) end)
        "The last tool call returned an error. You may retry with different arguments or choose an alternative tool.";
  max_attempts = 3;
  description = "Retry tool calls that return errors";
}

abbrev pub empty_result_recipe : RecoveryRecipe
empty_result_recipe = record {
  scenario = empty_result;
  handler =
      always "inject_guidance" (field "suggest_alternative" (bool true) end)
        "The last tool returned no results. Try a broader query, different keywords, or a different tool to find the information you need.";
  max_attempts = 3;
  description = "Guide agent to try alternative approaches on empty results";
}

abbrev pub repeated_tool_recipe : RecoveryRecipe
repeated_tool_recipe = record {
  scenario = repeated_tool;
  handler =
      always "inject_guidance" (field "dedup" (bool true) end)
        "You have called the same tool with the same arguments more than once. Please avoid repeating queries you have already made and instead try a different approach or tool.";
  max_attempts = 3;
  description = "Warn agent about duplicate tool calls";
}

abbrev pub stagnation_recipe : RecoveryRecipe
stagnation_recipe = record {
  scenario = stagnation;
  handler =
      always "inject_guidance" (field "pivot" (bool true) end)
        "Progress has stalled - no new information found in recent steps. Consider pivoting to a different angle, summarising current findings, or calling done() if the task is complete.";
  max_attempts = 3;
  description = "Encourage the agent to pivot or conclude when stagnant";
}

abbrev pub llm_error_recipe : RecoveryRecipe
llm_error_recipe = record {
  scenario = llm_error;
  handler = always "retry" (end) "The language model returned an error. Retrying the request.";
  max_attempts = 3;
  description = "Retry on transient LLM API errors";
}

abbrev pub timeout_recipe : RecoveryRecipe
timeout_recipe = record {
  scenario = timeout;
  handler =
      always "skip" (field "warn" (bool true) end)
        "A tool call timed out and has been skipped. Continue with the information you have.";
  max_attempts = 3;
  description = "Skip timed-out tool calls";
}

unfoldable pub build_default_registry : RecoveryRegistry
unfolding register
build_default_registry = register timeout_recipe (
    register llm_error_recipe (
      register stagnation_recipe (
        register repeated_tool_recipe (
          register empty_result_recipe (
            register tool_error_recipe
              (register prompt_too_long_recipe (register parse_error_recipe recovery_registry)))))))
