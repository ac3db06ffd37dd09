-- ===== src/Parse/Tests.antt =====
-- An answer with a literal line feed in a string, and answers that are no call.
use looplet.Prelude.{List, Option, [], false, if◌then◌else◌, inr, map, none, refl, some, ◌∷◌, ◌≡◌}
use looplet.Value.{Fields, Value, dict, end, field, text, dict, text, field, end}
use looplet.Types.{ToolCall}
use looplet.Parse.{
  Reader, Text, dict_to_tool_call, escape_from, escape_literal_newlines, escape_of, flat_args,
  next_place, outside, parse_multi_tool_calls, parse_object, parse_tool_call, same_text,
  try_parse_json,
}
use looplet.Parse.Escape.{IsClean, escape_literal_newlines-faithful, read_from}
use looplet.Parse.Calls.{Holds, answer_of, parse_multi_tool_calls-answer_of, said}

-- a quote, the letter x, a line feed and a quote
abbrev literal : Text
literal = 34 ∷ 120 ∷ 10 ∷ 34 ∷ []

literal_escaped : escape_literal_newlines literal ≡ 34 ∷ 120 ∷ 92 ∷ 110 ∷ 34 ∷ []
unfolding escape_literal_newlines escape_from next_place escape_of
literal_escaped = refl

abbrev answer : Fields
answer = field "tool" (text "edit") (field "path" (text "a.py") end)

-- a decoder that refuses the literal line feed
abbrev loads_strict : Text → Option Value
loads_strict raw = if same_text raw literal then none else some (dict answer)

abbrev strict : Reader
strict = record {
  render = λ v. "";
  loads = loads_strict;
  unfence = λ raw. raw;
  search_braces = λ raw. none;
  is_blank = λ raw. false;
  new_ident = λ n. n;
  new_call_id = λ n. "fresh";
}

-- The second attempt reads the escaped text, and the flat arguments are taken.
literal_parsed :
    parse_tool_call strict literal
    ≡ some (record {
      ident = 0;
      tool = "edit";
      args = field "path" (text "a.py") end;
      reasoning = "";
      call_id = "fresh";
      metadata = end;
    })
unfolding parse_tool_call parse_object try_parse_json escape_literal_newlines escape_from next_place
    escape_of dict_to_tool_call flat_args
literal_parsed = refl

escape_literal_newlines-faithful_example :
    IsClean outside (escape_literal_newlines literal)
    × (read_from outside (escape_literal_newlines literal) ≡ read_from outside literal)
    × (escape_literal_newlines (escape_literal_newlines literal) ≡ escape_literal_newlines literal)
escape_literal_newlines-faithful_example = escape_literal_newlines-faithful literal

abbrev look : ToolCall
look = record {
  ident = 0;
  tool = "read";
  args = field "path" (text "a.py") end;
  reasoning = "first";
  call_id = "fresh";
  metadata = end;
}

abbrev two_calls : List ToolCall
two_calls = look ∷ record look { ident = 1; tool = "list"; reasoning = "then" } ∷ []

-- a decoder that finds the two calls in the text, once its line feed is escaped
abbrev loads_calls : Text → Option Value
loads_calls raw = if same_text raw literal then none else some (dict (answer_of two_calls))

abbrev lenient : Reader
lenient = record strict { loads = loads_calls }

literal-Holds : Holds lenient (answer_of two_calls) literal
unfolding escape_literal_newlines escape_from next_place escape_of
literal-Holds = inr (refl, refl)

parse_multi_tool_calls-answer_of_example :
    map said (parse_multi_tool_calls lenient (some literal)) ≡ map said two_calls
parse_multi_tool_calls-answer_of_example =
    parse_multi_tool_calls-answer_of lenient two_calls literal refl literal-Holds
