-- ===== src/Conversation/Tests.antt =====
-- Truncation and compaction at concrete threads.
use looplet.Prelude.{
  List, String, [], arith, false, keep_if, map, none, refl, true, ℕ, ◌==◌, ◌∷◌, ◌≡◌,
}
use looplet.Value.{Fields, end, field, text}
use looplet.Conversation.{
  Compactor, Conversation, Message, MessageRole, assistant, compact, compacted_head, in_turn_of,
  last_messages, plain, split_index, strip_large_content, system, truncate, user,
}
use looplet.Conversation.Compaction.{compact-turns}

abbrev message : ℕ → MessageRole → Fields → Message
message n role metadata = record {
  ident = n;
  role = role;
  content = plain "";
  tool_call = none;
  tool_result = none;
  metadata = metadata;
  timestamp = 0;
}

abbrev by_model : ℕ → String → Message
by_model n turn =
    message n assistant (field "origin" (text "model") (field "model_turn_id" (text turn) end))

abbrev host_of : Compactor
host_of = record {
  summarize = λ ms. "earlier";
  omitted = λ kind. kind;
  summary_content = λ s. s;
  equal = λ x y. x.ident == y.ident;
  new_ident = 100;
  now = 9;
}

abbrev thread : Conversation
thread = record {
  messages =
      message 0 system end
      ∷ by_model 1 "a"
      ∷ message 2 user end
      ∷ message 3 user end
      ∷ by_model 4 "b"
      ∷ by_model 5 "b"
      ∷ [];
}

abbrev idents : Conversation → List ℕ
idents c = map (λ m. m.ident) c.messages

-- A turn that reaches into the window is kept whole.
whole_turn : idents (compact host_of 1 thread) ≡ 100 ∷ 3 ∷ 4 ∷ 5 ∷ []
unfolding compact split_index compacted_head strip_large_content
whole_turn = refl

-- A window of four that starts with messages of no turn loses the first of them: the split moves
-- forward to the first message of the turn.
window_shrinks : idents (compact host_of 4 thread) ≡ 100 ∷ 3 ∷ 4 ∷ 5 ∷ []
unfolding compact split_index compacted_head strip_large_content
window_shrinks = refl

-- Truncation to no message keeps all of them.
nothing_truncated : (truncate 0 false thread).messages ≡ thread.messages
unfolding truncate
nothing_truncated = refl

compact-turns_example :
    keep_if (in_turn_of (last_messages 1 thread.messages)) (compact host_of 1 thread).messages
    ≡ keep_if (in_turn_of (last_messages 1 thread.messages)) thread.messages
compact-turns_example = compact-turns host_of 1 thread (omega arith) refl

same_ident : (m : Message) → host_of.equal m m ≡ true
same_ident m = ground arith
