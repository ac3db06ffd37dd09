-- ===== src/Conversation.antt =====
-- The message thread of src/looplet/conversation.py: appending, truncating and compacting. The
-- summarizer is the host's; `equal` stands for the equality that Python generates for a dataclass.
pub mod Compaction
pub mod Boundaries
pub mod Truncation
mod Tests
use looplet.Prelude.{
  Bool, List, Option, String, [], any, drop, false, if◌then◌else◌, keep_if, leb, length, ltb, map,
  none, not, or_else, some, str_eq, str_mem, suc, take, true, ℕ, ◌&&◌, ◌++◌, ◌+◌, ◌-◌, ◌==◌, ◌||◌,
  ◌∷◌,
}
use looplet.Value.{Fields, end, field, get, int, pos, text}
use mathlib.Core.Option.{map as option_map}
use looplet.Types.{ToolCall, ToolResult}

pub data MessageRole : Type 0 where
  system user assistant tool : MessageRole

pub record ContentBlock : Type 0 where
  pub kind : String
  pub payload : Fields

pub data Content : Type 0 where
  plain : String → Content
  blocks : List ContentBlock → Content

pub record Message : Type 0 where
  pub ident : ℕ
  pub role : MessageRole
  pub content : Content
  pub tool_call : Option ToolCall
  pub tool_result : Option ToolResult
  pub metadata : Fields
  pub timestamp : ℕ

pub record Conversation : Type 0 where
  pub messages : List Message

abbrev pub is_system : Message → Bool
is_system m = elim m.role [ system ↦ true | _ ↦ false ]

abbrev pub is_user : Message → Bool
is_user m = elim m.role [ user ↦ true | _ ↦ false ]

-- `append`
unfoldable pub append : Message → Conversation → Conversation
append msg c = record c { messages = c.messages ++ msg ∷ [] }

-- `messages[-n:]`, which for 0 is the whole list
abbrev pub last_messages : ℕ → List Message → List Message
last_messages n messages = if n == 0 then messages else drop (length messages - n) messages

-- `id(m) in {id(x) for x in messages}`
abbrev pub is_among : List Message → Message → Bool
is_among messages m = any (λ x. x.ident == m.ident) messages

-- `truncate`
unfoldable pub truncate : ℕ → Bool → Conversation → Conversation
truncate keep_last preserve_system c =
    let recent = last_messages keep_last c.messages in
    if leb (length c.messages) keep_last
    then c
    else if preserve_system
    then record c {
      messages = keep_if (λ m. not (is_among recent m)) (keep_if is_system c.messages) ++ recent;
    }
    else record c { messages = recent }

-- `metadata.get(key) == value` for a text
abbrev pub has_text : String → String → Fields → Bool
has_text key value metadata = elim (get key metadata) [ some (text s) ↦ str_eq s value | _ ↦ false ]

abbrev pub is_boundary : Message → Bool
is_boundary m = has_text "kind" "compaction_boundary" m.metadata

abbrev pub is_model_message : Message → Bool
is_model_message m = has_text "origin" "model" m.metadata

-- the model turn that a message belongs to: the loop's turn ids are texts; `None` is no turn
abbrev pub turn_of : Message → Option String
turn_of m = elim (get "model_turn_id" m.metadata) [ some (text s) ↦ some s | _ ↦ none ]

abbrev pub same_turn : Option String → Option String → Bool
same_turn none u = false
same_turn (some s) none = false
same_turn (some s) (some t) = str_eq s t

-- `.. in retained_turns`, for the turns of the retained messages
abbrev pub in_turn_of : List Message → Message → Bool
in_turn_of retained m = any (λ x. same_turn (turn_of m) (turn_of x)) retained

-- the first index that a test selects
abbrev pub index_where : (Message → Bool) → List Message → Option ℕ
index_where p [] = none
index_where p (m ∷ ms) =
    let later = index_where p ms in if p m then some 0 else option_map suc later

-- where `compact` splits the thread: in a thread with model messages no turn that reaches into the
-- last `keep_recent` messages is split
unfoldable pub split_index : ℕ → List Message → ℕ
split_index keep_recent messages =
    let split = length messages - keep_recent in
    if any is_model_message messages && ltb split (length messages)
    then or_else (index_where (in_turn_of (drop split messages)) messages) split
    else split

-- `_strip_large_content`
abbrev pub is_large : ContentBlock → Bool
is_large b = str_mem b.kind ("image" ∷ "audio" ∷ "video" ∷ "binary" ∷ [])

-- the last user message, `previous` if there is none
abbrev pub last_user : Option Message → List Message → Option Message
last_user previous [] = previous
last_user previous (m ∷ ms) = last_user (if is_user m then some m else previous) ms

-- `find_compaction_boundaries`
unfoldable pub find_compaction_boundaries : Conversation → List Message
find_compaction_boundaries c = keep_if is_boundary c.messages

-- what `compact` takes from the host: the summarizer, the texts it builds with it, the equality of
-- messages, and the identity and time of a new message
pub record Compactor : Type 0 where
  pub summarize : List Message → String
  pub omitted : String → String
  pub summary_content : String → String
  pub equal : Message → Message → Bool
  pub new_ident : ℕ
  pub now : ℕ

module _ (host_of : Compactor) where
  abbrev pub placeholder : ContentBlock → ContentBlock
  placeholder b =
      if is_large b
      then record { kind = "text"; payload = field "text" (text (host_of.omitted b.kind)) end }
      else b

  abbrev pub strip_blocks : Message → Content → Message
  strip_blocks m (plain s) = m
  strip_blocks m (blocks bs) =
      if any is_large bs then record m { content = blocks (map placeholder bs) } else m

  unfoldable pub strip_large_content : Message → Message
  strip_large_content m = strip_blocks m m.content

  -- the text of the summary; nothing is summarized if only boundaries are dropped
  abbrev pub summary_of : List Message → String
  summary_of [] = ""
  summary_of (m ∷ ms) = host_of.summarize (m ∷ ms)

  abbrev pub summary_message : Bool → String → ℕ → Message
  summary_message typed summary dropped = record {
    ident = host_of.new_ident;
    role = if typed then user else system;
    content = plain (host_of.summary_content summary);
    tool_call = none;
    tool_result = none;
    metadata = field "kind" (text "compaction_boundary") (
        field "summary" (text summary) (
          field "dropped_message_count" (int (pos dropped)) (
            if typed
            then field "origin" (text "summary") (field "trust" (text "untrusted_summary") end)
            else end)));
    timestamp = host_of.now;
  }

  -- `message in head`
  abbrev pub is_in : Message → List Message → Bool
  is_in m messages = any (λ x. host_of.equal m x) messages

  abbrev pub add_user : Option Message → List Message → List Message
  add_user none head = head
  add_user (some m) head = if is_in m head then head else head ++ m ∷ []

  -- the boundaries, and the summary if there was something to summarize
  abbrev pub with_summary : List Message → List Message → Message → List Message
  with_summary boundaries [] summary = boundaries
  with_summary boundaries (m ∷ ms) summary = boundaries ++ summary ∷ []

  -- the messages that the summarizer gets
  abbrev pub summary_input : List Message → List Message
  summary_input to_compact = map strip_large_content (keep_if (λ m. not (is_boundary m)) to_compact)

  -- what stands for the messages that are compacted
  unfoldable pub compacted_head : Bool → List Message → List Message
  compacted_head typed to_compact =
      let boundaries = keep_if is_boundary to_compact in
      let input = summary_input to_compact in
      let dropped = length to_compact - length boundaries in
      let summary = summary_message typed (summary_of input) dropped in
      add_user (last_user none to_compact) (with_summary boundaries input summary)

  -- `compact`
  unfoldable pub compact : ℕ → Conversation → Conversation
  compact keep_recent c =
      let split = split_index keep_recent c.messages in
      if leb (length c.messages) (keep_recent + 1) || split == 0 then c else record c {
        messages =
            compacted_head (any is_model_message c.messages) (take split c.messages)
            ++ drop split c.messages;
      }
