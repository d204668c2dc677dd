-- ===== src/Messages.antt =====
-- src/agent/message.c, src/session/session.c: the messages of a conversation, their deep copies, the JSON
-- array that they are stored as, and the way back. cJSON is an interface, `Json`; the allocations
-- inside these functions succeed (Branches takes a failure as that of the whole call).
pub mod Tests
pub mod Reload
pub mod Settle
use echo_ai_c.Base.{
  ℕ, ◌≡◌, Bool, true, false, Option, none, some, List, [], ◌∷◌, ◌++◌, map, Bytes, codes,
  bytes_eq_nocase, if◌then◌else◌,
}

-- Nodes `J` with numbers `N`. An array and an object are made of their items in the order of the calls
-- that add them; `value_string`, `value_number` and `items` are `none` for a node of another type.
pub record Json (J N : Type 0) : Type 0 where
  pub string : Bytes → J
  pub number : N → J
  pub array : List J → J
  pub object : List (Bytes × J) → J
  pub get_object_item : J → Bytes → Option J
  pub value_string : J → Option Bytes
  pub value_number : J → Option N
  pub items : J → Option (List J)
  pub print : J → Bytes
  pub parse : Bytes → Option J
  pub zero_number : N
  pub positive : N → Bool

-- The first field of a key, whose letters may be of either case.
unfoldable pub first_item {ℓ} : {J : Type ℓ} → List (Bytes × J) → Bytes → Option J
first_item [] k = none
first_item (f ∷ fs) k = if bytes_eq_nocase f.0 k then some f.1 else first_item fs k

-- What cJSON documents of nodes that it made itself, and of the text that it prints.
pub record Lawful {J N : Type 0} (json : Json J N) : Type 0 where
  pub item_of_object :
      (fs : List (Bytes × J)) (k : Bytes)
      → json.get_object_item (json.object fs) k ≡ first_item fs k
  pub string_of_string : (s : Bytes) → json.value_string (json.string s) ≡ some s
  pub number_of_number : (n : N) → json.value_number (json.number n) ≡ some n
  pub items_of_array : (xs : List J) → json.items (json.array xs) ≡ some xs
  pub parse-print : (j : J) → json.parse (json.print j) ≡ some j
  pub zero_not_positive : json.positive json.zero_number ≡ false

pub record ToolCall : Type 0 where
  pub id : Option Bytes
  pub name : Option Bytes
  pub arguments : Option Bytes
  pub result_content : Option Bytes
  pub result_error : Option Bytes

pub record Message (N : Type 0) : Type 0 where
  pub role : Option Bytes
  pub content : Option Bytes
  pub id : Option Bytes
  pub parent_id : Option Bytes
  pub fork_group_id : Option Bytes
  pub tool_calls : List ToolCall
  pub tool_call_id : Option Bytes
  pub tool_name : Option Bytes
  pub error_category : Option Bytes
  pub timestamp : N
  pub thinking : Option Bytes
  pub phase : Option Bytes
  pub provider_state : Option Bytes

-- `s ? s : ""`
abbrev pub or_empty : Option Bytes → Bytes
or_empty none = []
or_empty (some s) = s

-- The fields that are added, of those that may be.
abbrev pub present {ℓ} : {J : Type ℓ} → List (Bytes × Option J) → List (Bytes × J)
present [] = []
present ((k, none) ∷ r) = present r
present ((k, some j) ∷ r) = (k, j) ∷ present r

module _ {J N : Type 0} (json : Json J N) where
  abbrev pub string_item : Option Bytes → Option J
  string_item none = none
  string_item (some s) = some (json.string s)

  abbrev pub parsed_or_string : Bytes → Option J → J
  parsed_or_string s none = json.string s
  parsed_or_string s (some args) = args

  unfoldable pub arguments_item : Option Bytes → J
  arguments_item none = json.string []
  arguments_item (some s) = parsed_or_string s (json.parse s)

  unfoldable pub function_item : ToolCall → J
  unfolding arguments_item
  function_item tc = json.object (
      (codes "name", json.string (or_empty tc.name))
      ∷ (codes "arguments", arguments_item tc.arguments)
      ∷ [])

  unfoldable pub tool_call_fields : ToolCall → List (Bytes × Option J)
  unfolding function_item
  tool_call_fields tc =
      (codes "id", some (json.string (or_empty tc.id)))
      ∷ (codes "type", some (json.string (codes "function")))
      ∷ (codes "function", some (function_item tc))
      ∷ (codes "result_content", string_item tc.result_content)
      ∷ (codes "result_error", string_item tc.result_error)
      ∷ []

  unfoldable pub tool_call_to_json : ToolCall → J
  unfolding tool_call_fields
  tool_call_to_json tc = json.object (present (tool_call_fields tc))

  abbrev pub tool_calls_item : List ToolCall → Option J
  tool_calls_item [] = none
  tool_calls_item (tc ∷ tcs) = some (json.array (map tool_call_to_json (tc ∷ tcs)))

  unfoldable pub message_fields : Message N → List (Bytes × Option J)
  unfolding tool_call_to_json
  message_fields msg =
      (codes "role", some (json.string (or_empty msg.role)))
      ∷ (codes "content", some (json.string (or_empty msg.content)))
      ∷ (codes "thinking", string_item msg.thinking)
      ∷ (codes "phase", string_item msg.phase)
      ∷ (codes "provider_state", string_item msg.provider_state)
      ∷ (codes "tool_name", string_item msg.tool_name)
      ∷ (codes "error_category", string_item msg.error_category)
      ∷ (codes "id", string_item msg.id)
      ∷ (codes "parent_id", string_item msg.parent_id)
      ∷ (codes "fork_group_id", string_item msg.fork_group_id)
      ∷ (
        codes "timestamp",
        if json.positive msg.timestamp then some (json.number msg.timestamp) else none,
      )
      ∷ (codes "tool_calls", tool_calls_item msg.tool_calls)
      ∷ (codes "tool_call_id", string_item msg.tool_call_id)
      ∷ []

  unfoldable pub message_to_json : Message N → J
  unfolding message_fields
  message_to_json msg = json.object (present (message_fields msg))

  unfoldable pub messages_to_json_array : List (Message N) → J
  unfolding message_to_json
  messages_to_json_array msgs = json.array (map message_to_json msgs)

  -- `item && item->valuestring ? item->valuestring : NULL`
  abbrev pub value_text : Option J → Option Bytes
  value_text none = none
  value_text (some j) = json.value_string j

  unfoldable pub string_at : J → Bytes → Option Bytes
  string_at item k = value_text (json.get_object_item item k)

  abbrev pub item_in : Option J → Bytes → Option J
  item_in none k = none
  item_in (some item) k = json.get_object_item item k

  abbrev pub printed : Option J → Option Bytes
  printed none = none
  printed (some args) = some (json.print args)

  unfoldable pub tool_call_of_json : J → ToolCall
  unfolding string_at
  tool_call_of_json tc =
      let fn = json.get_object_item tc (codes "function") in
      record {
        id = string_at tc (codes "id");
        name = value_text (item_in fn (codes "name"));
        arguments = printed (item_in fn (codes "arguments"));
        result_content = string_at tc (codes "result_content");
        result_error = string_at tc (codes "result_error");
      }

  abbrev pub tool_calls_of : Option J → List ToolCall
  tool_calls_of none = []
  tool_calls_of (some arr) = elim (json.items arr) [
    | none ↦ []
    | some tcs ↦ map tool_call_of_json tcs
  ]

  abbrev pub timestamp_of : Option J → N
  timestamp_of none = json.zero_number
  timestamp_of (some j) = elim (json.value_number j) [ none ↦ json.zero_number | some n ↦ n ]

  unfoldable pub message_of_json : J → Message N
  unfolding string_at tool_call_of_json
  message_of_json item = record {
    role = some (or_empty (string_at item (codes "role")));
    content = some (or_empty (string_at item (codes "content")));
    id = string_at item (codes "id");
    parent_id = string_at item (codes "parent_id");
    fork_group_id = string_at item (codes "fork_group_id");
    tool_calls = tool_calls_of (json.get_object_item item (codes "tool_calls"));
    tool_call_id = string_at item (codes "tool_call_id");
    tool_name = string_at item (codes "tool_name");
    error_category = string_at item (codes "error_category");
    timestamp = timestamp_of (json.get_object_item item (codes "timestamp"));
    thinking = string_at item (codes "thinking");
    phase = string_at item (codes "phase");
    provider_state = string_at item (codes "provider_state");
  }

  abbrev pub messages_of : Option J → Option (List (Message N))
  messages_of none = none
  messages_of (some arr) = elim (json.items arr) [
    | none ↦ none
    | some msgs ↦ some (map message_of_json msgs)
  ]

  -- `none` leaves the messages of the session as they are.
  unfoldable pub session_deserialize_messages : Bytes → Option (List (Message N))
  unfolding message_of_json
  session_deserialize_messages text = messages_of (json.parse text)

  unfoldable pub session_serialize_messages_new : List (Message N) → Bytes
  unfolding messages_to_json_array
  session_serialize_messages_new msgs = json.print (messages_to_json_array msgs)

  -- The system prompt stands first, with its context two lines below.
  unfoldable pub prompt_item : Option Bytes → Option Bytes → List J
  prompt_item none context = []
  prompt_item (some prompt) none =
      json.object
        ((codes "role", json.string (codes "system")) ∷ (codes "content", json.string prompt) ∷ [])
      ∷ []
  prompt_item (some prompt) (some context) =
      json.object (
        (codes "role", json.string (codes "system"))
        ∷ (codes "content", json.string (prompt ++ (10 ∷ 10 ∷ context)))
        ∷ [])
      ∷ []

  unfoldable pub llm_messages_format_new : List (Message N) → Option Bytes → Option Bytes → Bytes
  unfolding prompt_item messages_to_json_array message_to_json
  llm_messages_format_new msgs prompt context =
      json.print (json.array (prompt_item prompt context ++ map message_to_json msgs))
