-- ===== src/Messages/Reload.antt =====
-- What a message is after it has been stored and loaded.
use echo_ai_c.Base.{
  ◌≡◌, refl, ap, ◌∙◌, Bool, true, false, Bool-cases, inl, inr, Option, none, some, List, [], ◌∷◌,
  map, Bytes, codes, bytes_eq_nocase, if◌then◌else◌,
}
use echo_ai_c.Messages.{
  Json, Lawful, ToolCall, Message, first_item, or_empty, present, string_item, arguments_item,
  function_item, value_text, item_in, printed, tool_call_fields, tool_call_to_json, tool_calls_item,
  message_fields, message_to_json, messages_to_json_array, string_at, tool_call_of_json,
  tool_calls_of, timestamp_of, message_of_json, messages_of, session_deserialize_messages,
  session_serialize_messages_new,
}

-- The item of a key among fields of which some are left out.
abbrev item_at : {J : Type 0} → List (Bytes × Option J) → Bytes → Option J
item_at [] k = none
item_at ((k', o) ∷ r) k =
    if bytes_eq_nocase k' k then (elim o [ none ↦ item_at r k | some j ↦ some j ]) else item_at r k

first_item-present :
    {J : Type 0} (fs : List (Bytes × Option J)) (k : Bytes)
    → first_item (present fs) k ≡ item_at fs k
unfolding first_item
first_item-present [] k = refl
first_item-present ((k', none) ∷ r) k = elim (Bool-cases (bytes_eq_nocase k' k)) [
  | inl t ↦ rw t (first_item-present r k)
  | inr f ↦ rw f (first_item-present r k)
]
first_item-present ((k', some j) ∷ r) k = elim (Bool-cases (bytes_eq_nocase k' k)) [
  | inl t ↦ rw t refl
  | inr f ↦ rw f (first_item-present r k)
]

module _ {J N : Type 0} (json : Json J N) where
  -- The arguments of a call become the text that cJSON prints for them, or for the string that holds them.
  abbrev pub reloaded_call : ToolCall → ToolCall
  reloaded_call tc = record tc {
    id = some (or_empty tc.id);
    name = some (or_empty tc.name);
    arguments = some (json.print (arguments_item json tc.arguments));
  }

  -- A missing role or text becomes the empty one, and a time that is not positive becomes zero.
  abbrev pub reloaded : Message N → Message N
  reloaded msg = record msg {
    role = some (or_empty msg.role);
    content = some (or_empty msg.content);
    tool_calls = map reloaded_call msg.tool_calls;
    timestamp = if json.positive msg.timestamp then msg.timestamp else json.zero_number;
  }

  module _ (lawful : Lawful json) where
    item_of_fields :
        (fs : List (Bytes × Option J)) (k : Bytes)
        → json.get_object_item (json.object (present fs)) k ≡ item_at fs k
    item_of_fields fs k = lawful.item_of_object (present fs) k ∙ first_item-present fs k

    string_at-item_at :
        (fs : List (Bytes × Option J)) (k : Bytes)
        → string_at json (json.object (present fs)) k ≡ value_text json (item_at fs k)
    unfolding string_at
    string_at-item_at fs k = ap (value_text json) (item_of_fields fs k)

    abbrev as_item : Option J → Option J
    as_item o = elim o [ none ↦ none | some j ↦ some j ]

    value_text-string_item : (o : Option Bytes) → value_text json (as_item (string_item json o)) ≡ o
    value_text-string_item none = refl
    value_text-string_item (some s) = lawful.string_of_string s

    string_field :
        (fs : List (Bytes × Option J)) (k : Bytes) (o : Option Bytes)
        → item_at fs k ≡ as_item (string_item json o)
        → string_at json (json.object (present fs)) k ≡ o
    string_field fs k o e =
        string_at-item_at fs k ∙ ap (value_text json) e ∙ value_text-string_item o

    module _ (tc : ToolCall) where
      fn_field :
          json.get_object_item (tool_call_to_json json tc) (codes "function")
          ≡ some (function_item json tc)
      unfolding tool_call_to_json tool_call_fields bytes_eq_nocase
      fn_field = item_of_fields (tool_call_fields json tc) (codes "function")

      call_name :
          json.get_object_item (function_item json tc) (codes "name")
          ≡ some (json.string (or_empty tc.name))
      unfolding function_item first_item bytes_eq_nocase
      call_name = lawful.item_of_object _ (codes "name")

      call_arguments :
          json.get_object_item (function_item json tc) (codes "arguments")
          ≡ some (arguments_item json tc.arguments)
      unfolding function_item first_item bytes_eq_nocase
      call_arguments = lawful.item_of_object _ (codes "arguments")

      call_name_text :
          value_text json (
            item_in json
              (json.get_object_item (tool_call_to_json json tc) (codes "function"))
              (codes "name"))
          ≡ some (or_empty tc.name)
      call_name_text =
          ap (λ o. value_text json (item_in json o (codes "name"))) fn_field
          ∙ (ap (value_text json) call_name ∙ lawful.string_of_string (or_empty tc.name))

      call_arguments_text :
          printed json (
            item_in json
              (json.get_object_item (tool_call_to_json json tc) (codes "function"))
              (codes "arguments"))
          ≡ some (json.print (arguments_item json tc.arguments))
      call_arguments_text =
          ap (λ o. printed json (item_in json o (codes "arguments"))) fn_field
          ∙ ap (printed json) call_arguments

      pub tool_call_of_json-tool_call_to_json :
          tool_call_of_json json (tool_call_to_json json tc) ≡ reloaded_call tc
      unfolding tool_call_of_json tool_call_to_json tool_call_fields bytes_eq_nocase
      tool_call_of_json-tool_call_to_json =
          let fs = tool_call_fields json tc in
          λ i. record {
            id = string_field fs (codes "id") (some (or_empty tc.id)) refl i;
            name = call_name_text i;
            arguments = call_arguments_text i;
            result_content = string_field fs (codes "result_content") tc.result_content refl i;
            result_error = string_field fs (codes "result_error") tc.result_error refl i;
          }

    tool_calls_reload :
        (tcs : List ToolCall)
        → map (tool_call_of_json json) (map (tool_call_to_json json) tcs) ≡ map reloaded_call tcs
    tool_calls_reload [] = refl
    tool_calls_reload (tc ∷ tcs) =
        λ i. tool_call_of_json-tool_call_to_json tc i ∷ tool_calls_reload tcs i

    tool_calls_of-item :
        (tcs : List ToolCall)
        → tool_calls_of json (as_item (tool_calls_item json tcs)) ≡ map reloaded_call tcs
    tool_calls_of-item [] = refl
    tool_calls_of-item (tc ∷ tcs) =
        rw (lawful.items_of_array (map (tool_call_to_json json) (tc ∷ tcs)))
          (tool_calls_reload (tc ∷ tcs))

    timestamp_of-item :
        (positive : Bool) (t : N)
        → timestamp_of json (as_item (if positive then some (json.number t) else none))
          ≡ (if positive then t else json.zero_number)
    timestamp_of-item true t = rw (lawful.number_of_number t)
    timestamp_of-item false t = refl

    module _ (msg : Message N) where
      calls_field :
          json.get_object_item (message_to_json json msg) (codes "tool_calls")
          ≡ as_item (tool_calls_item json msg.tool_calls)
      unfolding message_to_json message_fields bytes_eq_nocase
      calls_field = item_of_fields (message_fields json msg) (codes "tool_calls")

      timestamp_field :
          json.get_object_item (message_to_json json msg) (codes "timestamp")
          ≡ as_item (if json.positive msg.timestamp then some (json.number msg.timestamp) else none)
      unfolding message_to_json message_fields bytes_eq_nocase
      timestamp_field = item_of_fields (message_fields json msg) (codes "timestamp")

      pub message_of_json-message_to_json :
          message_of_json json (message_to_json json msg) ≡ reloaded msg
      unfolding message_of_json message_to_json message_fields bytes_eq_nocase
      message_of_json-message_to_json =
          let fs = message_fields json msg in
          let field = string_field fs in
          λ i. record {
            role = some (or_empty (field (codes "role") (some (or_empty msg.role)) refl i));
            content =
                some (or_empty (field (codes "content") (some (or_empty msg.content)) refl i));
            id = field (codes "id") msg.id refl i;
            parent_id = field (codes "parent_id") msg.parent_id refl i;
            fork_group_id = field (codes "fork_group_id") msg.fork_group_id refl i;
            tool_calls =
                (ap (tool_calls_of json) calls_field ∙ tool_calls_of-item msg.tool_calls) i;
            tool_call_id = field (codes "tool_call_id") msg.tool_call_id refl i;
            tool_name = field (codes "tool_name") msg.tool_name refl i;
            error_category = field (codes "error_category") msg.error_category refl i;
            timestamp =
                (ap (timestamp_of json) timestamp_field
                    ∙ timestamp_of-item (json.positive msg.timestamp) msg.timestamp)
                  i;
            thinking = field (codes "thinking") msg.thinking refl i;
            phase = field (codes "phase") msg.phase refl i;
            provider_state = field (codes "provider_state") msg.provider_state refl i;
          }

    messages_reload :
        (msgs : List (Message N))
        → map (message_of_json json) (map (message_to_json json) msgs) ≡ map reloaded msgs
    messages_reload [] = refl
    messages_reload (msg ∷ msgs) =
        λ i. message_of_json-message_to_json msg i ∷ messages_reload msgs i

    -- What is loaded of messages that were stored is each of them with an empty text for a missing role or content,
    -- a time of zero for one that is not positive, and tool calls with an empty text for a missing id or name
    -- and with the printed JSON of their arguments, or of the string that they are, where they are no JSON.
    pub session_deserialize_messages-session_serialize_messages_new :
        (msgs : List (Message N))
        → session_deserialize_messages json (session_serialize_messages_new json msgs)
          ≡ some (map reloaded msgs)
    unfolding session_deserialize_messages session_serialize_messages_new messages_to_json_array
    session_deserialize_messages-session_serialize_messages_new msgs =
        ap (messages_of json) (lawful.parse-print (messages_to_json_array json msgs))
        ∙ rw (lawful.items_of_array (map (message_to_json json) msgs), messages_of)
            (ap some (messages_reload msgs))
