-- ===== src/Messages/Settle.antt =====
-- What a loaded message is stored as: the very text that it was loaded from.
use echo_ai_c.Base.{
  ◌≡◌, refl, subst, ap, ◌∙◌, Bool-cases, inl, inr, Option, none, some, List, [], ◌∷◌, map, Bytes,
  codes, if◌then◌else◌,
}
use echo_ai_c.Messages.{
  Json, Lawful, ToolCall, Message, or_empty, present, string_item, arguments_item, function_item,
  tool_call_fields, tool_call_to_json, tool_calls_item, message_fields, message_to_json,
  messages_to_json_array, parsed_or_string, session_deserialize_messages,
  session_serialize_messages_new,
}
use echo_ai_c.Messages.Reload.{
  reloaded, reloaded_call, session_deserialize_messages-session_serialize_messages_new,
}

module _ {J N : Type 0} (json : Json J N) (lawful : Lawful json) where
  arguments_again :
      (o : Option Bytes)
      → arguments_item json (some (json.print (arguments_item json o))) ≡ arguments_item json o
  unfolding arguments_item
  arguments_again o =
      let node = arguments_item json o in
      ap (parsed_or_string json (json.print node)) (lawful.parse-print node)

  stored_call_again :
      (tc : ToolCall) → tool_call_to_json json (reloaded_call json tc) ≡ tool_call_to_json json tc
  unfolding tool_call_to_json tool_call_fields function_item
  stored_call_again tc =
      ap
        (λ args. json.object (
          present (
            (codes "id", some (json.string (or_empty tc.id)))
            ∷ (codes "type", some (json.string (codes "function")))
            ∷ (
              codes "function",
              some (
                  json.object (
                    (codes "name", json.string (or_empty tc.name))
                    ∷ (codes "arguments", args)
                    ∷ [])),
            )
            ∷ (codes "result_content", string_item json tc.result_content)
            ∷ (codes "result_error", string_item json tc.result_error)
            ∷ [])))
        (arguments_again tc.arguments)

  stored_calls_again :
      (tcs : List ToolCall)
      → map (tool_call_to_json json) (map (reloaded_call json) tcs)
        ≡ map (tool_call_to_json json) tcs
  stored_calls_again [] = refl
  stored_calls_again (tc ∷ tcs) = λ i. stored_call_again tc i ∷ stored_calls_again tcs i

  calls_item_again :
      (tcs : List ToolCall)
      → tool_calls_item json (map (reloaded_call json) tcs) ≡ tool_calls_item json tcs
  calls_item_again [] = refl
  calls_item_again (tc ∷ tcs) = ap (λ l. some (json.array l)) (stored_calls_again (tc ∷ tcs))

  time_again :
      (t : N)
      → (if json.positive (if json.positive t then t else json.zero_number)
          then some (json.number (if json.positive t then t else json.zero_number))
          else none)
        ≡ (if json.positive t then some (json.number t) else none)
  time_again t = elim (Bool-cases (json.positive t)) [
    | inl p ↦ rw (p, p) refl
    | inr z ↦ rw (z, lawful.zero_not_positive) refl
  ]

  fields_again :
      (msg : Message N) → message_fields json (reloaded json msg) ≡ message_fields json msg
  unfolding message_fields
  fields_again msg = λ i.
      (codes "role", some (json.string (or_empty msg.role)))
      ∷ (codes "content", some (json.string (or_empty msg.content)))
      ∷ (codes "thinking", string_item json msg.thinking)
      ∷ (codes "phase", string_item json msg.phase)
      ∷ (codes "provider_state", string_item json msg.provider_state)
      ∷ (codes "tool_name", string_item json msg.tool_name)
      ∷ (codes "error_category", string_item json msg.error_category)
      ∷ (codes "id", string_item json msg.id)
      ∷ (codes "parent_id", string_item json msg.parent_id)
      ∷ (codes "fork_group_id", string_item json msg.fork_group_id)
      ∷ (codes "timestamp", time_again msg.timestamp i)
      ∷ (codes "tool_calls", calls_item_again msg.tool_calls i)
      ∷ (codes "tool_call_id", string_item json msg.tool_call_id)
      ∷ []

  -- A message that was loaded is stored as the one that it was loaded from.
  pub message_to_json-reloaded :
      (msg : Message N) → message_to_json json (reloaded json msg) ≡ message_to_json json msg
  unfolding message_to_json
  message_to_json-reloaded msg = ap (λ fs. json.object (present fs)) (fields_again msg)

  pub stored_again :
      (msgs : List (Message N))
      → map (message_to_json json) (map (reloaded json) msgs) ≡ map (message_to_json json) msgs
  stored_again [] = refl
  stored_again (msg ∷ msgs) = λ i. message_to_json-reloaded msg i ∷ stored_again msgs i

  -- Messages that were stored and loaded are the same after they are stored and loaded again.
  pub reload_settles :
      (msgs again : List (Message N))
      → session_deserialize_messages json (session_serialize_messages_new json msgs) ≡ some again
      → session_deserialize_messages json (session_serialize_messages_new json again) ≡ some again
  reload_settles msgs again h =
      let back = session_deserialize_messages-session_serialize_messages_new json lawful in
      let same : session_serialize_messages_new json (map (reloaded json) msgs)
          ≡ session_serialize_messages_new json msgs =
        unfold session_serialize_messages_new messages_to_json_array in
        ap (λ l. json.print (json.array l)) (stored_again msgs) in
      let loaded : map (reloaded json) msgs ≡ again = cc (back msgs) in
      subst
        (λ l. session_deserialize_messages json (session_serialize_messages_new json l) ≡ some l)
        loaded (ap (session_deserialize_messages json) same ∙ back msgs)
