-- ===== src/Messages/Tests.antt =====
-- Nodes that are coded by their text, and messages that are stored and loaded.
use echo_ai_c.Base.{
  ℕ, zero, suc, ◌≤◌, ◌≡◌, refl, ap, ◌∙◌, arith, Option, none, some, List, [], ◌∷◌, ◌++◌, map, Bytes,
  codes, ltb, ◌==◌, if◌then◌else◌, bytes_eq_nocase, length, length-append, take, drop, take-append,
  drop-append,
}
use echo_ai_c.Messages.{
  Json, Lawful, ToolCall, Message, first_item, arguments_item, session_deserialize_messages,
  session_serialize_messages_new,
}
use echo_ai_c.Messages.Reload.{
  reloaded, session_deserialize_messages-session_serialize_messages_new,
}
use echo_ai_c.Messages.Settle.{reload_settles}

-- Texts behind their lengths.
abbrev frames : List Bytes → Bytes
frames [] = []
frames (x ∷ xs) = length x ∷ (x ++ frames xs)

abbrev unframed : ℕ → Bytes → List Bytes
unframed zero b = []
unframed (suc f) [] = []
unframed (suc f) (n ∷ r) = take n r ∷ unframed f (drop n r)

unframed-frames : (xs : List Bytes) (f : ℕ) → length xs ≤ f → unframed f (frames xs) ≡ xs
unframed-frames [] zero h = refl
unframed-frames [] (suc f) h = refl
unframed-frames (x ∷ xs) zero h = absurd (omega arith)
unframed-frames (x ∷ xs) (suc f) h =
    rw (take-append x (frames xs) (length x) refl, drop-append x (frames xs) (length x) refl)
      (ap (◌∷◌ x) (unframed-frames xs f (omega arith)))

length-frames-le : (xs : List Bytes) → length xs ≤ length (frames xs)
length-frames-le [] = omega arith
length-frames-le (x ∷ xs) = omega (arith, length-append x (frames xs), length-frames-le xs)

abbrev flat : List (Bytes × Bytes) → List Bytes
flat [] = []
flat ((k, v) ∷ r) = k ∷ v ∷ flat r

abbrev paired : List Bytes → List (Bytes × Bytes)
paired [] = []
paired (k ∷ []) = []
paired (k ∷ v ∷ r) = (k, v) ∷ paired r

paired-flat : (fs : List (Bytes × Bytes)) → paired (flat fs) ≡ fs
paired-flat [] = refl
paired-flat ((k, v) ∷ r) = ap (◌∷◌ (k, v)) (paired-flat r)

abbrev item_of : Bytes → Bytes → Option Bytes
item_of [] k = none
item_of (c ∷ b) k = first_item (paired (unframed (length b) b)) k

-- A node's text: a mark, then its content.
abbrev text_in : Bytes → Option Bytes
text_in [] = none
text_in (c ∷ b) = if c == 1 then some b else none

abbrev number_in : Bytes → Option ℕ
number_in [] = none
number_in (c ∷ []) = none
number_in (c ∷ n ∷ b) = if c == 2 then some n else none

abbrev items_in : Bytes → Option (List Bytes)
items_in [] = none
items_in (c ∷ b) = if c == 3 then some (unframed (length b) b) else none

abbrev pub coded : Json Bytes ℕ
coded = record {
  string = λ s. 1 ∷ s;
  number = λ n. 2 ∷ n ∷ [];
  array = λ xs. 3 ∷ frames xs;
  object = λ fs. 4 ∷ frames (flat fs);
  get_object_item = item_of;
  value_string = text_in;
  value_number = number_in;
  items = items_in;
  print = λ j. j;
  parse = λ b. some b;
  zero_number = 0;
  positive = ltb 0;
}

content_back : (xs : List Bytes) → unframed (length (frames xs)) (frames xs) ≡ xs
content_back xs = unframed-frames xs (length (frames xs)) (length-frames-le xs)

pub coded-Lawful : Lawful coded
coded-Lawful = record {
  item_of_object = λ fs k.
      ap (λ xs. first_item (paired xs) k) (content_back (flat fs))
      ∙ ap (λ l. first_item l k) (paired-flat fs);
  string_of_string = λ s. refl;
  number_of_number = λ n. refl;
  items_of_array = λ xs. ap some (content_back xs);
  parse-print = λ j. refl;
  zero_not_positive = refl;
}

-- Arguments that are no JSON, for the coded nodes: the text that is printed starts with a mark.
abbrev pub call : ToolCall
call = record {
  id = some (codes "c1");
  name = none;
  arguments = none;
  result_content = some (codes "ok");
  result_error = none;
}

abbrev pub message : Option Bytes → Option Bytes → List ToolCall → ℕ → Message ℕ
message role content calls time = record {
  role = role;
  content = content;
  id = some (codes "m1");
  parent_id = none;
  fork_group_id = none;
  tool_calls = calls;
  tool_call_id = none;
  tool_name = none;
  error_category = none;
  timestamp = time;
  thinking = none;
  phase = some (codes "p");
  provider_state = none;
}

abbrev talk : List (Message ℕ)
talk =
    message (some (codes "user")) (some (codes "hi")) [] 5
    ∷ message (some (codes "assistant")) none (call ∷ []) 0
    ∷ []

session_deserialize_messages-session_serialize_messages_new_example :
    session_deserialize_messages coded (session_serialize_messages_new coded talk)
    ≡ some (map (reloaded coded) talk)
session_deserialize_messages-session_serialize_messages_new_example =
    session_deserialize_messages-session_serialize_messages_new coded coded-Lawful talk

reload_settles_example :
    session_deserialize_messages coded
      (session_serialize_messages_new coded (map (reloaded coded) talk))
    ≡ some (map (reloaded coded) talk)
reload_settles_example =
    reload_settles coded coded-Lawful talk (map (reloaded coded) talk)
      (session_deserialize_messages-session_serialize_messages_new coded coded-Lawful talk)

-- A message that has no content and calls that have no name come back with empty ones.
loads_a_call :
    session_deserialize_messages coded
      (session_serialize_messages_new coded (message none none (call ∷ []) 0 ∷ []))
    ≡ some (
        record (message (some []) (some []) [] 0) {
          tool_calls = record call { name = some []; arguments = some (1 ∷ []) } ∷ [];
        }
        ∷ [])
unfolding session_deserialize_messages session_serialize_messages_new first_item arguments_item
    bytes_eq_nocase
loads_a_call = refl
