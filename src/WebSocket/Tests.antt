-- ===== src/WebSocket/Tests.antt =====
-- The websocket theorems at concrete inputs.
use echo_ai_c.Base.{◌≡◌, ◌+◌, refl, true, false, some, [], ◌∷◌, List, arith, codes}
use echo_ai_c.WebSocket.{Client, Env, Event, message, broken, received, ws_read_cb, ws_send}
use echo_ai_c.WebSocket.Close.{read_all, closings, armed, read_all-closes_once}
use echo_ai_c.WebSocket.Receive.{DataFrame, IsFrame, encode_all, messages, ws_read_cb-messages}

abbrev env : Env
env = record {
  now = 7;
  alloc_frame = true;
  alloc_request = true;
  write_ok = true;
  alloc_text = true;
}

abbrev ws : Client
ws = record { handle = true; on_message = true; on_close = true; ping_timer = true; last_pong = 0 }

abbrev hello : DataFrame
hello = record { binary = false; k0 = 1; k1 = 2; k2 = 3; k3 = 4; payload = codes "hello" }

hello-IsFrame : IsFrame hello
hello-IsFrame = record { key_bytes = omega arith; payload_bytes = omega arith; short = omega arith }

hello_run :
    ws_read_cb env ws (received (0x81 ∷ 0x85 ∷ 1 ∷ 2 ∷ 3 ∷ 4 ∷ 105 ∷ 103 ∷ 111 ∷ 104 ∷ 110 ∷ []))
    ≡ some (ws, message (codes "hello") ∷ [])
unfolding ws_read_cb
hello_run = refl

sent : ws_send env ws (codes "ok") ≡ some (0x81 ∷ 2 ∷ codes "ok")
unfolding ws_send
sent = refl

ws_read_cb-messages_example :
    ws_read_cb env ws (received (encode_all (hello ∷ hello ∷ [])))
    ≡ some (ws, messages (hello ∷ hello ∷ []))
ws_read_cb-messages_example =
    ws_read_cb-messages env ws (hello ∷ hello ∷ []) refl refl (hello-IsFrame, (hello-IsFrame, tt))

read_all-closes_once_example :
    (last : Client) × (es : List Event) × (read_all ws
        ((env, received (0x88 ∷ 0 ∷ [])) ∷ (env, broken) ∷ [])
      ≡ some (last, es))
    × (closings es + armed last ≡ armed ws)
read_all-closes_once_example =
    read_all-closes_once ws ((env, received (0x88 ∷ 0 ∷ [])) ∷ (env, broken) ∷ [])
