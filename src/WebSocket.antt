-- ===== src/WebSocket.antt =====
-- src/server/websocket.c: the read callback over received bytes, and the sending functions.
-- `Client` holds what the code keeps of a connection: whether the two callbacks and the handle
-- are set, whether the ping timer runs, and the time of the last pong. What the code hands to libuv or
-- to a callback is a list of events. `Env` holds the clock and the outcomes of `malloc` and of
-- `uv_write`, the same for all calls of one read.
mod Tests
pub mod Frame
pub mod Codec
pub mod Receive
pub mod Close
use echo_ai_c.Base.{
  ℕ, zero, suc, ◌+◌, ◌-◌, ◌/◌, ◌%◌, ◌^◌, Bool, true, false, ◌&&◌, ◌||◌, List, [], ◌∷◌, ◌++◌, Option,
  none, some, ◌==◌, leb, ltb, if◌then◌else◌, Bytes, length, take, drop, ◌>>=◌,
}
use Frame.{Header, frame_header, unmask, send_header, header_size, control_frame}

pub record Client : Type 0 where
  pub handle : Bool
  pub on_message : Bool
  pub on_close : Bool
  pub ping_timer : Bool
  pub last_pong : ℕ

pub record Env : Type 0 where
  pub now : ℕ
  pub alloc_frame : Bool
  pub alloc_request : Bool
  pub write_ok : Bool
  pub alloc_text : Bool

pub data Event : Type 0 where
  -- `uv_write` of these bytes
  writes : Bytes → Event
  -- the callbacks
  message : Bytes → Event
  closes : Event
  -- `client_close`
  drops_client : Event

-- The bytes handed to `uv_write`; `none` for the result -1.
pub ws_send_control : Env → Client → ℕ → Bytes → Option Bytes
unfolding control_frame
ws_send_control env ws opcode payload =
    if ws.handle && leb (length payload) 125 && env.alloc_frame && env.alloc_request && env.write_ok
    then some (control_frame opcode payload)
    else none

pub ws_send_close : Env → Client → ℕ → Option Bytes
unfolding ws_send_control
ws_send_close env ws status = ws_send_control env ws 0x8 (status / 2 ^ 8 % 256 ∷ status % 256 ∷ [])

pub ws_ping_timer : Env → Client → Option Bytes
unfolding ws_send_control
ws_ping_timer env ws = ws_send_control env ws 0x9 []

-- `len > SIZE_MAX - header_size` is refused.
pub ws_send : Env → Client → Bytes → Option Bytes
unfolding send_header header_size
ws_send env ws payload =
    if ws.handle
      && leb (length payload) (2 ^ 64 - 1 - header_size (length payload))
      && env.alloc_frame
      && env.alloc_request
      && env.write_ok
    then some (send_header (length payload) ++ payload)
    else none

-- `ws_start_ping_timer` where libuv gives the timer, and `ws_stop_ping_timer`.
pub ws_start_ping_timer : Env → Client → Client
ws_start_ping_timer env ws = record ws { last_pong = env.now; ping_timer = true }

pub ws_stop_ping_timer : Client → Client
ws_stop_ping_timer ws = record ws { ping_timer = false }

-- The timer is stopped, and the callback is cleared before it is called.
pub fire_close : Client → Client × List Event
unfolding ws_stop_ping_timer
fire_close ws =
    if ws.on_close
    then (record (ws_stop_ping_timer ws) { on_close = false }, closes ∷ [])
    else (ws_stop_ping_timer ws, [])

pub pong_events : Env → Client → Bytes → List Event
unfolding ws_send_control
pong_events env ws payload = elim (ws_send_control env ws 0xA payload) [
  | none ↦ []
  | some frame ↦ writes frame ∷ []
]

-- What a text or binary frame passes to `on_message`.
pub deliver : Env → Client → Header → Bytes → List Event
unfolding unmask
deliver env ws h payload =
    if ws.on_message && env.alloc_text
    then message (if h.masked then unmask h.mask_key 0 payload else payload) ∷ []
    else []

-- The loop over the frames of one buffer, on fuel; `none` if the fuel runs out.
pub read_frames : ℕ → Env → Client → Bytes → Option (Client × List Event)
unfolding frame_header fire_close pong_events deliver
read_frames zero env ws bs = none
read_frames (suc fuel) env ws [] = some (ws, [])
read_frames (suc fuel) env ws (b ∷ bs) = elim (frame_header (b ∷ bs)) [
  | none ↦ some (ws, [])
  | some (h, rest) ↦
      let payload = take h.payload_len rest in
      let more = read_frames fuel env ws (drop h.payload_len rest) in
      if ltb (length rest) h.payload_len
      then some (ws, [])
      else if h.opcode == 0x8
      then some (fire_close ws)
      else if h.opcode == 0x9
      then some (ws, pong_events env ws payload)
      else if h.opcode == 0xA
      then some (record ws { last_pong = env.now }, [])
      else if h.opcode == 0x1 || h.opcode == 0x2
      then (more >>= λ r. some (r.0, deliver env ws h payload ++ r.1))
      else more
]

-- What libuv passes to the callback: an error, nothing, or bytes.
pub data Input : Type 0 where
  broken : Input
  idle : Input
  received : Bytes → Input

pub ws_read_cb : Env → Client → Input → Option (Client × List Event)
unfolding read_frames fire_close
ws_read_cb env ws broken =
    let (ws', events) = fire_close ws in some (ws', events ++ drops_client ∷ [])
ws_read_cb env ws idle = some (ws, [])
ws_read_cb env ws (received bs) = read_frames (suc (length bs)) env ws bs
