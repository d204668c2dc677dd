-- ===== src/WebSocket/Codec.antt =====
-- What `ws_send` hands to libuv, a frame parser reads back.
use echo_ai_c.Base.{
  ℕ, ◌+◌, ◌^◌, ◌<◌, ◌≤◌, ◌≡◌, arith, false, [], ◌++◌, some, Bytes, length, length-append,
}
use echo_ai_c.WebSocket.Frame.{Header, frame_header, send_header, header_size}
use echo_ai_c.WebSocket.{Client, Env, ws_send}

abbrev pub text_header : ℕ → Header
text_header len = record { opcode = 1; masked = false; payload_len = len; mask_key = [] }

frame_header-send_header :
    (len : ℕ) (rest : Bytes)
    → len < 2 ^ 64
    → (frame_header (send_header len ++ rest) ≡ some (text_header len, rest))
      × (length (send_header len) ≤ header_size len)
unfolding frame_header send_header header_size
frame_header-send_header len rest h = ground arith

-- The bytes that `ws_send` writes for a payload shorter than 2^64 parse as an unmasked text frame
-- whose length is that of the payload and behind whose header the payload stands, and they fit
-- the `header_size + len` bytes that it allocates.
pub ws_send-frame_header :
    (env : Env) (ws : Client) (payload frame : Bytes)
    → length payload < 2 ^ 64
    → ws_send env ws payload ≡ some frame
    → (frame_header frame ≡ some (text_header (length payload), payload))
      × (length frame ≤ header_size (length payload) + length payload)
unfolding ws_send
ws_send-frame_header env ws payload frame h e = ground (
  arith,
  frame_header-send_header (length payload) payload h,
  length-append (send_header (length payload)) payload,
)
