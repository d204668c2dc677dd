-- ===== src/WebSocket/Frame.antt =====
-- Frames of src/server/websocket.c: the header parser `ws_frame_header`, the unmasking loop, and
-- the frames that `ws_send` and `ws_send_control` build. A buffer is the list of its bytes; the
-- parser's position is the list of the bytes that it has not passed. Every value in a buffer is
-- a byte, so `|` of disjoint fields is `+`.
use Prim.Native.Nat.{bit_xor, bit_or}
use echo_ai_c.Base.{
  ℕ, zero, suc, ◌+◌, ◌*◌, ◌/◌, ◌%◌, ◌^◌, Bool, true, false, [], ◌∷◌, Option, none, some, ◌==◌, leb,
  if◌then◌else◌, Bytes, length, get_or, ◌>>=◌,
}

pub record Header : Type 0 where
  pub opcode : ℕ
  pub masked : Bool
  pub payload_len : ℕ
  pub mask_key : Bytes

-- The loop of eight rounds: `*payload_len = (*payload_len << 8) | data[*pos + i]` on 64 bits.
unfoldable pub read_be : ℕ → ℕ → Bytes → Option (ℕ × Bytes)
read_be zero acc bs = some (acc, bs)
read_be (suc n) acc [] = none
read_be (suc n) acc (b ∷ bs) = read_be n ((acc * 256 + b) % 2 ^ 64) bs

-- The length that follows the second byte's seven bits.
unfoldable pub read_length : ℕ → Bytes → Option (ℕ × Bytes)
unfolding read_be
read_length n bs =
    if n == 126 then read_be 2 0 bs else if n == 127 then read_be 8 0 bs else some (n, bs)

unfoldable pub read_key : Bytes → Option (Bytes × Bytes)
read_key (a ∷ b ∷ c ∷ d ∷ bs) = some (a ∷ b ∷ c ∷ d ∷ [], bs)
read_key _ = none

unfoldable pub read_mask : Bool → Bytes → Option (Bytes × Bytes)
unfolding read_key
read_mask true bs = read_key bs
read_mask false bs = some ([], bs)

-- `none` where the buffer ends within the header.
unfoldable pub frame_header : Bytes → Option (Header × Bytes)
unfolding read_length read_mask
frame_header (first ∷ second ∷ bs) = do
  (len, more) ← read_length (second % 128) bs
  (key, rest) ← read_mask (second / 128 % 2 == 1) more
  some (
    record {
      opcode = first % 16;
      masked = second / 128 % 2 == 1;
      payload_len = len;
      mask_key = key;
    },
    rest,
  )
frame_header _ = none

-- `payload[i] ^= mask_key[i % 4]`, from index `i` on.
unfoldable pub unmask : Bytes → ℕ → Bytes → Bytes
unmask key i [] = []
unmask key i (b ∷ bs) = bit_xor b (get_or key (i % 4) 0) ∷ unmask key (i + 1) bs

-- The bytes before the payload in a frame of `ws_send`.
unfoldable pub send_header : ℕ → Bytes
send_header len =
    if leb len 125
    then 0x81 ∷ len % 256 ∷ []
    else if leb len 65535
    then 0x81 ∷ 126 ∷ len / 2 ^ 8 % 256 ∷ len % 256 ∷ []
    else 0x81
      ∷ 127
      ∷ len / 2 ^ 56 % 256
      ∷ len / 2 ^ 48 % 256
      ∷ len / 2 ^ 40 % 256
      ∷ len / 2 ^ 32 % 256
      ∷ len / 2 ^ 24 % 256
      ∷ len / 2 ^ 16 % 256
      ∷ len / 2 ^ 8 % 256
      ∷ len % 256
      ∷ []

-- `header_size`, the room that `ws_send` allocates in front of the payload.
unfoldable pub header_size : ℕ → ℕ
header_size len = let two = if leb len 125 then 2 else 4 in if leb len 65535 then two else two + 8

unfoldable pub control_frame : ℕ → Bytes → Bytes
control_frame opcode payload = bit_or 0x80 opcode ∷ length payload % 256 ∷ payload
