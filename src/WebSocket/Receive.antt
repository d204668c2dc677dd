-- ===== src/WebSocket/Receive.antt =====
-- What a client's frames become: the text of a masked frame, pings, and frames cut by a read.
use Prim.Native.Nat.{bit_xor}
use echo_ai_c.Base.{
  passes, passes-at, ℕ, zero, suc, ◌+◌, ◌/◌, ◌%◌, ◌^◌, ◌<◌, ◌≤◌, ◌≡◌, refl, sym, ◌∙◌, ap, arith,
  Bool, true, List, [], ◌∷◌, ◌++◌, some, Bytes, ◌==◌, All, ==_iff, leb, length, length-append,
  take-append, drop-append, get_or, append_assoc, ◌>>=◌, if◌then◌else◌,
}
use echo_ai_c.WebSocket.Frame.{Header, frame_header, unmask, control_frame}
use echo_ai_c.WebSocket.{
  Client, Env, Event, writes, message, pong_events, deliver, read_frames, received, ws_read_cb,
  ws_send_control,
}

abbrev restores : ℕ → ℕ → Bool
restores x k = bit_xor (bit_xor x k) k == x

xor_table : passes (λ x. passes (restores x) 256) 256 ≡ true
unfolding passes
xor_table = refl

bit_xor_twice : (x k : ℕ) → x < 256 → k < 256 → bit_xor (bit_xor x k) k ≡ x
bit_xor_twice x k hx hk =
    let row = passes-at (λ y. passes (restores y) 256) 256 x hx xor_table in
    (==_iff (bit_xor (bit_xor x k) k) x).0 (passes-at (restores x) 256 k hk row)

abbrev pub IsBytes : Bytes → Type 0
IsBytes = All (λ b. b < 256)

abbrev pub key_of : ℕ → ℕ → ℕ → ℕ → Bytes
key_of a b c d = a ∷ b ∷ c ∷ d ∷ []

key_byte-lt : (a b c d r : ℕ) → IsBytes (key_of a b c d) → r < 4 → get_or (key_of a b c d) r 0 < 256
key_byte-lt a b c d zero h l = h.0
key_byte-lt a b c d (suc zero) h l = h.1.0
key_byte-lt a b c d (suc (suc zero)) h l = h.1.1.0
key_byte-lt a b c d (suc (suc (suc zero))) h l = h.1.1.1.0
key_byte-lt a b c d (suc (suc (suc (suc r)))) h l = absurd (omega arith)

unmask_twice :
    (a b c d i : ℕ) (p : Bytes)
    → IsBytes (key_of a b c d)
    → IsBytes p
    → unmask (key_of a b c d) i (unmask (key_of a b c d) i p) ≡ p
unfolding unmask
unmask_twice a b c d i [] h k = refl
unmask_twice a b c d i (x ∷ p) h k = cc (
  bit_xor_twice x _ k.0 (key_byte-lt a b c d (i % 4) h (omega arith)),
  unmask_twice a b c d (i + 1) p h k.1,
)

length-unmask : (key : Bytes) (i : ℕ) (p : Bytes) → length (unmask key i p) ≡ length p
unfolding unmask
length-unmask key i [] = refl
length-unmask key i (x ∷ p) = ap suc (length-unmask key (i + 1) p)

-- A client's frame after RFC 6455: the FIN bit and the opcode, the mask bit and the shortest form
-- of the length, the key, and the payload masked with it.
pub client_length : ℕ → Bytes
client_length n =
    if leb n 125
    then (n + 128) ∷ []
    else if leb n 65535
    then 254 ∷ n / 2 ^ 8 % 256 ∷ n % 256 ∷ []
    else 255
      ∷ n / 2 ^ 56 % 256
      ∷ n / 2 ^ 48 % 256
      ∷ n / 2 ^ 40 % 256
      ∷ n / 2 ^ 32 % 256
      ∷ n / 2 ^ 24 % 256
      ∷ n / 2 ^ 16 % 256
      ∷ n / 2 ^ 8 % 256
      ∷ n % 256
      ∷ []

pub client_head : ℕ → ℕ → Bytes → Bytes
client_head opcode n key = (128 + opcode) ∷ (client_length n ++ key)

-- The parser reads a client's header for every length below 2^64.
frame_header-client_head :
    (opcode n a b c d : ℕ) (rest : Bytes)
    → opcode < 16
    → n < 2 ^ 64
    → frame_header (client_head opcode n (key_of a b c d) ++ rest)
      ≡ some (
        record { opcode = opcode; masked = true; payload_len = n; mask_key = key_of a b c d },
        rest,
      )
unfolding frame_header client_head client_length
frame_header-client_head opcode n a b c d rest ho hn = ground arith

-- The frame with its masked payload.
pub client_frame : ℕ → Bytes → Bytes → Bytes
client_frame opcode key p = client_head opcode (length p) key ++ unmask key 0 p

abbrev client_header : ℕ → ℕ → Bytes → Header
client_header opcode n key = record {
  opcode = opcode;
  masked = true;
  payload_len = n;
  mask_key = key;
}

frame_header-client_frame :
    (opcode a b c d : ℕ) (p rest : Bytes)
    → opcode < 16
    → length p < 2 ^ 64
    → frame_header (client_frame opcode (key_of a b c d) p ++ rest)
      ≡ some (client_header opcode (length p) (key_of a b c d), unmask (key_of a b c d) 0 p ++ rest)
unfolding client_frame
frame_header-client_frame opcode a b c d p rest ho hp =
    rw append_assoc (frame_header-client_head opcode (length p) a b c d _ ho hp)

-- A data frame of a client: text or binary.
pub record DataFrame : Type 0 where
  pub binary : Bool
  pub k0 : ℕ
  pub k1 : ℕ
  pub k2 : ℕ
  pub k3 : ℕ
  pub payload : Bytes

abbrev pub key : DataFrame → Bytes
key f = key_of f.k0 f.k1 f.k2 f.k3

abbrev pub opcode_of : DataFrame → ℕ
opcode_of f = if f.binary then 2 else 1

-- Its key and payload are bytes.
pub record IsFrame (f : DataFrame) : Type 0 where
  pub key_bytes : IsBytes (key f)
  pub payload_bytes : IsBytes f.payload
  pub short : length f.payload < 2 ^ 64

pub encode_all : List DataFrame → Bytes
encode_all [] = []
encode_all (f ∷ fs) = client_frame (opcode_of f) (key f) f.payload ++ encode_all fs

pub messages : List DataFrame → List Event
messages [] = []
messages (f ∷ fs) = message f.payload ∷ messages fs

header_of_empty : {r : Header × Bytes} → frame_header [] ≡ some r → ⊥
unfolding frame_header
header_of_empty e = cc

-- One round of the loop, at a frame whose header has been read.
read_frames-data :
    (fuel : ℕ) (env : Env) (ws : Client) (bs rest : Bytes) (f : DataFrame)
    → ws.on_message ≡ true
    → env.alloc_text ≡ true
    → IsFrame f
    → frame_header bs
      ≡ some (
        client_header (opcode_of f) (length f.payload) (key f),
        unmask (key f) 0 f.payload ++ rest,
      )
    → read_frames (suc fuel) env ws bs
      ≡ (read_frames fuel env ws rest >>= λ r. some (r.0, message f.payload ∷ r.1))
unfolding read_frames deliver
read_frames-data fuel env ws [] rest f hm ha v e = absurd (header_of_empty e)
read_frames-data fuel env ws (b ∷ bs) rest f hm ha v e =
    let len = length-unmask (key f) 0 f.payload in
    ground (
      arith,
      len,
      length-append (unmask (key f) 0 f.payload) rest,
      take-append (unmask (key f) 0 f.payload) rest (length f.payload) (sym len),
      drop-append (unmask (key f) 0 f.payload) rest (length f.payload) (sym len),
      unmask_twice f.k0 f.k1 f.k2 f.k3 0 f.payload v.key_bytes v.payload_bytes,
    )

client_frame_pos : (f : DataFrame) → 0 < length (client_frame (opcode_of f) (key f) f.payload)
unfolding client_frame client_head
client_frame_pos f = omega arith

read_frames-encode_all :
    (fs : List DataFrame) (fuel : ℕ) (env : Env) (ws : Client)
    → ws.on_message ≡ true
    → env.alloc_text ≡ true
    → All IsFrame fs
    → length (encode_all fs) < fuel
    → read_frames fuel env ws (encode_all fs) ≡ some (ws, messages fs)
unfolding encode_all messages
read_frames-encode_all fs zero env ws hm ha v h = absurd (omega arith)
read_frames-encode_all [] (suc fuel) env ws hm ha v h = unfold read_frames in refl
read_frames-encode_all (f ∷ fs) (suc fuel) env ws hm ha v h =
    let head =
      frame_header-client_frame (opcode_of f) f.k0 f.k1 f.k2 f.k3 f.payload (encode_all fs)
        (ground arith) v.0.short in
    let ih = read_frames-encode_all fs fuel env ws hm ha v.1 (
      omega (
        arith,
        length-append (client_frame (opcode_of f) (key f) f.payload) (encode_all fs),
        client_frame_pos f,
      )) in
    read_frames-data fuel env ws (encode_all (f ∷ fs)) (encode_all fs) f hm ha v.0 head ∙ rw ih refl

-- A client's text and binary frames that arrive in one buffer, each masked with its own key, are
-- passed to the message callback in order, with their payloads as the client wrote them,
-- provided that the callback is set and its buffer is allocated.
pub ws_read_cb-messages :
    (env : Env) (ws : Client) (fs : List DataFrame)
    → ws.on_message ≡ true
    → env.alloc_text ≡ true
    → All IsFrame fs
    → ws_read_cb env ws (received (encode_all fs)) ≡ some (ws, messages fs)
unfolding ws_read_cb
ws_read_cb-messages env ws fs hm ha v =
    read_frames-encode_all fs (suc (length (encode_all fs))) env ws hm ha v (omega arith)

read_frames-ping :
    (fuel : ℕ) (env : Env) (ws : Client) (bs rest : Bytes) (a b c d : ℕ) (p : Bytes)
    → length p ≤ 125
    → ws.handle ≡ true
    → (env.alloc_frame ≡ true) × (env.alloc_request ≡ true) × (env.write_ok ≡ true)
    → frame_header bs
      ≡ some (client_header 0x9 (length p) (key_of a b c d), unmask (key_of a b c d) 0 p ++ rest)
    → read_frames (suc fuel) env ws bs
      ≡ some (ws, writes (control_frame 0xA (unmask (key_of a b c d) 0 p)) ∷ [])
unfolding read_frames pong_events ws_send_control
read_frames-ping fuel env ws [] rest a b c d p h w o e = absurd (header_of_empty e)
read_frames-ping fuel env ws (x ∷ bs) rest a b c d p h w o e =
    let masked = unmask (key_of a b c d) 0 p in
    let len = length-unmask (key_of a b c d) 0 p in
    ground (arith, len, length-append masked rest, take-append masked rest (length p) (sym len))

read_frames-cut :
    (fuel : ℕ) (env : Env) (ws : Client) (bs rest : Bytes) (h : Header)
    → frame_header bs ≡ some (h, rest)
    → length rest < h.payload_len
    → read_frames (suc fuel) env ws bs ≡ some (ws, [])
unfolding read_frames
read_frames-cut fuel env ws [] rest h e l = refl
read_frames-cut fuel env ws (x ∷ bs) rest h e l = ground arith

-- A ping of a client, with at most 125 bytes of payload, is answered by a pong that carries the
-- masked bytes as they were received, and whatever stands behind it in the buffer is dropped.
pub ping_answer :
    (env : Env) (ws : Client) (a b c d : ℕ) (p rest : Bytes)
    → length p ≤ 125
    → ws.handle ≡ true
    → (env.alloc_frame ≡ true) × (env.alloc_request ≡ true) × (env.write_ok ≡ true)
    → ws_read_cb env ws (received (client_frame 0x9 (key_of a b c d) p ++ rest))
      ≡ some (ws, writes (control_frame 0xA (unmask (key_of a b c d) 0 p)) ∷ [])
unfolding ws_read_cb
ping_answer env ws a b c d p rest h w o =
    let bs = client_frame 0x9 (key_of a b c d) p ++ rest in
    read_frames-ping (length bs) env ws bs rest a b c d p h w o
      (frame_header-client_frame 0x9 a b c d p rest (omega arith) (omega arith))

-- A frame whose payload is cut off by the end of the buffer is dropped: no event, no change of the
-- connection, and nothing of it is kept for the next read.
pub cut_frame_dropped :
    (env : Env) (ws : Client) (opcode a b c d n : ℕ) (part : Bytes)
    → opcode < 16
    → n < 2 ^ 64
    → length part < n
    → ws_read_cb env ws (received (client_head opcode n (key_of a b c d) ++ part)) ≡ some (ws, [])
unfolding ws_read_cb
cut_frame_dropped env ws opcode a b c d n part ho hn h =
    let bs = client_head opcode n (key_of a b c d) ++ part in
    read_frames-cut (length bs) env ws bs part _
      (frame_header-client_head opcode n a b c d part ho hn) h
