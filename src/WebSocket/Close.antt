-- ===== src/WebSocket/Close.antt =====
-- Every read ends, and the close callback runs at most once in the life of a connection.
use echo_ai_c.Base.{
  ℕ, zero, suc, ◌+◌, ◌%◌, ◌/◌, ◌==◌, ◌≢◌, take, ◌<◌, ◌≤◌, ◌≡◌, refl, arith, Bool, true, false, List,
  [], ◌∷◌, ◌++◌, Option, none, some, Bytes, length, length-drop, drop, ◌>>=◌, Option-cases, inl,
  inr, if◌then◌else◌,
}
use echo_ai_c.WebSocket.Frame.{Header, frame_header, read_be, read_length, read_mask}
use echo_ai_c.WebSocket.{
  Client, Env, Event, closes, pong_events, deliver, read_frames, Input, broken, idle, received,
  ws_read_cb,
}

read_be-le :
    (n acc : ℕ) (bs : Bytes) (v : ℕ) (rest : Bytes)
    → read_be n acc bs ≡ some (v, rest)
    → length rest ≤ length bs
unfolding read_be
read_be-le zero acc bs v rest e = ground arith
read_be-le (suc n) acc [] v rest e = ground arith
read_be-le (suc n) acc (b ∷ bs) v rest e = ground (arith, read_be-le n _ bs v rest e)

read_length-le :
    (n : ℕ) (bs : Bytes) (v : ℕ) (rest : Bytes)
    → read_length n bs ≡ some (v, rest)
    → length rest ≤ length bs
unfolding read_length
read_length-le n bs v rest e = ground (arith, read_be-le 2 0 bs v rest, read_be-le 8 0 bs v rest)

read_mask-le :
    (m : Bool) (bs : Bytes) (key rest : Bytes)
    → read_mask m bs ≡ some (key, rest)
    → length rest ≤ length bs
unfolding read_mask
read_mask-le true [] key rest e = ground arith
read_mask-le true (a ∷ []) key rest e = ground arith
read_mask-le true (a ∷ b ∷ []) key rest e = ground arith
read_mask-le true (a ∷ b ∷ c ∷ []) key rest e = ground arith
read_mask-le true (a ∷ b ∷ c ∷ d ∷ bs) key rest e = ground arith
read_mask-le false bs key rest e = ground arith

frame_header-lt :
    (bs : Bytes) (h : Header) (rest : Bytes)
    → frame_header bs ≡ some (h, rest)
    → length rest < length bs
unfolding frame_header
frame_header-lt [] h rest e = ground arith
frame_header-lt (a ∷ []) h rest e = ground arith
frame_header-lt (a ∷ b ∷ bs) h rest e = elim (Option-cases (read_length (b % 128) bs)) [
  | inl n ↦ ground arith
  | inr ((len, more), l) ↦ elim (Option-cases (read_mask (b / 128 % 2 == 1) more)) [
    | inl n ↦ ground arith
    | inr ((key, tail), m) ↦
        ground (
          arith,
          read_length-le (b % 128) bs len more,
          read_mask-le (b / 128 % 2 == 1) more key tail,
        )
  ]
]

read_frames-ne-none :
    (fuel : ℕ) (env : Env) (ws : Client) (bs : Bytes)
    → length bs < fuel
    → read_frames fuel env ws bs ≢ none
unfolding read_frames
read_frames-ne-none zero env ws bs h = absurd (omega arith)
read_frames-ne-none (suc fuel) env ws [] h = ground arith
read_frames-ne-none (suc fuel) env ws (b ∷ bs) h = elim (Option-cases (frame_header (b ∷ bs))) [
  | inl n ↦ ground arith
  | inr ((hd, rest), e) ↦
      let shorter = frame_header-lt (b ∷ bs) hd rest e in
      let ih =
        read_frames-ne-none fuel env ws (drop hd.payload_len rest)
          (omega (arith, length-drop hd.payload_len rest)) in
      ground (arith, ih)
]

unfoldable pub closings : List Event → ℕ
closings [] = 0
closings (closes ∷ es) = 1 + closings es
closings (_ ∷ es) = closings es

abbrev pub armed : Client → ℕ
armed ws = if ws.on_close then 1 else 0

closings-append : (xs ys : List Event) → closings (xs ++ ys) ≡ closings xs + closings ys
unfolding closings
closings-append [] ys = omega arith
closings-append (closes ∷ xs) ys = omega (arith, closings-append xs ys)
closings-append (_ ∷ xs) ys = closings-append xs ys

deliver-closings :
    (env : Env) (ws : Client) (h : Header) (p : Bytes) → closings (deliver env ws h p) ≡ 0
unfolding deliver closings
deliver-closings env ws h p = ground arith

pong_events-closings : (env : Env) (ws : Client) (p : Bytes) → closings (pong_events env ws p) ≡ 0
unfolding pong_events closings
pong_events-closings env ws p = ground arith

read_frames-closings :
    (fuel : ℕ) (env : Env) (ws ws' : Client) (bs : Bytes) (es : List Event)
    → read_frames fuel env ws bs ≡ some (ws', es)
    → closings es + armed ws' ≡ armed ws
unfolding read_frames closings
read_frames-closings zero env ws ws' bs es h = ground arith
read_frames-closings (suc fuel) env ws ws' [] es h = ground arith
read_frames-closings (suc fuel) env ws ws' (b ∷ bs) es h =
    elim (Option-cases (frame_header (b ∷ bs))) [
      | inl n ↦ ground arith
      | inr ((hd, rest), e) ↦
          elim (Option-cases (read_frames fuel env ws (drop hd.payload_len rest))) [
            | inl m ↦ ground (arith, pong_events-closings env ws (take hd.payload_len rest))
            | inr ((ws2, es2), m) ↦ ground (
              arith,
              read_frames-closings fuel env ws ws2 (drop hd.payload_len rest) es2 m,
              pong_events-closings env ws (take hd.payload_len rest),
              deliver-closings env ws hd (take hd.payload_len rest),
              closings-append (deliver env ws hd (take hd.payload_len rest)) es2,
            )
          ]
    ]

-- The reads of a connection in order, each with its own clock and outcomes.
pub read_all : Client → List (Env × Input) → Option (Client × List Event)
read_all ws [] = some (ws, [])
read_all ws ((env, input) ∷ more) = do
  (ws', es) ← ws_read_cb env ws input
  (last, later) ← read_all ws' more
  some (last, es ++ later)

ws_read_cb-closings :
    (env : Env) (ws ws' : Client) (input : Input) (es : List Event)
    → ws_read_cb env ws input ≡ some (ws', es)
    → closings es + armed ws' ≡ armed ws
unfolding ws_read_cb closings
ws_read_cb-closings env ws ws' broken es h = ground arith
ws_read_cb-closings env ws ws' idle es h = ground arith
ws_read_cb-closings env ws ws' (received bs) es h =
    read_frames-closings (suc (length bs)) env ws ws' bs es h

ws_read_cb-ne-none : (env : Env) (ws : Client) (input : Input) → ws_read_cb env ws input ≢ none
unfolding ws_read_cb
ws_read_cb-ne-none env ws broken = ground arith
ws_read_cb-ne-none env ws idle = ground arith
ws_read_cb-ne-none env ws (received bs) =
    read_frames-ne-none (suc (length bs)) env ws bs (omega arith)

-- Whatever a peer sends, in however many reads, every read ends; the close callback is called at
-- most once, and only if it was set, and it is still set exactly if it was set and never called.
pub read_all-closes_once :
    (ws : Client) (inputs : List (Env × Input))
    → (last : Client) × (es : List Event) × (read_all ws inputs ≡ some (last, es))
      × (closings es + armed last ≡ armed ws)
unfolding read_all
read_all-closes_once ws [] = (ws, [], refl, unfold closings in ground arith)
read_all-closes_once ws ((env, input) ∷ more) = elim (Option-cases (ws_read_cb env ws input)) [
  | inl n ↦ absurd (ws_read_cb-ne-none env ws input n)
  | inr ((ws', es), e) ↦
      let (last, later, r, c) = read_all-closes_once ws' more in
      (
        last,
        es ++ later,
        rw (e, read_all) (rw (r, read_all) refl),
        omega (arith, closings-append es later, ws_read_cb-closings env ws ws' input es e),
      )
]
