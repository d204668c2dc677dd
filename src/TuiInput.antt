-- ===== src/TuiInput.antt =====
-- src/tui/tui_input.c: the line editor. `text` holds the bytes of `buf` before its NUL, so `len` is its
-- length; `cap` is the room allocated. `history` is the circular array, with none for NULL. Every
-- allocation's outcome is a field of `Alloc`. A result `none` of `history_push` and of what calls
-- it is a NULL given to `strcmp`.
mod Tests
pub mod History
pub mod Slots
pub mod Refine
pub mod Inv
pub mod Keeps
pub mod Calls
pub mod Edit
pub mod Fault
use History.{HistoryRing, push_history, empty_history, slot}
use echo_ai_c.Base.{
  ℕ, zero, suc, ◌+◌, ◌-◌, ◌*◌, ◌/◌, ◌%◌, ◌^◌, Bool, true, false, not, ◌&&◌, ◌||◌, List, [], ◌∷◌,
  ◌++◌, Option, none, some, ltb, leb, ◌==◌, if◌then◌else◌, Bytes, length, get_or, take, drop,
  has_byte, ◌>>=◌, ℤ, pos, negsuc,
}

pub record Editor : Type 0 where
  pub text : Bytes
  pub cap : ℕ
  pub cursor : ℕ
  pub ring : HistoryRing
  pub history_walk : ℕ
  pub walking : Bool
  pub draft : Option Bytes

pub record Alloc : Type 0 where
  -- `calloc` of a larger buffer, `malloc` of the normalized text, `str_dup`
  pub grow : Bool
  pub norm : Bool
  pub dup : Bool

-- The doubling loop, on fuel: as many rounds as bytes are needed are always enough.
pub grow_cap : ℕ → ℕ → ℕ → ℕ
grow_cap zero cap needed = cap
grow_cap (suc fuel) cap needed =
    let doubled = grow_cap fuel (cap * 2) needed in
    if leb needed cap then cap else if ltb ((2 ^ 64 - 1) / 2) cap then needed else doubled

-- The new capacity; `none` for -1, which leaves the editor as it was.
pub grow_buffer : Bool → ℕ → ℕ → Option ℕ
unfolding grow_cap
grow_buffer alloc cap needed =
    if leb needed cap
    then some cap
    else if alloc
    then some (grow_cap needed (if cap == 0 then 64 else cap) needed)
    else none

abbrev pub is_continuation : Bytes → ℕ → Bool
is_continuation s i = get_or s i 0 / 64 % 4 == 2

-- `while (i > 0 && (buf[i] & 0xC0) == 0x80) i--;`
pub left_from : Bytes → ℕ → ℕ
left_from s zero = zero
left_from s (suc i) = let back = left_from s i in if is_continuation s (suc i) then back else suc i

-- `while (i < len && (buf[i] & 0xC0) == 0x80) i++;` with `rounds` = `len - i`
pub right_from : ℕ → Bytes → ℕ → ℕ
right_from zero s i = i
right_from (suc rounds) s i =
    let on = right_from rounds s (i + 1) in if is_continuation s i then on else i

pub cursor_left_cp : Editor → Editor
unfolding left_from
cursor_left_cp e =
    if e.cursor == 0 then e else record e { cursor = left_from e.text (e.cursor - 1) }

pub cursor_right_cp : Editor → Editor
unfolding right_from
cursor_right_cp e =
    if leb (length e.text) e.cursor
    then e
    else record e { cursor = right_from (length e.text - (e.cursor + 1)) e.text (e.cursor + 1) }

-- `calloc` of the editor and of the history, and the first growth.
pub tui_input_create : Bool → Alloc → ℕ → Option Editor
unfolding grow_buffer
tui_input_create alloc a history_cap =
    if alloc
    then (grow_buffer a.grow 0 1 >>= λ cap. some (record {
      text = [];
      cap = cap;
      cursor = 0;
      ring = empty_history history_cap;
      history_walk = 0;
      walking = false;
      draft = none;
    }))
    else none

-- CRLF and lone CR become LF.
pub normalize_eols : Bytes → Bytes
normalize_eols [] = []
normalize_eols (c ∷ []) = (if c == b'\r' then b'\n' else c) ∷ []
normalize_eols (c ∷ d ∷ cs) =
    let pair = normalize_eols cs in
    let single = normalize_eols (d ∷ cs) in
    if c == b'\r' then if d == b'\n' then b'\n' ∷ pair else b'\n' ∷ single else c ∷ single

abbrev put_text : Editor → Bytes → ℕ → Editor
put_text e text cap = record e {
  text = take e.cursor e.text ++ (text ++ drop e.cursor e.text);
  cap = cap;
  cursor = e.cursor + length text;
}

-- The growth and the move of the tail.
insert_text : Alloc → Editor → Bytes → Option Editor
unfolding grow_buffer
insert_text a e text =
    grow_buffer a.grow e.cap (length e.text + length text + 1) >>= λ cap. some (put_text e text cap)

-- `none` for -1.
pub tui_input_insert : Alloc → Editor → Bytes → Option Editor
unfolding insert_text normalize_eols
tui_input_insert a e text =
    if length text == 0
    then some e
    else if has_byte text b'\r'
    then if a.norm then insert_text a e (normalize_eols text) else none
    else insert_text a e text

-- What the memmove leaves when the bytes from `from` to `upto` go.
abbrev cut : Bytes → ℕ → ℕ → Bytes
cut s from upto = take from s ++ drop upto s

-- With the number of bytes removed.
pub tui_input_backspace : Editor → Editor × ℕ
unfolding cursor_left_cp
tui_input_backspace e =
    if e.cursor == 0
    then (e, 0)
    else let left = (cursor_left_cp e).cursor in
      (record e { text = cut e.text left e.cursor; cursor = left }, e.cursor - left)

pub tui_input_delete : Editor → Editor × ℕ
unfolding cursor_right_cp
tui_input_delete e =
    if leb (length e.text) e.cursor
    then (e, 0)
    else let right = (cursor_right_cp e).cursor in
      (record e { text = cut e.text e.cursor right }, right - e.cursor)

repeat : (Editor → Editor) → ℕ → Editor → Editor
repeat f zero e = e
repeat f (suc n) e = repeat f n (f e)

pub tui_input_move : Editor → ℤ → Editor
unfolding repeat
tui_input_move e (pos n) = repeat cursor_right_cp n e
tui_input_move e (negsuc n) = repeat cursor_left_cp (suc n) e

pub tui_input_home : Editor → Editor
tui_input_home e = record e { cursor = 0 }

pub tui_input_end : Editor → Editor
tui_input_end e = record e { cursor = length e.text }

pub tui_input_clear : Editor → Editor
tui_input_clear e = record e { text = []; cursor = 0 }

pub is_space_or_boundary : ℕ → Bool
is_space_or_boundary c = c == b' ' || c == b'\t'

-- `while (pos > 0 && test(buf[pos - 1])) pos--;`
pub back_while : (ℕ → Bool) → Bytes → ℕ → ℕ
back_while test s zero = zero
back_while test s (suc p) =
    let back = back_while test s p in if test (get_or s p 0) then back else suc p

pub tui_input_delete_word : Editor → Editor × ℕ
unfolding back_while is_space_or_boundary
tui_input_delete_word e =
    let blank = back_while is_space_or_boundary e.text e.cursor in
    let word = back_while (λ c. not (is_space_or_boundary c)) e.text blank in
    if e.cursor - word == 0
    then (e, 0)
    else (record e { text = cut e.text word e.cursor; cursor = word }, e.cursor - word)

-- NULL is the empty text.
pub tui_input_set_text : Alloc → Editor → Option Bytes → Option Editor
unfolding grow_buffer
tui_input_set_text a e t =
    let s : Bytes = elim t [ none ↦ [] | some s ↦ s ] in
    grow_buffer a.grow e.cap (length s + 1) >>= λ cap.
    some (record e { text = s; cap = cap; cursor = length s })

-- The line, if any, and the editor. The copy that is returned and the history's copy share one
-- outcome of `str_dup` each.
pub tui_input_submit : Bool → Bool → Editor → Option (Option Bytes × Editor)
unfolding push_history
tui_input_submit dup_out dup_line e =
    if length e.text == 0
    then some (none, e)
    else if dup_out
    then (push_history dup_line e.ring e.text >>= λ ring. some (
      some e.text,
      record e { text = []; cursor = 0; ring = ring; walking = false; draft = none },
    ))
    else some (none, e)

-- The entry `walk` steps before the newest.
abbrev walked : Editor → ℕ → Option Bytes
walked e walk = slot e.ring (e.ring.history_head + e.ring.history_count - 1 - walk)

show_entry : Alloc → Editor → Option Bytes × Editor
unfolding tui_input_set_text
show_entry a e = elim (tui_input_set_text a e (walked e e.history_walk)) [
  | none ↦ (none, e)
  | some e' ↦ (some e'.text, e')
]

pub tui_input_history_back : Alloc → Editor → Option Bytes × Editor
unfolding show_entry
tui_input_history_back a e =
    if e.ring.history_count == 0
    then (none, e)
    else if not e.walking
    then show_entry a
        (record e { draft = if a.dup then some e.text else none; walking = true; history_walk = 0 })
    else if leb (e.ring.history_count - 1) e.history_walk
    then (none, e)
    else show_entry a (record e { history_walk = e.history_walk + 1 })

pub tui_input_history_forward : Alloc → Editor → Option Bytes × Editor
unfolding show_entry tui_input_set_text
tui_input_history_forward a e =
    if not e.walking
    then (none, e)
    else if e.history_walk == 0
    then (elim (tui_input_set_text a e e.draft) [
      | none ↦ (none, e)
      | some e' ↦ (some e'.text, record e' { walking = false })
    ])
    else show_entry a (record e { history_walk = e.history_walk - 1 })

pub tui_input_reset_history_walk : Editor → Editor
tui_input_reset_history_walk e = record e { walking = false; draft = none }

-- Each entry with the outcome of its copy.
pub tui_input_seed_history : Editor → List (Bytes × Bool) → Option Editor
unfolding push_history
tui_input_seed_history e [] = some e
tui_input_seed_history e ((line, dup) ∷ more) =
    push_history dup e.ring line >>= λ ring. tui_input_seed_history (record e { ring = ring }) more
