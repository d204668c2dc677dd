-- ===== src/HttpParse.antt =====
-- src/server/http_parse.c: the streaming HTTP parser. `received` holds the bytes of `buf` before its
-- NUL, so `buf_len` is its length; the outcome of an allocation is an argument. A result `none` is -1.
mod Tests
pub mod Split
pub mod Grow
pub mod Bounds
use echo_ai_c.Base.{
  ℕ, zero, suc, ◌+◌, ◌-◌, ◌*◌, ◌/◌, ◌^◌, ◌≡◌, Bool, true, false, not, ◌&&◌, ◌||◌, List, [], ◌∷◌,
  ◌++◌, Option, none, some, ltb, leb, ◌==◌, if◌then◌else◌, ◌>>=◌, Bytes, codes, has_prefix,
  has_prefix_nocase, length, take, drop,
}

abbrev pub max_http_header_size : ℕ
max_http_header_size = 16384

abbrev pub max_http_body_size : ℕ
max_http_body_size = 10485760

abbrev pub size_max : ℕ
size_max = 2 ^ 64 - 1

-- The parts of Client that the parser reads and writes.
pub record Connection : Type 0 where
  pub received : Bytes
  pub buf_cap : ℕ
  pub header_len : ℕ
  pub method : Bytes
  pub path : Bytes
  pub query : Bytes
  pub headers : Bytes
  pub body : Option Bytes
  pub content_length : ℕ
  pub headers_done : Bool

abbrev pub new_connection : Connection
new_connection = record {
  received = [];
  buf_cap = 0;
  header_len = 0;
  method = [];
  path = [];
  query = [];
  headers = [];
  body = none;
  content_length = 0;
  headers_done = false;
}

-- The offset of the first `c`, as `memchr` finds it.
pub index_of : Bytes → ℕ → Option ℕ
index_of [] c = none
index_of (x ∷ s) c =
    let later = index_of s c in if x == c then some 0 else later >>= λ i. some (suc i)

-- The offset of the first `p` before a NUL, as `strstr` finds it; `p` is not empty.
pub index_of_text : Bytes → Bytes → Option ℕ
unfolding has_prefix
index_of_text [] p = none
index_of_text (x ∷ s) p =
    let later = index_of_text s p in
    if x == 0 then none else if has_prefix (x ∷ s) p then some 0 else later >>= λ i. some (suc i)

abbrev is_blank : ℕ → Bool
is_blank c = c == b' ' || c == b'\t'

pub skip_blanks : Bytes → Bytes
skip_blanks [] = []
skip_blanks (c ∷ s) = if is_blank c then skip_blanks s else c ∷ s

-- The number, and what follows it; `none` where it does not fit.
pub read_digits : ℕ → Bytes → Option (ℕ × Bytes)
read_digits parsed [] = some (parsed, [])
read_digits parsed (c ∷ s) =
    let more = read_digits (parsed * 10 + (c - b'0')) s in
    if leb b'0' c && leb c b'9'
    then if ltb ((size_max - (c - b'0')) / 10) parsed then none else more
    else some (parsed, c ∷ s)

-- The value behind the colon of a Content-Length line.
pub length_value : Bytes → Option ℕ
unfolding skip_blanks read_digits
length_value s = elim (skip_blanks s) [
  | [] ↦ none
  | c ∷ t ↦ read_digits 0 (c ∷ t) >>= λ r.
      if not (length (skip_blanks r.1) == 0) || ltb max_http_body_size r.0 then none else some r.0
]

-- The value so far and whether there was one, after one line.
pub length_line : Bytes → ℕ × Bool → Option (ℕ × Bool)
unfolding index_of has_prefix_nocase length_value
length_line line (value, found) = elim (index_of line b':') [
  | none ↦ some (value, found)
  | some i ↦
      if i == 14 && has_prefix_nocase line (codes "Content-Length")
      then if found then none else (length_value (drop (suc i) line) >>= λ v. some (v, true))
      else if i == 17 && has_prefix_nocase line (codes "Transfer-Encoding")
      then none
      else some (value, found)
]

-- The end of the line: the offset of the first CRLF, or else of the last byte, where the loop stops
-- because no second byte is left.
pub line_end : Bytes → ℕ
line_end [] = 0
line_end (x ∷ []) = 0
line_end (x ∷ y ∷ s) =
    let later = line_end (y ∷ s) in if x == b'\r' && y == b'\n' then 0 else suc later

-- The loop over the lines, on fuel.
pub length_lines : ℕ → Bytes → ℕ × Bool → Option ℕ
unfolding length_line line_end
length_lines zero s r = none
length_lines (suc fuel) [] r = some r.0
length_lines (suc fuel) (c ∷ s) r = elim (length_line (take (line_end (c ∷ s)) (c ∷ s)) r) [
  | none ↦ none
  | some r' ↦ elim (leb (length (c ∷ s)) (line_end (c ∷ s) + 1)) [
    | true ↦ some r'.0
    | false ↦ length_lines fuel (drop (line_end (c ∷ s) + 2) (c ∷ s)) r'
  ]
]

pub parse_content_length : Bytes → Option ℕ
unfolding length_lines
parse_content_length headers = length_lines (suc (length headers)) headers (0, false)

-- The path and the query of a request target, cut at the first `?`; `none` where one is too long.
pub split_target : Bytes → Option (Bytes × Bytes)
unfolding index_of
split_target target = elim (index_of target b'?') [
  | none ↦ if leb 1024 (length target) then none else some (target, [])
  | some i ↦
      if leb 1024 i
      then none
      else if leb 512 (length target - i - 1)
      then none
      else some (take i target, drop (suc i) target)
]

-- The method and the target of a request line.
pub split_request_line : Bytes → Option (Bytes × Bytes)
unfolding index_of
split_request_line line = index_of line b' ' >>= λ i. index_of (drop (suc i) line) b' ' >>= λ j.
    if i == 0 || leb 16 i then none else some (take i line, take j (drop (suc i) line))

-- What the header block of `header_len` bytes fills in.
pub parse_head : Connection → ℕ → ℕ → Option Connection
unfolding split_request_line split_target parse_content_length
parse_head c header_len line_len = split_request_line (take line_len c.received) >>= λ r.
    split_target r.1 >>= λ t. parse_content_length (take header_len c.received) >>= λ n.
    some (record c {
      method = r.0;
      path = t.0;
      query = t.1;
      headers = take header_len c.received;
      content_length = n;
      header_len = header_len;
      headers_done = true;
    })

-- The header block that ends before the CRLFCRLF at `i`.
pub head_at : Connection → ℕ → Option Connection
unfolding parse_head index_of_text
head_at c i =
    if ltb max_http_header_size (i + 4) || leb 4096 (i + 4)
    then none
    else elim (index_of_text c.received (codes "\r\n")) [
      | none ↦ none
      | some line_len ↦ if ltb i line_len then none else parse_head c (i + 4) line_len
    ]

-- The answer 0, "not yet", or 1, "a whole request", with the connection.
pub read_body : Bool → Connection → Option (Bool × Connection)
read_body alloc c =
    if ltb (length c.received - c.header_len) c.content_length
    then some (false, c)
    else elim c.body [
      | some _ ↦ some (true, c)
      | none ↦
          if c.content_length == 0
          then some (true, c)
          else if alloc
          then some (
            true,
            record c { body = some (take c.content_length (drop c.header_len c.received)) },
          )
          else none
    ]

pub parse_http : Bool → Connection → Option (Bool × Connection)
unfolding read_body head_at index_of_text
parse_http alloc c =
    if c.headers_done
    then read_body alloc c
    else elim (index_of_text c.received (codes "\r\n\r\n")) [
      | none ↦ if ltb max_http_header_size (length c.received) then none else some (false, c)
      | some i ↦ head_at c i >>= λ c'. read_body alloc c'
    ]

-- The doubling loop, on fuel; `none` where the capacity cannot be doubled.
pub double_to : ℕ → ℕ → ℕ → Option ℕ
double_to zero room needed = none
double_to (suc fuel) room needed =
    let doubled = double_to fuel (room * 2) needed in
    if leb needed room then some room else if ltb (size_max / 2) room then none else doubled

pub client_append : Bool → Connection → Bytes → Option Connection
unfolding double_to
client_append alloc c chunk =
    let needed = length c.received + length chunk + 1 in
    if ltb (size_max - length c.received - 1) (length chunk)
    then none
    else if ltb (max_http_header_size + max_http_body_size + 1) needed
    then none
    else if ltb c.buf_cap needed
    then (double_to 64 (if c.buf_cap == 0 then 4096 else c.buf_cap) needed >>= λ new_cap.
        if alloc
        then some (record c { received = c.received ++ chunk; buf_cap = new_cap })
        else none)
    else some (record c { received = c.received ++ chunk })
