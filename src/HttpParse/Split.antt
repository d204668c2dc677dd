-- ===== src/HttpParse/Split.antt =====
-- A request that arrives in parts is parsed as the same request in one part.
use mathlib.Core.Option.{some-injective}
use echo_ai_c.Base.{
  ℕ, zero, suc, ◌+◌, ◌-◌, ◌≤◌, ◌≡◌, refl, sym, ap, ◌∙◌, subst, arith, Bool, true, false, ◌||◌, [],
  ◌∷◌, ◌++◌, Option, none, some, ltb, leb, ◌==◌, if◌then◌else◌, ◌>>=◌, Bytes, codes, has_prefix,
  length, take, drop, Bool-cases, Option-cases, inl, inr,
}
use echo_ai_c.HttpParse.{
  Connection, index_of_text, parse_head, split_request_line, split_target, head_at,
  parse_content_length, read_body, parse_http, max_http_header_size,
}

-- The connection with more bytes behind those received.
abbrev pub received_more : Connection → Bytes → Connection
received_more c more = record c { received = c.received ++ more }

has_prefix-more :
    (s p more : Bytes) → length p ≤ length s → has_prefix (s ++ more) p ≡ has_prefix s p
unfolding has_prefix
has_prefix-more s [] more h = refl
has_prefix-more [] (y ∷ p) more h = absurd (omega (arith, h))
has_prefix-more (x ∷ s) (y ∷ p) more h = rw (has_prefix-more s p more (omega (arith, h))) refl

length-has_prefix : (s p : Bytes) → has_prefix s p ≡ true → length p ≤ length s
unfolding has_prefix
length-has_prefix s [] h = omega arith
length-has_prefix [] (y ∷ p) h = absurd (ground (arith, h))
length-has_prefix (x ∷ s) (y ∷ p) h = ground (arith, length-has_prefix s p (ground (arith, h)))

found_in : (s p : Bytes) (i : ℕ) → index_of_text s p ≡ some i → i + length p ≤ length s
unfolding index_of_text
found_in [] p i h = absurd (ground (arith, h))
found_in (x ∷ s) p i h = elim (Bool-cases (has_prefix (x ∷ s) p)) [
  | inl t ↦ ground (arith, h, t, length-has_prefix (x ∷ s) p t)
  | inr f ↦ elim (Option-cases (index_of_text s p)) [
    | inl n ↦ absurd (ground (arith, h, f, n))
    | inr (j, e) ↦ ground (arith, h, f, e, found_in s p j e)
  ]
]

-- What is found stays the first, if the text is followed by more.
index_of_text-more :
    (s p more : Bytes) (i : ℕ) → index_of_text s p ≡ some i → index_of_text (s ++ more) p ≡ some i
unfolding index_of_text
index_of_text-more [] p more i h = absurd (ground (arith, h))
index_of_text-more (x ∷ s) p more i h =
    let fits : length p ≤ length (x ∷ s) = omega (arith, found_in (x ∷ s) p i h) in
    elim (Option-cases (index_of_text s p)) [
      | inl n ↦ ground (arith, h, n, has_prefix-more (x ∷ s) p more fits)
      | inr (j, e) ↦
          ground (arith, h, e, has_prefix-more (x ∷ s) p more fits, index_of_text-more s p more j e)
    ]

take-more : (n : ℕ) (s more : Bytes) → n ≤ length s → take n (s ++ more) ≡ take n s
take-more zero s more l = refl
take-more (suc n) [] more l = absurd (omega (arith, l))
take-more (suc n) (x ∷ s) more l = ap (◌∷◌ x) (take-more n s more (omega (arith, l)))

parse_head-more :
    (c : Connection) (header_len line_len : ℕ) (more : Bytes)
    → header_len ≤ length c.received
    → line_len ≤ length c.received
    → parse_head (received_more c more) header_len line_len
      ≡ (parse_head c header_len line_len >>= λ c'. some (received_more c' more))
unfolding parse_head
parse_head-more c header_len line_len more l m =
    rw (take-more header_len c.received more l, take-more line_len c.received more m)
      (elim (Option-cases (split_request_line (take line_len c.received))) [
        | inl n ↦ rw n refl
        | inr (r, e) ↦ rw e (elim (Option-cases (split_target r.1)) [
          | inl n ↦ rw n refl
          | inr (t, f) ↦
              rw f (elim (Option-cases (parse_content_length (take header_len c.received))) [
                | inl n ↦ rw n refl
                | inr (n, g) ↦ rw g refl
              ])
        ])
      ])

parse_head-done :
    (c c' : Connection) (header_len line_len : ℕ)
    → parse_head c header_len line_len ≡ some c'
    → c'.headers_done ≡ true
unfolding parse_head
parse_head-done c c' header_len line_len h =
    elim (Option-cases (split_request_line (take line_len c.received))) [
      | inl n ↦ absurd (ground (arith, h, n))
      | inr (r, e) ↦ elim (Option-cases (split_target r.1)) [
        | inl n ↦ absurd (ground (arith, h, e, n))
        | inr (t, f) ↦ elim (Option-cases (parse_content_length (take header_len c.received))) [
          | inl n ↦ absurd (ground (arith, h, e, f, n))
          | inr (n, g) ↦ ground (arith, h, e, f, g)
        ]
      ]
    ]

guarded :
    (far : Bool) (o : Option ℕ) (i : ℕ) (k : ℕ → Option Connection) (c' : Connection)
    → (if far then none else elim o as (λ _. Option Connection) [
      | none ↦ none
      | some line_len ↦ if ltb i line_len then none else k line_len
    ])
      ≡ some c'
    → (far ≡ false)
      × ((line_len : ℕ) × (o ≡ some line_len) × (ltb i line_len ≡ false) × (k line_len ≡ some c'))
guarded true o i k c' h = absurd (ground (arith, h))
guarded false none i k c' h = absurd (ground (arith, h))
guarded false (some n) i k c' h = elim (Bool-cases (ltb i n)) [
  | inl t ↦ absurd (ground (arith, h, t))
  | inr f ↦ (refl, (n, refl, f, ground (arith, h, f)))
]

head_at-more :
    (c c' : Connection) (i : ℕ) (more : Bytes)
    → index_of_text c.received (codes "\r\n\r\n") ≡ some i
    → head_at c i ≡ some c'
    → (head_at (received_more c more) i ≡ some (received_more c' more)) × (c'.headers_done ≡ true)
unfolding head_at
head_at-more c c' i more found h =
    let (near, (n, line, before, head)) =
      guarded (ltb max_http_header_size (i + 4) || leb 4096 (i + 4))
        (index_of_text c.received (codes "\r\n")) i (parse_head c (i + 4)) c' h in
    let fits : i + 4 ≤ length c.received = found_in c.received (codes "\r\n\r\n") i found in
    let early : n ≤ length c.received = ground (arith, before, fits) in
    (
      rw (near, index_of_text-more c.received (codes "\r\n") more n line, before)
          (parse_head-more c (i + 4) n more fits early ∙ rw head refl),
      parse_head-done c c' (i + 4) n head,
    )

waiting :
    (short empty alloc : Bool) (body : Option Bytes) (c filled c' : Connection)
    → (if short then some (false, c) else elim body as (λ _. Option (Bool × Connection)) [
      | some _ ↦ some (true, c)
      | none ↦ if empty then some (true, c) else if alloc then some (true, filled) else none
    ])
      ≡ some (false, c')
    → c ≡ c'
waiting true empty alloc body c filled c' h =
    ap (λ (r : Bool × Connection). r.1) (some-injective (false, c) (false, c') h)
waiting false empty alloc (some b) c filled c' h = absurd (ground (arith, h))
waiting false true alloc none c filled c' h = absurd (ground (arith, h))
waiting false false true none c filled c' h = absurd (ground (arith, h))
waiting false false false none c filled c' h = absurd (ground (arith, h))

read_body-waiting :
    (alloc : Bool) (c c' : Connection) → read_body alloc c ≡ some (false, c') → c ≡ c'
unfolding read_body
read_body-waiting alloc c c' h =
    waiting (ltb (length c.received - c.header_len) c.content_length) (c.content_length == 0) alloc
      c.body c (record c { body = some (take c.content_length (drop c.header_len c.received)) }) c'
      h

parse_done :
    (alloc : Bool) (c : Connection) → c.headers_done ≡ true → parse_http alloc c ≡ read_body alloc c
unfolding parse_http
parse_done alloc c d = rw d refl

parse_found :
    (alloc : Bool) (c c' : Connection) (i : ℕ)
    → c.headers_done ≡ false
    → index_of_text c.received (codes "\r\n\r\n") ≡ some i
    → head_at c i ≡ some c'
    → parse_http alloc c ≡ read_body alloc c'
unfolding parse_http
parse_found alloc c c' i d found head = rw (d, found, head) refl

parse_refused :
    (alloc : Bool) (c : Connection) (i : ℕ)
    → c.headers_done ≡ false
    → index_of_text c.received (codes "\r\n\r\n") ≡ some i
    → head_at c i ≡ none
    → parse_http alloc c ≡ none
unfolding parse_http
parse_refused alloc c i d found head = rw (d, found, head) refl

limited :
    (far : Bool) (c c' : Connection)
    → Path (Option (Bool × Connection)) (if far then none else some (false, c)) (some (false, c'))
    → c ≡ c'
limited true c c' h = absurd (ground (arith, h))
limited false c c' h = ap (λ (r : Bool × Connection). r.1) (some-injective (false, c) (false, c') h)

not_found {ℓ} :
    {A : Type ℓ} {done : Bool} {o : Option ℕ}
    → done ≡ false
    → o ≡ none
    → (a b : Option A) (k : ℕ → Option A)
    → (if done then a else elim o as (λ _. Option A) [ none ↦ b | some i ↦ k i ]) ≡ b
not_found d n a b k = rw (d, n) refl

parse_open :
    (alloc : Bool) (c c' : Connection)
    → c.headers_done ≡ false
    → index_of_text c.received (codes "\r\n\r\n") ≡ none
    → parse_http alloc c ≡ some (false, c')
    → c ≡ c'
unfolding parse_http
parse_open alloc c c' d n h = limited (ltb max_http_header_size (length c.received)) c c' (
    sym (
      not_found d n (read_body alloc c)
        (if ltb max_http_header_size (length c.received) then none else some (false, c))
        (λ i. head_at c i >>= λ c'. read_body alloc c'))
    ∙ h)

-- A parse that answers "not yet" loses nothing: the bytes that come later give the same answer, and
-- the same connection, as if all bytes had come before the first parse.
pub parse_http-received_more :
    (alloc : Bool) (c c' : Connection) (more : Bytes)
    → parse_http alloc c ≡ some (false, c')
    → parse_http alloc (received_more c' more) ≡ parse_http alloc (received_more c more)
parse_http-received_more alloc c c' more h =
    let unchanged : c ≡ c'
        → parse_http alloc (received_more c' more) ≡ parse_http alloc (received_more c more) =
      λ e. ap (λ x. parse_http alloc (received_more x more)) (sym e) in
    elim (Bool-cases c.headers_done) [
      | inl d ↦ unchanged (read_body-waiting alloc c c' (sym (parse_done alloc c d) ∙ h))
      | inr d ↦ elim (Option-cases (index_of_text c.received (codes "\r\n\r\n"))) [
        | inl n ↦ unchanged (parse_open alloc c c' d n h)
        | inr (i, found) ↦ elim (Option-cases (head_at c i)) [
          | inl n ↦ absurd (ground (arith, h, parse_refused alloc c i d found n))
          | inr (c1, head) ↦
              let later = head_at-more c c1 i more found head in
              let same : c1 ≡ c' =
                read_body-waiting alloc c1 c' (sym (parse_found alloc c c1 i d found head) ∙ h) in
              subst
                (λ x.
                  parse_http alloc (received_more x more) ≡ parse_http alloc (received_more c more))
                same
                (parse_done alloc (received_more c1 more) later.1
                  ∙ sym (
                      parse_found alloc (received_more c more) (received_more c1 more) i d
                        (index_of_text-more c.received (codes "\r\n\r\n") more i found) later.0))
        ]
      ]
    ]
