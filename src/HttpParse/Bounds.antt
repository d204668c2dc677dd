-- ===== src/HttpParse/Bounds.antt =====
-- The content length that the HTTP parser accepts.
use echo_ai_c.Base.{
  ℕ, zero, suc, ◌+◌, ◌≤◌, ◌<◌, ◌≡◌, refl, arith, Bool, true, false, not, ◌||◌, [], ◌∷◌, Option,
  none, some, ltb, leb, ◌==◌, if◌then◌else◌, ◌>>=◌, Bytes, length, take, drop, length-drop,
  Bool-cases, Option-cases, inl, inr,
}
use echo_ai_c.HttpParse.{
  max_http_body_size, index_of, skip_blanks, read_digits, length_value, length_line, line_end,
  length_lines, parse_content_length,
}

checked-le :
    (o : Option (ℕ × Bytes)) (v : ℕ)
    → (o >>= λ r.
        if not (length (skip_blanks r.1) == 0) || ltb max_http_body_size r.0
        then none
        else some r.0)
      ≡ some v
    → v ≤ max_http_body_size
checked-le none v h = absurd (ground (arith, h))
checked-le (some (n, s)) v h =
    elim (Bool-cases (not (length (skip_blanks s) == 0) || ltb max_http_body_size n)) [
      | inl t ↦ absurd (ground (arith, h, t))
      | inr f ↦ ground (arith, h, f)
    ]

at_digits :
    (s : Bytes) (v : ℕ)
    → elim s as (λ _. Option ℕ) [
      | [] ↦ none
      | c ∷ t ↦ read_digits 0 (c ∷ t) >>= λ r.
          if not (length (skip_blanks r.1) == 0) || ltb max_http_body_size r.0
          then none
          else some r.0
    ]
      ≡ some v
    → v ≤ max_http_body_size
at_digits [] v h = absurd (ground (arith, h))
at_digits (c ∷ t) v h = checked-le (read_digits 0 (c ∷ t)) v h

length_value-le : (s : Bytes) (v : ℕ) → length_value s ≡ some v → v ≤ max_http_body_size
unfolding length_value
length_value-le s v h = at_digits (skip_blanks s) v h

length_line-le :
    (line : Bytes) (r r' : ℕ × Bool)
    → r.0 ≤ max_http_body_size
    → length_line line r ≡ some r'
    → r'.0 ≤ max_http_body_size
unfolding length_line
length_line-le line (value, found) (value', found') l h = elim (Option-cases (index_of line b':')) [
  | inl n ↦ ground (arith, h, n, l)
  | inr (i, e) ↦ elim (Option-cases (length_value (drop (suc i) line))) [
    | inl n ↦ ground (arith, h, e, n, l)
    | inr (v, f) ↦ ground (arith, h, e, f, l, length_value-le (drop (suc i) line) v f)
  ]
]

length_lines-le :
    (fuel : ℕ) (s : Bytes) (r : ℕ × Bool) (n : ℕ)
    → r.0 ≤ max_http_body_size
    → length_lines fuel s r ≡ some n
    → n ≤ max_http_body_size
unfolding length_lines
length_lines-le zero s r n l h = absurd (ground (arith, h))
length_lines-le (suc fuel) [] r n l h = ground (arith, h, l)
length_lines-le (suc fuel) (c ∷ s) r n l h =
    let end_at : ℕ = line_end (c ∷ s) in
    elim (Option-cases (length_line (take end_at (c ∷ s)) r)) [
      | inl none_left ↦ absurd (ground (arith, h, none_left))
      | inr (r', e) ↦
          let kept : r'.0 ≤ max_http_body_size = length_line-le (take end_at (c ∷ s)) r r' l e in
          elim (Bool-cases (leb (length (c ∷ s)) (end_at + 1))) [
            | inl t ↦ ground (arith, h, e, t, kept)
            | inr f ↦
                length_lines-le fuel (drop (end_at + 2) (c ∷ s)) r' n kept (ground (arith, h, e, f))
          ]
    ]

one_round :
    (o : Option (ℕ × Bool)) (last : Bool) (k j : ℕ × Bool → Option ℕ)
    → ((r : ℕ × Bool) → last ≡ false → k r ≡ j r)
    → elim o as (λ _. Option ℕ) [
      | none ↦ none
      | some r ↦ elim last as (λ _. Option ℕ) [ true ↦ some r.0 | false ↦ k r ]
    ]
      ≡ elim o as (λ _. Option ℕ) [
        | none ↦ none
        | some r ↦ elim last as (λ _. Option ℕ) [ true ↦ some r.0 | false ↦ j r ]
      ]
one_round none last k j h = refl
one_round (some r) true k j h = refl
one_round (some r) false k j h = h r refl

length_lines-enough :
    (f g : ℕ) (s : Bytes) (r : ℕ × Bool)
    → length s < f
    → length s < g
    → length_lines f s r ≡ length_lines g s r
unfolding length_lines
length_lines-enough zero g s r h k = absurd (omega (arith, h))
length_lines-enough (suc f) zero s r h k = absurd (omega (arith, k))
length_lines-enough (suc f) (suc g) [] r h k = refl
length_lines-enough (suc f) (suc g) (c ∷ s) r h k =
    let end_at : ℕ = line_end (c ∷ s) in
    let rest : Bytes = drop (end_at + 2) (c ∷ s) in
    let shorter : leb (length (c ∷ s)) (end_at + 1) ≡ false → length rest < length (c ∷ s) =
      λ e. ground (arith, length-drop (end_at + 2) (c ∷ s), e) in
    one_round (length_line (take end_at (c ∷ s)) r) (leb (length (c ∷ s)) (end_at + 1))
      (length_lines f rest) (length_lines g rest)
      (λ r' e.
        length_lines-enough f g rest r' (omega (arith, shorter e, h)) (omega (arith, shorter e, k)))

-- A content length that is accepted is no larger than the largest body, and more rounds of the loop
-- over the lines than there are bytes change nothing.
pub parse_content_length-le :
    (headers : Bytes)
    → ((n : ℕ) → parse_content_length headers ≡ some n → n ≤ max_http_body_size)
      × ((fuel : ℕ)
          → length headers < fuel
          → length_lines fuel headers (0, false) ≡ parse_content_length headers)
unfolding parse_content_length
parse_content_length-le headers = (
  (λ n h. length_lines-le (suc (length headers)) headers (0, false) n (omega arith) h),
  (λ fuel h. length_lines-enough fuel (suc (length headers)) headers (0, false) h (omega arith)),
)
