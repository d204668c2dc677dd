-- ===== src/Middleware/Lines.antt =====
-- What the gate finds in a block of header lines.
use echo_ai_c.Base.{
  ℕ, zero, suc, ◌≤◌, ◌≡◌, refl, ap, ◌∙◌, arith, Bool, true, false, List, [], ◌∷◌, ◌++◌, Option,
  none, some, ◌==◌, if◌then◌else◌, Bytes, has_byte, bytes_eq_nocase, length, All, length-append,
}
use echo_ai_c.Middleware.{
  until, skip_blanks, drop_end_blanks, drop_cr, line_value, value_from, header_value,
}

-- A header field as it is written in a request, and a block of them.
abbrev pub line_of : Bytes × Bytes → Bytes
line_of (name, value) = name ++ (b':' ∷ b' ' ∷ value)

abbrev pub render : List (Bytes × Bytes) → Bytes
render [] = []
render (h ∷ hs) = (line_of h ++ (b'\r' ∷ [])) ++ (b'\n' ∷ render hs)

-- The value of the first field of a name, whatever its case.
abbrev pub first_value : List (Bytes × Bytes) → Bytes → Option Bytes
unfolding bytes_eq_nocase
first_value [] name = none
first_value ((n, v) ∷ hs) name = if bytes_eq_nocase n name then some v else first_value hs name

-- No colon or line feed in a name, no line feed in a value, and no blank at its ends.
pub record IsField (h : Bytes × Bytes) : Type 0 where
  pub name_colon : has_byte h.0 b':' ≡ false
  pub name_line : has_byte h.0 b'\n' ≡ false
  pub value_line : has_byte h.1 b'\n' ≡ false
  pub value_start : skip_blanks h.1 ≡ h.1
  pub value_end : drop_end_blanks h.1 ≡ h.1

pub until-append :
    (c : ℕ) (a b : Bytes) → has_byte a c ≡ false → until c (a ++ (c ∷ b)) ≡ (a, some b)
unfolding until has_byte
until-append c [] b h = ground arith
until-append c (x ∷ a) b h =
    let other : (x == c) ≡ false = ground (arith, h) in
    let later : has_byte a c ≡ false = ground (arith, h) in
    rw (until-append c a b later, other) refl

has_byte-append :
    (a b : Bytes) (c : ℕ)
    → has_byte a c ≡ false
    → has_byte b c ≡ false
    → has_byte (a ++ b) c ≡ false
unfolding has_byte
has_byte-append [] b c h k = k
has_byte-append (x ∷ a) b c h k = ground (arith, h, has_byte-append a b c (ground (arith, h)) k)

drop_cr-append : (s : Bytes) → drop_cr (s ++ (b'\r' ∷ [])) ≡ s
unfolding drop_cr
drop_cr-append [] = refl
drop_cr-append (c ∷ []) = refl
drop_cr-append (c ∷ d ∷ s) = ap (◌∷◌ c) (drop_cr-append (d ∷ s))

line_value-line_of :
    (h : Bytes × Bytes) (name : Bytes)
    → IsField h
    → line_value (line_of h) name ≡ (if bytes_eq_nocase h.0 name then some h.1 else none)
unfolding line_value skip_blanks
line_value-line_of (n, v) name f =
    ap {A = Bytes × Option Bytes} {B = Option Bytes}
      (λ (u : Bytes × Option Bytes). elim u.1 as (λ _. Option Bytes) [
        | none ↦ none
        | some value ↦
            if bytes_eq_nocase u.0 name then some (drop_end_blanks (skip_blanks value)) else none
      ])
      (until-append b':' n (b' ' ∷ v) f.name_colon)
    ∙ rw (f.value_start, f.value_end) refl

value_from_line :
    (fuel : ℕ) (line rest name : Bytes)
    → has_byte line b'\n' ≡ false
    → value_from (suc fuel) (line ++ (b'\n' ∷ rest)) name
      ≡ elim (line_value (drop_cr line) name) as (λ _. Option Bytes) [
        | some value ↦ some value
        | none ↦ value_from fuel rest name
      ]
unfolding value_from
value_from_line fuel [] rest name h = refl
value_from_line fuel (c ∷ line) rest name h =
    ap {A = Bytes × Option Bytes} {B = Option Bytes}
      (λ (u : Bytes × Option Bytes). elim (line_value (drop_cr u.0) name) as (λ _. Option Bytes) [
        | some value ↦ some value
        | none ↦ elim u.1 as (λ _. Option Bytes) [
          | none ↦ none
          | some more ↦ value_from fuel more name
        ]
      ])
      (until-append b'\n' (c ∷ line) rest h)

render_line : (h : Bytes × Bytes) → IsField h → has_byte (line_of h ++ (b'\r' ∷ [])) b'\n' ≡ false
unfolding has_byte
render_line (n, v) f =
    let value : has_byte (b':' ∷ b' ' ∷ v) b'\n' ≡ false = ground (arith, f.value_line) in
    has_byte-append (n ++ (b':' ∷ b' ' ∷ v)) (b'\r' ∷ []) b'\n'
      (has_byte-append n (b':' ∷ b' ' ∷ v) b'\n' f.name_line value) refl

chosen :
    (same : Bool) (v : Bytes) {o p : Option Bytes}
    → o ≡ p
    → elim (if same then some v else none) as (λ _. Option Bytes) [
      | some value ↦ some value
      | none ↦ o
    ]
      ≡ (if same then some v else p)
chosen true v h = refl
chosen false v h = h

value_from-render :
    (fuel : ℕ) (hs : List (Bytes × Bytes)) (name : Bytes)
    → length hs ≤ fuel
    → All IsField hs
    → value_from fuel (render hs) name ≡ first_value hs name
unfolding first_value value_from
value_from-render zero [] name l all = refl
value_from-render (suc fuel) [] name l all = refl
value_from-render zero (h ∷ hs) name l all = absurd (omega (arith, l))
value_from-render (suc fuel) (h ∷ hs) name l all =
    value_from_line fuel (line_of h ++ (b'\r' ∷ [])) (render hs) name (render_line h all.0)
    ∙ ap {A = Option Bytes} {B = Option Bytes}
        (λ o. elim o as (λ _. Option Bytes) [
          | some value ↦ some value
          | none ↦ value_from fuel (render hs) name
        ])
        (ap (λ l. line_value l name) (drop_cr-append (line_of h)) ∙ line_value-line_of h name all.0)
    ∙ chosen (bytes_eq_nocase h.0 name) h.1
        (value_from-render fuel hs name (omega (arith, l)) all.1)

length-render : (hs : List (Bytes × Bytes)) → length hs ≤ length (render hs)
length-render [] = omega arith
length-render (h ∷ hs) =
    omega (arith, length-append (line_of h ++ (b'\r' ∷ [])) (b'\n' ∷ render hs), length-render hs)

-- In a block of well-formed header lines, the value found for a name is that of the first field of
-- this name in whatever case, and none is found if there is no such field.
pub header_value-render :
    (hs : List (Bytes × Bytes)) (name : Bytes)
    → All IsField hs
    → header_value (render hs) name ≡ first_value hs name
unfolding header_value
header_value-render hs name all =
    value_from-render (length (render hs)) hs name (length-render hs) all
