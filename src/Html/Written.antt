-- ===== src/Html/Written.antt =====
-- Digits as they are written, from tables of their characters.
use echo_ai_c.Base.{
  ℕ, zero, suc, ap, ◌∙◌, ◌<◌, List, codes, get_or, Bool-cases, if◌then◌else◌, ◌&&◌, ◌+◌, ◌*◌, ◌≡◌,
  refl, arith, Bool, true, false, none, some, [], ◌∷◌, ◌==◌, Option-cases, inl, inr,
}
use echo_ai_c.Html.{digit_value}

-- A digit as it is written: its value, and whether it is written in upper case.
pub record Digit : Type 0 where
  pub value : ℕ
  pub upper : Bool

-- The character of a digit, from the table of its case.
abbrev pub written_digit : Digit → ℕ
written_digit d =
    get_or (if d.upper then codes "0123456789ABCDEF" else codes "0123456789abcdef") d.value 0

abbrev pub radix : Bool → ℕ
radix true = 16
radix false = 10

-- The number that is written with these digits behind a number `v`.
abbrev pub number : ℕ → ℕ → List Digit → ℕ
number base v [] = v
number base v (d ∷ ds) = number base (v * base + d.value) ds

abbrev pub InBase : Bool → Digit → Type 0
InBase is_hex d = d.value < radix is_hex

digit_agrees : Bool → Bool → ℕ → Bool
unfolding digit_value
digit_agrees is_hex up d =
    elim (digit_value is_hex (written_digit (record { value = d; upper = up }))) [
      | none ↦ false
      | some v ↦ v == d
    ]

all_below : ℕ → (ℕ → Bool) → Bool
all_below zero p = true
all_below (suc n) p = p n && all_below n p

below_all : (n : ℕ) (p : ℕ → Bool) → all_below n p ≡ true → (i : ℕ) → i < n → p i ≡ true
unfolding all_below
below_all zero p h i l = absurd (omega (arith, l))
below_all (suc n) p h i l = elim (Bool-cases (i == n)) [
  | inl last ↦
      let same : i ≡ n = ground (arith, last) in
      let holds : p n ≡ true = ground (arith, h) in ap p same ∙ holds
  | inr other ↦
      let rest : all_below n p ≡ true = ground (arith, h) in
      below_all n p rest i (ground (arith, l, other))
]

agrees_to_value :
    (is_hex up : Bool) (d : ℕ)
    → digit_agrees is_hex up d ≡ true
    → digit_value is_hex (written_digit (record { value = d; upper = up })) ≡ some d
unfolding digit_agrees
agrees_to_value is_hex up d h =
    elim (Option-cases (digit_value is_hex (written_digit (record { value = d; upper = up })))) [
      | inl e ↦ absurd (ground (arith, h, e))
      | inr (v, e) ↦ let same : v ≡ d = ground (arith, h, e) in e ∙ ap some same
    ]

tables_agree : (is_hex up : Bool) → all_below (radix is_hex) (digit_agrees is_hex up) ≡ true
unfolding all_below digit_agrees digit_value
tables_agree true true = refl
tables_agree true false = refl
tables_agree false true = refl
tables_agree false false = refl

pub digit_value-written_digit :
    (is_hex : Bool) (d : Digit)
    → InBase is_hex d
    → digit_value is_hex (written_digit d) ≡ some d.value
digit_value-written_digit is_hex d h =
    agrees_to_value is_hex d.upper d.value (
      below_all (radix is_hex) (digit_agrees is_hex d.upper) (tables_agree is_hex d.upper) d.value
        h)
