-- ===== src/Utf8.antt =====
-- src/utils/html_unicode.c: code points to UTF-8, the validator, Windows-1252, and the place where
-- a text may be cut. A buffer is the list of its bytes; a position is the list of the bytes from it.
mod Tests
pub mod Encode
pub mod Cut
use echo_ai_c.Base.{
  ℕ, zero, suc, ◌+◌, ◌-◌, ◌/◌, ◌%◌, ◌^◌, Bool, true, false, not, ◌&&◌, ◌||◌, List, [], ◌∷◌, ltb,
  leb, ◌==◌, if◌then◌else◌, Bytes, get_or, length, take, Option, none, some,
}

-- A continuation byte: `0x80 | (bits & 0x3F)`.
abbrev tail_byte : ℕ → ℕ
tail_byte bits = 128 + bits % 64

-- The bytes written; none for a surrogate or a value beyond 0x10FFFF.
unfoldable pub utf8_encode_cp : ℕ → Bytes
utf8_encode_cp cp =
    if leb cp 0x7F
    then cp ∷ []
    else if leb cp 0x7FF
    then (0xC0 + cp / 2 ^ 6) ∷ tail_byte cp ∷ []
    else if leb 0xD800 cp && leb cp 0xDFFF
    then []
    else if leb cp 0xFFFF
    then (0xE0 + cp / 2 ^ 12) ∷ tail_byte (cp / 2 ^ 6) ∷ tail_byte cp ∷ []
    else if leb cp 0x10FFFF
    then (0xF0 + cp / 2 ^ 18) ∷ tail_byte (cp / 2 ^ 12) ∷ tail_byte (cp / 2 ^ 6) ∷ tail_byte cp ∷ []
    else []

abbrev cp1252_map : List ℕ
cp1252_map =
    0x20AC ∷ 0x0081 ∷ 0x201A ∷ 0x0192 ∷ 0x201E ∷ 0x2026 ∷ 0x2020 ∷ 0x2021 ∷ 0x02C6 ∷ 0x2030 ∷ 0x0160
    ∷ 0x2039 ∷ 0x0152 ∷ 0x008D ∷ 0x017D ∷ 0x008F ∷ 0x0090 ∷ 0x2018 ∷ 0x2019 ∷ 0x201C ∷ 0x201D
    ∷ 0x2022 ∷ 0x2013 ∷ 0x2014 ∷ 0x02DC ∷ 0x2122 ∷ 0x0161 ∷ 0x203A ∷ 0x0153 ∷ 0x009D ∷ 0x017E
    ∷ 0x0178 ∷ []

unfoldable pub cp1252_cp : ℕ → ℕ
cp1252_cp b = if ltb b 0x80 then b else if ltb b 0xA0 then get_or cp1252_map (b - 0x80) 0 else b

-- What follows a lead byte: how many bytes, and the range of the first of them.
pub record Lead : Type 0 where
  pub need : ℕ
  pub first_lo : ℕ
  pub first_hi : ℕ

abbrev lead : ℕ → ℕ → ℕ → Option Lead
lead n lo hi = some (record { need = n; first_lo = lo; first_hi = hi })

-- The chain of tests on a byte from 0x80 on; `none` where it is never a lead byte.
pub classify : ℕ → Option Lead
classify c =
    if leb 0xC2 c && leb c 0xDF
    then lead 1 0x80 0xBF
    else if c == 0xE0
    then lead 2 0xA0 0xBF
    else if leb 0xE1 c && leb c 0xEC
    then lead 2 0x80 0xBF
    else if c == 0xED
    then lead 2 0x80 0x9F
    else if leb 0xEE c && leb c 0xEF
    then lead 2 0x80 0xBF
    else if c == 0xF0
    then lead 3 0x90 0xBF
    else if leb 0xF1 c && leb c 0xF3
    then lead 3 0x80 0xBF
    else if c == 0xF4
    then lead 3 0x80 0x8F
    else none

abbrev in_range : ℕ → ℕ → ℕ → Bool
in_range lo hi c = leb lo c && leb c hi

-- `need` continuation bytes, and what follows them; `none` if one is missing or is none.
pub continuations : ℕ → Bytes → Option Bytes
continuations zero s = some s
continuations (suc n) [] = none
continuations (suc n) (c ∷ s) = if in_range 0x80 0xBF c then continuations n s else none

-- Whether the byte behind the lead byte is in its range.
pub first_in_range : Lead → Bytes → Bool
first_in_range l [] = false
first_in_range l (c ∷ s) = in_range l.first_lo l.first_hi c

-- The rest of a text behind a lead byte and its sequence.
pub sequence : ℕ → Bytes → Option Bytes
unfolding classify continuations first_in_range
sequence c s = elim (classify c) [
  | none ↦ none
  | some l ↦ if first_in_range l s then continuations l.need s else none
]

-- The loop, on fuel; `none` if the fuel runs out.
pub valid_from : ℕ → Bytes → Option Bool
unfolding sequence
valid_from zero s = none
valid_from (suc fuel) [] = some true
valid_from (suc fuel) (c ∷ s) = elim (ltb c 0x80) [
  | true ↦ valid_from fuel s
  | false ↦ elim (sequence c s) [ none ↦ some false | some rest ↦ valid_from fuel rest ]
]

unfoldable pub utf8_valid : Bytes → Option Bool
unfolding valid_from
utf8_valid s = valid_from (suc (length s)) s

-- `(data[cut] & 0xC0) == 0x80`; the byte behind the end is the terminating NUL.
abbrev is_continuation : Bytes → ℕ → Bool
is_continuation s i = get_or s i 0 / 64 % 4 == 2

unfoldable pub utf8_cut_boundary : Bytes → ℕ → ℕ
utf8_cut_boundary s zero = zero
utf8_cut_boundary s (suc cut) =
    let back = utf8_cut_boundary s cut in if is_continuation s (suc cut) then back else suc cut
