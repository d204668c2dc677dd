-- ===== src/StringUtils.antt =====
-- src/utils/string_utils.c: trimming, splitting, bounded copies, truncation and the JSON clean-up. A C
-- string is its bytes before the NUL; an allocation's outcome is an argument.
mod Tests
pub mod Split
pub mod Trim
pub mod Copy
pub mod Truncate
use echo_ai_c.Base.{
  ℕ, zero, suc, ◌+◌, ◌-◌, ◌*◌, ◌/◌, ◌%◌, ◌^◌, min, Bool, true, false, not, ◌&&◌, ◌||◌, List, [],
  ◌∷◌, ◌++◌, Option, none, some, ltb, leb, ◌==◌, if◌then◌else◌, Bytes, codes, bytes_eq, has_prefix,
  has_byte, length, get_or, take, drop,
}

-- `isspace` in the C locale.
abbrev pub is_space : ℕ → Bool
is_space c = c == 32 || (leb 9 c && leb c 13)

unfoldable pub skip_space : Bytes → Bytes
skip_space [] = []
skip_space (c ∷ s) = if is_space c then skip_space s else c ∷ s

-- `while (end > start && isspace(end[-1])) end--;`
unfoldable pub drop_space_end : Bytes → Bytes
drop_space_end [] = []
drop_space_end (c ∷ s) = elim (drop_space_end s) [
  | [] ↦ if is_space c then [] else c ∷ []
  | d ∷ t ↦ c ∷ d ∷ t
]

unfoldable pub str_trim : Bytes → Bytes
unfolding skip_space drop_space_end
str_trim s = drop_space_end (skip_space s)

-- `none` is -1; a NULL target is the empty string, as after `realloc`.
pub str_append : Bool → Option Bytes → Bytes → Option Bytes
str_append alloc target value =
    let old : Bytes = elim target [ none ↦ [] | some s ↦ s ] in
    if ltb (2 ^ 64 - 1 - length old - 1) (length value)
    then none
    else if alloc
    then some (old ++ value)
    else none

-- The destination after the copy, `none` where nothing is written, and the result.
pub strlcpy : Bytes → ℕ → Option Bytes × ℕ
strlcpy src size = if size == 0 then (none, length src) else (
  some (take (if ltb (length src) (size - 1) then length src else size - 1) src),
  length src,
)

pub strlcat : Bytes → Bytes → ℕ → Bytes × ℕ
strlcat dst src size = if leb size (length dst) then (dst, size + length src) else (
  dst
      ++ take
          (if ltb (length src) (size - length dst - 1) then length src else size - length dst - 1)
          src,
  length dst + length src,
)

unfoldable pub str_starts_with : Bytes → Bytes → Bool
unfolding has_prefix
str_starts_with s p = has_prefix s p

unfoldable pub str_ends_with : Bytes → Bytes → Bool
unfolding bytes_eq
str_ends_with s t =
    if ltb (length s) (length t) then false else bytes_eq (drop (length s - length t) s) t

-- The bytes between the delimiters.
pub push_front : ℕ → List Bytes → List Bytes
push_front c [] = (c ∷ []) ∷ []
push_front c (p ∷ ps) = (c ∷ p) ∷ ps

pub pieces : ℕ → Bytes → List Bytes
unfolding push_front
pieces d [] = [] ∷ []
pieces d (c ∷ s) = let rest = pieces d s in if c == d then [] ∷ rest else push_front c rest

-- The pieces whose copies are made; one that cannot be copied is left out, and where the array cannot
-- be had all are. `mem` answers for a delimiter and a piece.
pub copied : (Bytes → Bool) → List Bytes → List Bytes
copied mem [] = []
copied mem (p ∷ ps) = let rest = copied mem ps in if mem p then p ∷ rest else rest

unfoldable pub str_split : (ℕ → Bytes → Bool) → Bytes → ℕ → List Bytes
unfolding pieces copied
str_split mem s d = copied (mem d) (pieces d s)

-- The decimal digits of a number, as `%zu` prints it; 20 digits are enough for 64 bits.
pub decimal : ℕ → ℕ → Bytes
decimal zero n = []
decimal (suc fuel) n =
    let more = decimal fuel (n / 10) ++ ((b'0' + n % 10) ∷ []) in
    if ltb n 10 then (b'0' + n) ∷ [] else more

pub omitted_marker : ℕ → Bytes
unfolding decimal
omitted_marker n = codes "[... truncated, " ++ (decimal 20 n ++ codes " chars omitted ...]")

-- `while (keep > 0 && (text[keep] & 0xC0) == 0x80) keep--;`
pub keep_boundary : Bytes → ℕ → ℕ
keep_boundary s zero = zero
keep_boundary s (suc keep) =
    let back = keep_boundary s keep in
    if get_or s (suc keep) 0 / 64 % 4 == 2 then back else suc keep

unfoldable pub str_truncate_ellipsis_dup : Bool → Bytes → ℕ → Option Bytes
unfolding omitted_marker keep_boundary
str_truncate_ellipsis_dup alloc text max_chars =
    if not alloc
    then none
    else if leb (length text) max_chars
    then some text
    else let marker = take 63 (omitted_marker (length text - max_chars)) in
      if ltb (length marker + 1) max_chars
      then some (take (keep_boundary text (max_chars - length marker)) text ++ marker)
      else some (take (keep_boundary text max_chars) text)

-- The four bytes that the JSON clean-up skips.
abbrev is_json_space : ℕ → Bool
is_json_space c = c == b' ' || (c == b'\t' || (c == b'\n' || c == b'\r'))

pub skip_json_space : Bytes → Bytes
skip_json_space [] = []
skip_json_space (c ∷ s) = if is_json_space c then skip_json_space s else c ∷ s

pub skip_line : Bytes → Bytes
skip_line [] = []
skip_line (c ∷ s) = if c == b'\n' then s else skip_line s

-- The text behind an opening fence.
pub behind_fence : Bytes → Bytes
unfolding skip_json_space skip_line has_prefix
behind_fence s =
    let p = skip_json_space s in if has_prefix p (codes "```") then skip_line (drop 3 p) else p

abbrev closes : Bytes → Bool
closes [] = false
closes (c ∷ s) = c == b']' || c == b'}'

-- The commas at the end of what was written.
pub drop_commas_end : Bytes → Bytes
drop_commas_end [] = []
drop_commas_end (c ∷ s) = elim (drop_commas_end s) [
  | [] ↦ if c == b',' then [] else c ∷ []
  | d ∷ t ↦ c ∷ d ∷ t
]

-- The loop: what is written, whether the byte before is a backslash, whether a string is open. At the
-- first comma before a closing bracket the rest is copied as it is, unless nothing was written.
pub clean_json : Bytes → Bool → Bool → Bytes → Bytes
unfolding skip_json_space drop_commas_end
clean_json written escaped in_string [] = written
clean_json written escaped in_string (c ∷ s) =
    let inside : Bool = if c == b'"' && not escaped then not in_string else in_string in
    elim (not inside && (c == b'\n' || (c == b'\r' || c == b'\t'))) [
      | true ↦ clean_json written (c == b'\\') inside s
      | false ↦ elim (not inside && (c == b',' && closes (skip_json_space s))) [
        | true ↦ elim (drop_commas_end written) [ [] ↦ [] | d ∷ t ↦ (d ∷ t) ++ skip_json_space s ]
        | false ↦ clean_json (written ++ (c ∷ [])) (c == b'\\') inside s
      ]
    ]

pub drop_json_space_end : Bytes → Bytes
drop_json_space_end [] = []
drop_json_space_end (c ∷ s) = elim (drop_json_space_end s) [
  | [] ↦ if is_json_space c then [] else c ∷ []
  | d ∷ t ↦ c ∷ d ∷ t
]

unfoldable pub sanitize_json_dup : Bool → Bytes → Option Bytes
unfolding behind_fence clean_json drop_json_space_end str_trim
sanitize_json_dup alloc s =
    if alloc
    then some (str_trim (drop_json_space_end (clean_json [] false false (behind_fence s))))
    else none
