-- ===== src/Config.antt =====
-- src/config/config.c: the reader of the configuration file, and the lookups. The file is its bytes, read
-- by `fgets`; `strtol` is a parameter; the allocations succeed.
mod Tests
pub mod Lines
pub mod Render
pub mod Tokens
use echo_ai_c.Base.{
  ℕ, zero, suc, ◌+◌, ◌≡◌, Bool, true, false, Option, none, some, List, [], ◌∷◌, ◌++◌, Bytes, codes,
  bytes_eq, has_prefix, ℤ, pos, negsuc, leb, ltb, ◌==◌, if◌then◌else◌, length, take, drop,
}
use echo_ai_c.StringUtils.{skip_space, drop_space_end}

pub record Entry : Type 0 where
  pub key : Bytes
  pub value : Bytes

pub record ConfToken : Type 0 where
  pub provider : Bytes
  pub token : Bytes

-- The local variables of the loop of `conf_load`: `last` is the entry that a continuation line extends.
pub record Reader : Type 0 where
  pub entries : List Entry
  pub section : Bytes
  pub last : Option ℕ

unfoldable pub trim_line : Bytes → Bytes
unfolding skip_space drop_space_end
trim_line line = drop_space_end (skip_space line)

-- `fgets` with room for `n` bytes: what it reads, up to the newline, and the rest of the file.
unfoldable pub fgets : ℕ → Bytes → Bytes × Bytes
fgets zero s = ([], s)
fgets (suc n) [] = ([], [])
fgets (suc n) (c ∷ s) =
    let more = fgets n s in if c == 10 then (10 ∷ [], s) else (c ∷ more.0, more.1)

-- A C string is what stands before the first NUL.
unfoldable pub until_nul : Bytes → Bytes
until_nul [] = []
until_nul (c ∷ s) = if c == 0 then [] else c ∷ until_nul s

-- `if (llen > 0 && line[llen - 1] == '\n') line[llen - 1] = '\0';`
unfoldable pub drop_newline : Bytes → Bytes
drop_newline [] = []
drop_newline (c ∷ []) = if c == 10 then [] else c ∷ []
drop_newline (c ∷ d ∷ s) = c ∷ drop_newline (d ∷ s)

-- What stands before the first byte `c`, and behind it.
unfoldable pub strchr : Bytes → ℕ → Option (Bytes × Bytes)
strchr [] c = none
strchr (x ∷ s) c =
    let more = strchr s c in
    if x == c then some ([], s) else elim more [ none ↦ none | some p ↦ some (x ∷ p.0, p.1) ]

unfoldable pub full_key : Bytes → Bytes → Bytes
full_key [] key = key
full_key (c ∷ section) key = (c ∷ section) ++ (b'.' ∷ key)

-- Appends a line to the value of the entry at an index.
unfoldable pub extend : List Entry → ℕ → Bytes → List Entry
extend [] i raw = []
extend (e ∷ es) zero raw = record e { value = e.value ++ (10 ∷ raw) } ∷ es
extend (e ∷ es) (suc i) raw = e ∷ extend es i raw

-- At most 256 entries are kept; one more leaves `last` as it is.
unfoldable pub add_entry : Reader → Bytes → Bytes → Reader
unfolding full_key trim_line
add_entry st key value =
    if ltb (length st.entries) 256
    then record st {
      entries =
          st.entries
          ++ (record { key = full_key st.section (trim_line key); value = trim_line value } ∷ []);
      last = some (length st.entries);
    }
    else st

unfoldable pub continue_entry : Reader → Bytes → Reader
unfolding extend
continue_entry st raw = elim st.last [
  | none ↦ st
  | some i ↦ record st { entries = extend st.entries i raw }
]

unfoldable pub read_raw : Reader → Bytes → Reader
unfolding strchr add_entry continue_entry
read_raw st [] = st
read_raw st (c ∷ raw) =
    if c == b'#'
    then st
    else if c == b'['
    then elim (strchr raw b']') [
      | none ↦ st
      | some p ↦ record st { section = take 255 p.0; last = none }
    ]
    else elim (strchr (c ∷ raw) b'=') [
      | none ↦ continue_entry st (c ∷ raw)
      | some p ↦ add_entry st p.0 p.1
    ]

unfoldable pub read_line : Reader → Bytes → Reader
unfolding read_raw until_nul drop_newline skip_space
read_line st line = read_raw st (skip_space (drop_newline (until_nul line)))

-- The loop over the file; the fuel is its length, as each round reads a byte at least.
unfoldable pub read_lines : ℕ → Reader → Bytes → Reader
unfolding fgets read_line
read_lines zero st s = st
read_lines (suc fuel) st [] = st
read_lines (suc fuel) st (c ∷ s) =
    let line = fgets 4095 (c ∷ s) in read_lines fuel (read_line st line.0) line.1

-- A file that cannot be opened gives no configuration.
unfoldable pub conf_load : Option Bytes → Option (List Entry)
unfolding read_lines
conf_load none = none
conf_load (some file) =
    some (read_lines (length file) record { entries = []; section = []; last = none } file).entries

unfoldable pub conf_get : List Entry → Bytes → Option Bytes
conf_get [] key = none
conf_get (e ∷ es) key = if bytes_eq e.key key then some e.value else conf_get es key

unfoldable pub in_int : ℤ → ℤ → ℤ
in_int (pos n) def = if leb n 2147483647 then pos n else def
in_int (negsuc n) def = if leb n 2147483647 then negsuc n else def

-- What `strtol` answers: a value, with what it has not read. All of the text has to be read.
unfoldable pub whole_int : Bytes → ℤ × Bytes → ℤ → ℤ
unfolding in_int
whole_int val (result, []) def = if length val == 0 then def else in_int result def
whole_int val (result, c ∷ rest) def = def

unfoldable pub conf_get_int : (Bytes → ℤ × Bytes) → List Entry → Bytes → ℤ → ℤ
unfolding conf_get whole_int
conf_get_int strtol conf key def = elim (conf_get conf key) [
  | none ↦ def
  | some val ↦ whole_int val (strtol val) def
]

abbrev pub providers_prefix : Bytes
providers_prefix = codes "providers."

-- The tokens of the entries that name a provider.
unfoldable pub conf_provider_tokens : List Entry → List ConfToken
conf_provider_tokens [] = []
conf_provider_tokens (e ∷ es) =
    let more = conf_provider_tokens es in
    if has_prefix e.key providers_prefix
    then elim (drop 10 e.key) [
      | [] ↦ more
      | c ∷ name ↦ record { provider = c ∷ name; token = e.value } ∷ more
    ]
    else more

unfoldable pub key_name : Bytes → Bytes
key_name provider =
    if bytes_eq provider (codes "opencode_zen")
    then codes "opencode"
    else if bytes_eq provider (codes "opencode_go")
    then codes "opencode"
    else provider

unfoldable pub conf_provider_token : List Entry → Bytes → Option Bytes
unfolding key_name conf_get
conf_provider_token conf provider =
    if leb 96 (10 + length (key_name provider))
    then none
    else conf_get conf (providers_prefix ++ key_name provider)
