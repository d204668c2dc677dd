-- ===== src/Config/Render.antt =====
-- A configuration that is written out is read back.
use echo_ai_c.Base.{
  ℕ, ◌+◌, ◌≤◌, ◌<◌, ◌≡◌, ◌≢◌, refl, sym, ap, ◌∙◌, arith, Bool, true, false, none, some, List, [],
  ◌∷◌, ◌++◌, map, append-nil, append_assoc, Bytes, ltb, ◌==◌, if◌then◌else◌, length, length-append,
  take_all, All, inl, inr, ◌⊎◌,
}
use echo_ai_c.StringUtils.{is_space, skip_space, drop_space_end}
use echo_ai_c.StringUtils.Trim.{starts_solid, ends_solid}
use echo_ai_c.Config.{
  Entry, Reader, trim_line, strchr, full_key, extend, add_entry, continue_entry, read_raw,
  conf_load,
}
use echo_ai_c.Config.Lines.{IsLine, unlines, read_all, read_lines-unlines}

-- A setting: its section, its key, and the lines of its value.
pub record Setting : Type 0 where
  pub section : Bytes
  pub key : Bytes
  pub first : Bytes
  pub more : List Bytes

abbrev pub joined : Bytes → List Bytes → Bytes
joined v [] = v
joined v (l ∷ ls) = joined (v ++ (10 ∷ l)) ls

abbrev pub entry_of : Setting → Entry
entry_of s = record { key = full_key s.section s.key; value = joined s.first s.more }

-- Its lines in the file: the section, the key with the first line of the value, and the other lines.
abbrev pub lines_of : Setting → List Bytes
lines_of s = (b'[' ∷ (s.section ++ (b']' ∷ []))) ∷ (s.key ++ (b'=' ∷ s.first)) ∷ s.more

abbrev pub file_of : List Setting → List Bytes
file_of [] = []
file_of (s ∷ ss) = lines_of s ++ file_of ss

abbrev Without : ℕ → Bytes → Type 0
Without c l = All (λ x. x ≢ c) l

-- The first byte is no space, and does not make the line a comment or a section.
abbrev opens_value : Bytes → Bool
opens_value [] = false
opens_value (c ∷ l) =
    if is_space c then false else if c == b'#' then false else if c == b'[' then false else true

-- A section has at most 255 bytes and no bracket; a key and a value line begin with a byte that is no space and
-- does not open a comment or a section; no key and no further line has an equals sign; keys and first lines have no
-- space at their ends.
abbrev pub IsSetting : Setting → Type 0
IsSetting s =
    Without b']' s.section
    × (length s.section ≤ 255)
    × (opens_value s.key ≡ true)
    × (ends_solid s.key ≡ true)
    × Without b'=' s.key
    × ((s.first ≡ []) ⊎ ((starts_solid s.first ≡ true) × (ends_solid s.first ≡ true)))
    × All (λ l. (opens_value l ≡ true) × Without b'=' l) s.more

strchr-append : (l r : Bytes) (c : ℕ) → Without c l → strchr (l ++ (c ∷ r)) c ≡ some (l, r)
unfolding strchr
strchr-append [] r c h = rw (same c) refl
  where
    same : (c : ℕ) → (c == c) ≡ true
    same c = ground arith
strchr-append (x ∷ l) r c h =
    let other : (x == c) ≡ false = ground (arith, h.0) in rw (other, strchr-append l r c h.1) refl

strchr-none : (l : Bytes) (c : ℕ) → Without c l → strchr l c ≡ none
unfolding strchr
strchr-none [] c h = refl
strchr-none (x ∷ l) c h =
    let other : (x == c) ≡ false = ground (arith, h.0) in rw (other, strchr-none l c h.1) refl

skip_space-solid : (l : Bytes) → starts_solid l ≡ true → skip_space l ≡ l
unfolding skip_space
skip_space-solid [] h = refl
skip_space-solid (c ∷ l) h = ground (arith, h)

drop_space_end-solid : (l : Bytes) → ends_solid l ≡ true → drop_space_end l ≡ l
unfolding drop_space_end
drop_space_end-solid [] h = refl
drop_space_end-solid (c ∷ []) h = ground (arith, h)
drop_space_end-solid (c ∷ d ∷ l) h = rw (drop_space_end-solid (d ∷ l) h) refl

trim_line-solid : (l : Bytes) → starts_solid l ≡ true → ends_solid l ≡ true → trim_line l ≡ l
unfolding trim_line
trim_line-solid l a b = ap drop_space_end (skip_space-solid l a) ∙ drop_space_end-solid l b

extend-last :
    (es : List Entry) (e : Entry) (raw : Bytes)
    → extend (es ++ (e ∷ [])) (length es) raw
      ≡ es ++ (record e { value = e.value ++ (10 ∷ raw) } ∷ [])
unfolding extend
extend-last [] e raw = refl
extend-last (x ∷ es) e raw = ap (◌∷◌ x) (extend-last es e raw)

opens_solid : (l : Bytes) → opens_value l ≡ true → starts_solid l ≡ true
opens_solid [] h = h
opens_solid (c ∷ l) h = ground (arith, h)

opened_raw :
    (st : Reader) (l : Bytes)
    → opens_value l ≡ true
    → read_raw st l ≡ elim (strchr l b'=') as (λ _. Reader) [
      | none ↦ continue_entry st l
      | some p ↦ add_entry st p.0 p.1
    ]
unfolding read_raw
opened_raw st [] h = absurd (ground (arith, h))
opened_raw st (c ∷ l) h =
    let hash : (c == b'#') ≡ false = ground (arith, h) in
    let bracket : (c == b'[') ≡ false = ground (arith, h) in rw (read_raw, hash, bracket) refl

opens-append : (l r : Bytes) → opens_value l ≡ true → opens_value (l ++ r) ≡ true
opens-append [] r h = absurd (ground (arith, h))
opens-append (c ∷ l) r h = h

section_read :
    (st : Reader) (section : Bytes)
    → Without b']' section
    → length section ≤ 255
    → read_raw st (skip_space (b'[' ∷ (section ++ (b']' ∷ []))))
      ≡ record st { section = section; last = none }
unfolding read_raw skip_space
section_read st section w h =
    rw (strchr-append section [] b']' w)
      (ap (λ t. record st { section = t; last = none }) (take_all section 255 h))

abbrev added : Reader → Bytes → Bytes → Reader
added st key value = record st {
  entries = st.entries ++ (record { key = full_key st.section key; value = value } ∷ []);
  last = some (length st.entries);
}

trimmed_first :
    (l : Bytes) → (l ≡ []) ⊎ ((starts_solid l ≡ true) × (ends_solid l ≡ true)) → trim_line l ≡ l
unfolding trim_line skip_space drop_space_end
trimmed_first [] h = refl
trimmed_first (c ∷ l) (inl e) = absurd (ground (arith, e))
trimmed_first (c ∷ l) (inr (a, b)) = trim_line-solid (c ∷ l) a b

key_read :
    (st : Reader) (key first : Bytes)
    → opens_value key ≡ true
    → ends_solid key ≡ true
    → Without b'=' key
    → (first ≡ []) ⊎ ((starts_solid first ≡ true) × (ends_solid first ≡ true))
    → length st.entries < 256
    → read_raw st (skip_space (key ++ (b'=' ∷ first))) ≡ added st key first
unfolding add_entry
key_read st key first opens ends w f room =
    let line : Bytes = key ++ (b'=' ∷ first) in
    let open_line = opens-append key (b'=' ∷ first) opens in
    let fits : ltb (length st.entries) 256 ≡ true = ground (arith, room) in
    let split : read_raw st line ≡ add_entry st key first =
      opened_raw st line open_line ∙ rw (strchr-append key first b'=' w) refl in
    ap (read_raw st) (skip_space-solid line (opens_solid line open_line))
    ∙ (split
        ∙ (rw (add_entry, fits)
            (λ i.
              added st (trim_line-solid key (opens_solid key opens) ends i)
                (trimmed_first first f i))))

more_read :
    (st : Reader) (es : List Entry) (k v : Bytes) (ls : List Bytes)
    → All (λ l. (opens_value l ≡ true) × Without b'=' l) ls
    → read_all
        (record st {
          entries = es ++ (record { key = k; value = v } ∷ []);
          last = some (length es);
        })
        ls
      ≡ record st {
        entries = es ++ (record { key = k; value = joined v ls } ∷ []);
        last = some (length es);
      }
unfolding continue_entry
more_read st es k v [] h = refl
more_read st es k v (l ∷ ls) h =
    let now : Reader = record st {
      entries = es ++ (record { key = k; value = v } ∷ []);
      last = some (length es);
    } in
    let line : read_raw now (skip_space l) ≡ record st {
      entries = es ++ (record { key = k; value = v ++ (10 ∷ l) } ∷ []);
      last = some (length es);
    } =
      ap (read_raw now) (skip_space-solid l (opens_solid l h.0.0))
      ∙ (opened_raw now l h.0.0
          ∙ rw (strchr-none l b'=' h.0.1) (
              ap (λ x. record now { entries = x })
                (extend-last es record { key = k; value = v } l))) in
    ap (λ t. read_all t ls) line ∙ more_read st es k (v ++ (10 ∷ l)) ls h.1

setting_read :
    (st : Reader) (s : Setting)
    → IsSetting s
    → length st.entries < 256
    → (read_all st (lines_of s)).entries ≡ st.entries ++ (entry_of s ∷ [])
setting_read st s (w, short, opens, ends, w_key, f, rest) room =
    let opened : Reader = record st { section = s.section; last = none } in
    let a = section_read st s.section w short in
    let b = key_read opened s.key s.first opens ends w_key f room in
    ap (λ t. (read_all (read_raw t (skip_space (s.key ++ (b'=' ∷ s.first)))) s.more).entries) a
    ∙ (ap (λ t. (read_all t s.more).entries) b
        ∙ ap (λ (t : Reader). t.entries)
            (more_read opened st.entries (full_key s.section s.key) s.first s.more rest))

read_all-append :
    (st : Reader) (a b : List Bytes) → read_all st (a ++ b) ≡ read_all (read_all st a) b
read_all-append st [] b = refl
read_all-append st (l ∷ a) b = read_all-append (read_raw st (skip_space l)) a b

settings_read :
    (st : Reader) (ss : List Setting)
    → All IsSetting ss
    → length st.entries + length ss ≤ 256
    → (read_all st (file_of ss)).entries ≡ st.entries ++ map entry_of ss
settings_read st [] h room = sym (append-nil st.entries)
settings_read st (s ∷ ss) h room =
    let next : Reader = read_all st (lines_of s) in
    let e : next.entries ≡ st.entries ++ (entry_of s ∷ []) = setting_read st s h.0 (omega arith) in
    let longer : length next.entries ≡ length st.entries + 1 =
      ap length e ∙ length-append st.entries (entry_of s ∷ []) in
    ap (λ (t : Reader). t.entries) (read_all-append st (lines_of s) (file_of ss))
    ∙ (settings_read next ss h.1 (omega (arith, longer))
        ∙ (ap (λ x. x ++ map entry_of ss) e
            ∙ append_assoc st.entries (entry_of s ∷ []) (map entry_of ss)))

-- A file that writes out at most 256 settings, in lines of at most 4094 bytes without NUL, is loaded as their
-- entries, in their order: the key behind its section and a dot, unless the section is empty, and the lines of the
-- value joined by newlines.
pub conf_load-unlines :
    (ss : List Setting)
    → All IsSetting ss
    → All IsLine (file_of ss)
    → length ss ≤ 256
    → conf_load (some (unlines (file_of ss))) ≡ some (map entry_of ss)
unfolding conf_load
conf_load-unlines ss settings lines few =
    let start : Reader = record { entries = []; section = []; last = none } in
    let file : Bytes = unlines (file_of ss) in
    ap (λ (t : Reader). some t.entries)
      (read_lines-unlines (length file) start (file_of ss) lines (omega arith))
    ∙ ap some (settings_read start ss settings (omega arith))
