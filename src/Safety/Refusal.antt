-- ===== src/Safety/Refusal.antt =====
-- The check of commands finds the plain patterns, and nothing but patterns.
use echo_ai_c.Base.{
  ℕ, ◌≡◌, refl, sym, ◌∙◌, arith, Bool, true, false, not, ◌&&◌, ◌||◌, List, [], ◌∷◌, ◌==◌,
  if◌then◌else◌, Bytes, has_substring, length, any, Bool-cases, inl, inr,
}
use echo_ai_c.StringUtils.{str_split, str_trim, pieces, copied}
use echo_ai_c.StringUtils.Split.{any-pieces-has_substring, any-copied, nothing_copied}
use echo_ai_c.StringUtils.Trim.{has_substring-str_trim_only}
use echo_ai_c.Safety.{
  SafetyMode, is_unrestricted, is_dangerous, begins_with_amp, check_segment, refuses_line,
  refuses_statement, check_with, dangerous_patterns, SafetyConfig, safety_check_command,
}
use echo_ai_c.Safety.Command.{plenty, any_mono, both, holds, holds_plain, refused_command}

any_none : {A : Type 0} (qs : List A) → any (λ q. false) qs ≡ false
any_none [] = refl
any_none (q ∷ qs) = any_none qs

any_or :
    {A : Type 0} (f g : A → Bool) (qs : List A) → any (λ q. f q || g q) qs ≡ (any f qs || any g qs)
any_or f g [] = refl
any_or f g (q ∷ qs) = ground (arith, any_or f g qs)

one_pattern :
    (p : Bytes) (mem : Bytes → Bool) (d : ℕ) (s : Bytes)
    → any (λ q. has_substring (str_trim q) p) (copied mem (pieces d s)) ≡ true
    → has_substring s p ≡ true
one_pattern p mem d s h = any-pieces-has_substring d s p (
    any_mono (λ q. has_substring (str_trim q) p) (λ q. has_substring q p) (pieces d s)
      (λ q k. has_substring-str_trim_only q p k)
      (any-copied (λ q. has_substring (str_trim q) p) mem (pieces d s) h))

other_patterns :
    (ps : List Bytes) (p : Bytes) (mem : ℕ → Bytes → Bool) (d : ℕ) (s : Bytes)
    → has_substring s p ≡ false
    → any (λ q. holds (p ∷ ps) (str_trim q)) (copied (mem d) (pieces d s)) ≡ true
    → any (λ q. holds ps (str_trim q)) (copied (mem d) (pieces d s)) ≡ true
other_patterns ps p mem d s f h =
    let qs : List Bytes = copied (mem d) (pieces d s) in
    let here : any (λ q. has_substring (str_trim q) p) qs ≡ true → has_substring s p ≡ true =
      one_pattern p (mem d) d s in
    let either : (any (λ q. has_substring (str_trim q) p) qs || any (λ q. holds ps (str_trim q)) qs)
        ≡ true =
      sym (any_or (λ q. has_substring (str_trim q) p) (λ q. holds ps (str_trim q)) qs) ∙ h in
    ground (arith, either, f, here)

-- What a trimmed piece holds, the text holds.
holds_piece :
    (patterns : List Bytes) (mem : ℕ → Bytes → Bool) (d : ℕ) (s : Bytes)
    → any (λ q. holds patterns (str_trim q)) (str_split mem s d) ≡ true
    → holds patterns s ≡ true
unfolding str_split
holds_piece [] mem d s h = sym (any_none (copied (mem d) (pieces d s))) ∙ h
holds_piece (p ∷ ps) mem d s h = elim (Bool-cases (has_substring s p)) [
  | inl t ↦ rw t refl
  | inr f ↦ rw f (holds_piece ps mem d s (other_patterns ps p mem d s f h))
]

found_dangerous :
    (patterns : List Bytes) (s : Bytes) → is_dangerous patterns s ≡ true → holds patterns s ≡ true
unfolding is_dangerous
found_dangerous patterns s h = (both (not (length s == 0)) (holds patterns s) h).1

-- One level of the check: if it refuses some trimmed piece, and only for a pattern that the piece holds, then the
-- text holds one.
found_level :
    (patterns : List Bytes) (mem : ℕ → Bytes → Bool) (d : ℕ) (s : Bytes) (f : Bytes → Bool)
    → ((q : Bytes) → f q ≡ true → holds patterns q ≡ true)
    → any (λ q. f (str_trim q)) (str_split mem s d) ≡ true
    → holds patterns s ≡ true
found_level patterns mem d s f h k = holds_piece patterns mem d s (
    any_mono (λ q. f (str_trim q)) (λ q. holds patterns (str_trim q)) (str_split mem s d)
      (λ q l. h (str_trim q) l) k)

either_split :
    (a b c : Bool)
    → (a ≡ true → c ≡ true)
    → (b ≡ true → c ≡ true)
    → (if a then false else not b) ≡ false
    → c ≡ true
either_split a b c f g h = ground (arith, h, f, g)

was_false : (a : Bool) → not a ≡ true → a ≡ false
was_false a h = ground (arith, h)

unless_refused : (u a : Bool) → (if u then true else not a) ≡ false → a ≡ true
unless_refused u a h = ground (arith, h)

found_segment :
    (patterns : List Bytes) (mem : ℕ → Bytes → Bool) (s : Bytes)
    → check_segment mem patterns s ≡ false
    → holds patterns s ≡ true
unfolding check_segment
found_segment patterns mem s h =
    let level : (d : ℕ)
        → any (λ q. is_dangerous patterns (str_trim q)) (str_split mem s d) ≡ true
        → holds patterns s ≡ true =
      λ d. found_level patterns mem d s (is_dangerous patterns) (found_dangerous patterns) in
    either_split (any (λ q. is_dangerous patterns (str_trim q)) (str_split mem s b'|'))
      (any (λ q. not (begins_with_amp q) && is_dangerous patterns (str_trim q))
        (str_split mem s b'&'))
      (holds patterns s) (level b'|')
      (λ found. level b'&' (
        any_mono (λ q. not (begins_with_amp q) && is_dangerous patterns (str_trim q))
          (λ q. is_dangerous patterns (str_trim q)) (str_split mem s b'&')
          (λ q k. (both (not (begins_with_amp q)) (is_dangerous patterns (str_trim q)) k).1) found))
      h

found_line :
    (patterns : List Bytes) (mem : ℕ → Bytes → Bool) (s : Bytes)
    → refuses_line mem patterns s ≡ true
    → holds patterns s ≡ true
unfolding refuses_line
found_line patterns mem s h = found_segment patterns mem s (
    was_false (check_segment mem patterns s)
      (both (not (length s == 0)) (not (check_segment mem patterns s)) h).1)

found_statement :
    (patterns : List Bytes) (mem : ℕ → Bytes → Bool) (s : Bytes)
    → refuses_statement mem patterns s ≡ true
    → holds patterns s ≡ true
unfolding refuses_statement
found_statement patterns mem s h =
    found_level patterns mem b'\n' s (refuses_line mem patterns) (found_line patterns mem)
      (both (not (length s == 0))
        (any (λ l. refuses_line mem patterns (str_trim l)) (str_split mem s b'\n')) h).1

found_command :
    (patterns : List Bytes) (mem : ℕ → Bytes → Bool) (mode : SafetyMode) (s : Bytes)
    → check_with mem patterns mode s ≡ false
    → holds patterns s ≡ true
unfolding check_with
found_command patterns mem mode s h =
    found_level patterns mem b';' s (refuses_statement mem patterns) (found_statement patterns mem)
      (unless_refused (is_unrestricted mode)
        (any (λ q. refuses_statement mem patterns (str_trim q)) (str_split mem s b';')) h)

-- Unless the mode is unrestricted, a command is refused if it holds a dangerous pattern anywhere that
-- begins and ends with a byte that is no space and has no `;`, line feed or `|`, where memory is
-- given; and if it is refused, whatever copies were made, it holds some dangerous pattern.
pub safety_check_command-patterns :
    (mem : ℕ → Bytes → Bool) (cfg : SafetyConfig) (command : Bytes)
    → is_unrestricted cfg.mode ≡ false
    → (holds_plain dangerous_patterns command ≡ true
        → safety_check_command plenty cfg command ≡ false)
      × (safety_check_command mem cfg command ≡ false → holds dangerous_patterns command ≡ true)
unfolding safety_check_command
safety_check_command-patterns mem cfg command m = (
  refused_command dangerous_patterns cfg.mode command m,
  found_command dangerous_patterns mem cfg.mode command,
)

-- Where the statements of a command cannot be copied, the check lets every command pass.
pub safety_check_command-out_of_memory :
    (mem : ℕ → Bytes → Bool) (cfg : SafetyConfig) (command : Bytes)
    → ((p : Bytes) → mem b';' p ≡ false)
    → safety_check_command mem cfg command ≡ true
unfolding safety_check_command check_with str_split
safety_check_command-out_of_memory mem cfg command h =
    rw (nothing_copied (mem b';') (pieces b';' command) h) (ground arith)
