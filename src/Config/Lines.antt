-- ===== src/Config/Lines.antt =====
-- A file of short lines is read line by line.
use echo_ai_c.Base.{
  ℕ, zero, suc, ◌≤◌, ◌<◌, ◌≡◌, ◌≢◌, refl, ap, ◌∙◌, arith, false, List, [], ◌∷◌, ◌++◌, Bytes, ◌==◌,
  length, length-append, All,
}
use echo_ai_c.StringUtils.{skip_space}
use echo_ai_c.Config.{Reader, fgets, until_nul, drop_newline, read_raw, read_line, read_lines}

abbrev pub IsLine : Bytes → Type 0
IsLine l = All (λ c. (c ≢ 10) × (c ≢ 0)) l × (length l ≤ 4094)

abbrev pub unlines : List Bytes → Bytes
unlines [] = []
unlines (l ∷ ls) = l ++ (10 ∷ unlines ls)

abbrev Plain : Bytes → Type 0
Plain l = All (λ c. (c ≢ 10) × (c ≢ 0)) l

fgets-line :
    (n : ℕ) (l r : Bytes) → Plain l → length l < n → fgets n (l ++ (10 ∷ r)) ≡ (l ++ (10 ∷ []), r)
unfolding fgets
fgets-line zero l r p h = elim h [ ]
fgets-line (suc n) [] r p h = refl
fgets-line (suc n) (c ∷ l) r p h =
    let other : (c == 10) ≡ false = ground (arith, p.0.0) in
    rw (other, fgets-line n l r p.1 (omega arith)) refl

until_nul-line : (l : Bytes) → Plain l → until_nul (l ++ (10 ∷ [])) ≡ l ++ (10 ∷ [])
unfolding until_nul
until_nul-line [] p = refl
until_nul-line (c ∷ l) p =
    let other : (c == 0) ≡ false = ground (arith, p.0.1) in
    rw other (ap (◌∷◌ c) (until_nul-line l p.1))

drop_newline-line : (l : Bytes) → drop_newline (l ++ (10 ∷ [])) ≡ l
unfolding drop_newline
drop_newline-line [] = refl
drop_newline-line (c ∷ []) = refl
drop_newline-line (c ∷ d ∷ l) = ap (◌∷◌ c) (drop_newline-line (d ∷ l))

-- The loop over lines.
abbrev pub read_all : Reader → List Bytes → Reader
read_all st [] = st
read_all st (l ∷ ls) = read_all (read_raw st (skip_space l)) ls

read_line_lem :
    (st : Reader) (l : Bytes) → Plain l → read_line st (l ++ (10 ∷ [])) ≡ read_raw st (skip_space l)
unfolding read_line
read_line_lem st l p =
    ap (λ b. read_raw st (skip_space b))
      (ap drop_newline (until_nul-line l p) ∙ drop_newline-line l)

read_lines-cons :
    (fuel : ℕ) (st : Reader) (l r : Bytes)
    → Plain l
    → length l ≤ 4094
    → read_lines (suc fuel) st (l ++ (10 ∷ r)) ≡ read_lines fuel (read_raw st (skip_space l)) r
unfolding read_lines
read_lines-cons fuel st [] r p h =
    let e = fgets-line 4095 [] r p (omega arith) in
    ap (λ (q : Bytes × Bytes). read_lines fuel (read_line st q.0) q.1) e
    ∙ ap (λ t. read_lines fuel t r) (read_line_lem st [] p)
read_lines-cons fuel st (c ∷ l) r p h =
    let e = fgets-line 4095 (c ∷ l) r p (omega arith) in
    ap (λ (q : Bytes × Bytes). read_lines fuel (read_line st q.0) q.1) e
    ∙ ap (λ t. read_lines fuel t r) (read_line_lem st (c ∷ l) p)

nothing_left : (fuel : ℕ) (st : Reader) → read_lines fuel st [] ≡ st
unfolding read_lines
nothing_left zero st = refl
nothing_left (suc fuel) st = refl

pub read_lines-unlines :
    (fuel : ℕ) (st : Reader) (ls : List Bytes)
    → All IsLine ls
    → length (unlines ls) ≤ fuel
    → read_lines fuel st (unlines ls) ≡ read_all st ls
read_lines-unlines fuel st [] p h = nothing_left fuel st
read_lines-unlines zero st (l ∷ ls) p h = absurd (omega (arith, length-append l (10 ∷ unlines ls)))
read_lines-unlines (suc fuel) st (l ∷ ls) p h =
    read_lines-cons fuel st l (unlines ls) p.0.0 p.0.1
    ∙ read_lines-unlines fuel (read_raw st (skip_space l)) ls p.1
        (omega (arith, length-append l (10 ∷ unlines ls)))
