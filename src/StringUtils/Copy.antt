-- ===== src/StringUtils/Copy.antt =====
-- The bounded copies of C strings.
use echo_ai_c.Base.{
  ℕ, zero, suc, ◌+◌, ◌-◌, ◌<◌, ◌≤◌, ◌≡◌, ◌↔◌, refl, sym, ap, ◌∙◌, arith, false, [], ◌∷◌, ◌++◌, some,
  ltb, leb, ◌==◌, if◌then◌else◌, Bytes, length, length-append, length-take, min, take, take_all,
  Bool-cases, inl, inr,
}
use echo_ai_c.StringUtils.{strlcpy, strlcat}

copy_length : (n m : ℕ) → (if ltb n m then n else m) ≡ min n m
copy_length n m = ground arith

take-min : (n : ℕ) (s : Bytes) → take (min (length s) n) s ≡ take n s
take-min zero [] = refl
take-min zero (c ∷ s) =
    ap (λ k. take k (c ∷ s)) (let e : min (length (c ∷ s)) 0 ≡ 0 = omega arith in e)
take-min (suc n) [] = ap (λ k. take k []) (let e : min 0 (suc n) ≡ 0 = omega arith in e)
take-min (suc n) (c ∷ s) =
    let step : min (suc (length s)) (suc n) ≡ suc (min (length s) n) = omega arith in
    rw step (ap (◌∷◌ c) (take-min n s))

take-append_short :
    (a b : Bytes) (n : ℕ) → length a ≤ n → a ++ take (n - length a) b ≡ take n (a ++ b)
take-append_short [] b n l = ap (λ k. take k b) (let e : n - 0 ≡ n = omega arith in e)
take-append_short (c ∷ a) b zero l = absurd (omega arith)
take-append_short (c ∷ a) b (suc n) l =
    let step : suc n - suc (length a) ≡ n - length a = omega arith in
    rw step (ap (◌∷◌ c) (take-append_short a b n (omega arith)))

take-append_long : (a b : Bytes) (n : ℕ) → n ≤ length a → take n (a ++ b) ≡ take n a
take-append_long a b zero l = refl
take-append_long [] b (suc n) l = absurd (omega arith)
take-append_long (c ∷ a) b (suc n) l = ap (◌∷◌ c) (take-append_long a b n (omega arith))

strlcpy_lem :
    (src : Bytes) (size : ℕ)
    → 0 < size
    → strlcpy src size ≡ (some (take (size - 1) src), length src)
unfolding strlcpy
strlcpy_lem src zero l = absurd (omega arith)
strlcpy_lem src (suc n) l =
    let positive : (suc n == 0) ≡ false = ground arith in
    rw positive (
      ap (λ (x : Bytes). (some x, length src))
        (ap (λ k. take k src) (copy_length (length src) (suc n - 1)) ∙ take-min (suc n - 1) src))

strlcat_lem :
    (dst src : Bytes) (size : ℕ)
    → length dst < size
    → strlcat dst src size ≡ (take (size - 1) (dst ++ src), length dst + length src)
unfolding strlcat
strlcat_lem dst src size l =
    let room : leb size (length dst) ≡ false = ground arith in
    let same : size - length dst - 1 ≡ (size - 1) - length dst = omega arith in
    rw room (
      ap (λ (x : Bytes). (x, length dst + length src))
        (ap (λ k. dst ++ take k src) (copy_length (length src) (size - length dst - 1))
          ∙ ap (◌++◌ dst) (take-min (size - length dst - 1) src)
          ∙ ap (λ k. dst ++ take k src) same
          ∙ take-append_short dst src (size - 1) (omega arith)))

joined : (a b : Bytes) (n : ℕ) → take n (take n a ++ b) ≡ take n (a ++ b)
joined a b n = elim (Bool-cases (leb (length a) n)) [
  | inl short ↦ ap (λ x. take n (x ++ b)) (take_all a n (ground (arith, short)))
  | inr long ↦
      let front : length (take n a) ≡ n = ground (arith, long, length-take n a) in
      take-append_long (take n a) b n (omega (arith, front))
      ∙ take_all (take n a) n (omega (arith, front))
      ∙ sym (take-append_long a b n (ground (arith, long)))
]

-- A text copied into a buffer of a positive size and another one behind it give the joined text, cut to
-- leave room for the NUL; nothing was cut exactly if both results are below the size.
pub strlcat-strlcpy :
    (a b : Bytes) (size : ℕ)
    → 0 < size
    → let dst : Bytes = take (size - 1) a in
      ((strlcpy a size).0 ≡ some dst)
      × ((strlcat dst b size).0 ≡ take (size - 1) (a ++ b))
      × ((((strlcpy a size).1 < size) × ((strlcat dst b size).1 < size))
          ↔ ((strlcat dst b size).0 ≡ a ++ b))
strlcat-strlcpy a b size l =
    let dst : Bytes = take (size - 1) a in
    let cut : length dst ≡ min (size - 1) (length a) = length-take (size - 1) a in
    let copy = strlcpy_lem a size l in
    let cat = strlcat_lem dst b size (omega (arith, cut)) in
    let whole : (strlcat dst b size).0 ≡ take (size - 1) (a ++ b) =
      ap (λ x. x.0) cat ∙ joined a b (size - 1) in
    let sum : length (a ++ b) ≡ length a + length b = length-append a b in
    let results : (((strlcpy a size).1 < size) × ((strlcat dst b size).1 < size))
        ≡ ((length a < size) × (length dst + length b < size)) =
      ap (λ (p : ℕ × ℕ). (p.0 < size) × (p.1 < size)) (rw (copy, cat) refl) in
    (
      ap (λ x. x.0) copy,
      whole,
      (
        (λ h.
            whole
            ∙ take_all (a ++ b) (size - 1) (
                let g : (length a < size) × (length dst + length b < size) = rw results at h in
                ground (arith, g, sum, cut))),
        (λ e.
            let short : min (size - 1) (length (a ++ b)) ≡ length (a ++ b) =
              sym (length-take (size - 1) (a ++ b)) ∙ ap length (sym whole ∙ e) in
            rw results (ground (arith, short, sum, cut, l))),
      ),
    )
