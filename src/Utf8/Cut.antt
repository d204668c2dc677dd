-- ===== src/Utf8/Cut.antt =====
-- A text cut at `utf8_cut_boundary` stays valid.
use echo_ai_c.Base.{
  ℕ, zero, suc, ◌+◌, ◌-◌, ◌/◌, ◌%◌, ◌<◌, ◌≤◌, ◌≡◌, refl, ap, ◌∙◌, arith, Bool, true, false, List,
  [], ◌∷◌, ◌++◌, Bytes, length, length-append, ltb, All, get_or, take, some, ◌==◌, Bool-cases, inl,
  inr,
}
use echo_ai_c.Utf8.{utf8_encode_cp, utf8_valid, utf8_cut_boundary}
use echo_ai_c.Utf8.Encode.{IsScalar, encode_all, Encodes, utf8_valid_iff}

abbrev continues : ℕ → Bool
continues c = c / 64 % 4 == 2

-- A lead byte with continuation bytes behind it.
abbrev Shape : Bytes → Type 0
Shape [] = ⊥
Shape (c ∷ t) = (continues c ≡ false) × All (λ b. continues b ≡ true) t

utf8_encode_cp-Shape : (cp : ℕ) → IsScalar cp → Shape (utf8_encode_cp cp)
unfolding utf8_encode_cp
utf8_encode_cp-Shape cp h = ground arith

tail_continues :
    (t rest : Bytes) (i : ℕ)
    → All (λ b. continues b ≡ true) t
    → i < length t
    → continues (get_or (t ++ rest) i 0) ≡ true
tail_continues [] rest i h l = absurd (omega arith)
tail_continues (b ∷ t) rest zero h l = h.0
tail_continues (b ∷ t) rest (suc i) h l = tail_continues t rest i h.1 (omega arith)

-- A cut within the bytes of one code point goes back to its start.
within_lead :
    (c : ℕ) (t rest : Bytes) (cut : ℕ)
    → All (λ b. continues b ≡ true) t
    → cut ≤ length t
    → utf8_cut_boundary (c ∷ (t ++ rest)) cut ≡ 0
unfolding utf8_cut_boundary
within_lead c t rest zero h l = refl
within_lead c t rest (suc cut) h l =
    rw (tail_continues t rest cut h (omega arith)) (within_lead c t rest cut h (omega arith))

Shape-starts : (e rest : Bytes) → Shape e → continues (get_or (e ++ rest) 0 0) ≡ false
Shape-starts [] rest h = absurd h
Shape-starts (c ∷ t) rest h = h.0

-- No text begins with a continuation byte.
starts : (cps : List ℕ) → All IsScalar cps → continues (get_or (encode_all cps) 0 0) ≡ false
unfolding encode_all
starts [] h = refl
starts (cp ∷ cps) h =
    Shape-starts (utf8_encode_cp cp) (encode_all cps) (utf8_encode_cp-Shape cp h.0)

get_or-append :
    (e rest : Bytes) (i j : ℕ) → i ≡ length e + j → get_or (e ++ rest) i 0 ≡ get_or rest j 0
get_or-append [] rest i j h = let same : i ≡ j = omega arith in rw same refl
get_or-append (c ∷ e) rest zero j h = absurd (omega arith)
get_or-append (c ∷ e) rest (suc i) j h = get_or-append e rest i j (omega arith)

boundary_here : (s : Bytes) (i : ℕ) → continues (get_or s i 0) ≡ false → utf8_cut_boundary s i ≡ i
unfolding utf8_cut_boundary
boundary_here s zero f = refl
boundary_here s (suc i) f = rw f refl

boundary_back :
    (s : Bytes) (i : ℕ)
    → continues (get_or s (suc i) 0) ≡ true
    → utf8_cut_boundary s (suc i) ≡ utf8_cut_boundary s i
unfolding utf8_cut_boundary
boundary_back s i f = rw f refl

-- A cut behind the first code point is a cut of what follows it.
behind_lead :
    (e rest : Bytes) (i j : ℕ)
    → continues (get_or rest 0 0) ≡ false
    → i ≡ length e + j
    → utf8_cut_boundary (e ++ rest) i ≡ length e + utf8_cut_boundary rest j
behind_lead e rest i zero f h =
    rw (boundary_here (e ++ rest) i (rw (get_or-append e rest i 0 h) f))
      (omega (arith, boundary_here rest 0 f))
behind_lead e rest zero (suc j) f h = absurd (omega arith)
behind_lead e rest (suc i) (suc j) f h = elim (Bool-cases (continues (get_or rest (suc j) 0))) [
  | inl back ↦
      rw
        (
          boundary_back (e ++ rest) i (rw (get_or-append e rest (suc i) (suc j) h) back),
          boundary_back rest j back,
        )
        (behind_lead e rest i j f (omega arith))
  | inr here ↦
      rw
        (
          boundary_here (e ++ rest) (suc i) (rw (get_or-append e rest (suc i) (suc j) h) here),
          boundary_here rest (suc j) here,
        )
        h
]

boundary-le : (s : Bytes) (i : ℕ) → utf8_cut_boundary s i ≤ i
unfolding utf8_cut_boundary
boundary-le s zero = omega arith
boundary-le s (suc i) = ground (arith, boundary-le s i)

take-append_beyond :
    (e rest : Bytes) (n k : ℕ) → n ≡ length e + k → take n (e ++ rest) ≡ e ++ take k rest
take-append_beyond [] rest n k h = let same : n ≡ k = omega arith in rw same refl
take-append_beyond (c ∷ e) rest zero k h = absurd (omega arith)
take-append_beyond (c ∷ e) rest (suc n) k h =
    ap (◌∷◌ c) (take-append_beyond e rest n k (omega arith))

within_code_point :
    (e rest : Bytes) (cut : ℕ) → Shape e → cut < length e → utf8_cut_boundary (e ++ rest) cut ≡ 0
within_code_point [] rest cut h l = absurd h
within_code_point (c ∷ t) rest cut h l = within_lead c t rest cut h.1 (omega arith)

Encodes-take :
    (cps : List ℕ) (cut : ℕ)
    → All IsScalar cps
    → cut ≤ length (encode_all cps)
    → Encodes (take (utf8_cut_boundary (encode_all cps) cut) (encode_all cps))
unfolding encode_all
Encodes-take [] zero h l = ([], tt, unfold utf8_cut_boundary in refl)
Encodes-take [] (suc cut) h l = absurd (omega arith)
Encodes-take (cp ∷ cps) cut h l = elim (Bool-cases (ltb cut (length (utf8_encode_cp cp)))) [
  | inl inside ↦
      rw
        (within_code_point (utf8_encode_cp cp) (encode_all cps) cut (utf8_encode_cp-Shape cp h.0)
          (ground arith))
        ([], tt, refl)
  | inr behind ↦
      let e = utf8_encode_cp cp in
      let rest = encode_all cps in
      let j = cut - length e in
      let (front, v, same) = Encodes-take cps j h.1 (ground (arith, length-append e rest)) in
      let b = behind_lead e rest cut j (starts cps h.1) (ground arith) in
      (
        cp ∷ front,
        (h.0, v),
        rw b (take-append_beyond e rest _ (utf8_cut_boundary rest j) refl ∙ ap (◌++◌ e) same),
      )
]

-- A valid text cut at `utf8_cut_boundary`, for a cut that does not lie beyond its end, is valid, and
-- the boundary does not lie behind the cut.
pub utf8_valid-cut :
    (s : Bytes) (cut : ℕ)
    → utf8_valid s ≡ some true
    → cut ≤ length s
    → (utf8_valid (take (utf8_cut_boundary s cut) s) ≡ some true) × (utf8_cut_boundary s cut ≤ cut)
utf8_valid-cut s cut v l =
    let (cps, h, e) = (utf8_valid_iff s).1.0 v in
    ((utf8_valid_iff _).1.1 (rw e (Encodes-take cps cut h (rw e at l))), boundary-le s cut)
