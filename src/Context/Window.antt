-- ===== src/Context/Window.antt =====
-- `apply_context_window` and `smart_select_alloc`.
use echo_ai_c.Base.{
  ℕ, suc, ◌+◌, ◌^◌, ◌%◌, ◌≤◌, ◌<◌, ◌≡◌, refl, ap, ◌∙◌, arith, Bool, true, false, List, [], ◌∷◌,
  length, leb, take, length-take, some, none, Option, Bool-cases, Option-cases, inl, inr, min,
  subst, ◌↔◌, zero, take_all, leb→le,
}
use echo_ai_c.Context.Trim.{
  messages, Subseq, stop, keep, skip, Subseq-refl, kept-Subseq, repair_pairs-messages,
}
use echo_ai_c.Context.{
  Message, Env, MsgScore, apply_context_window, window_fits, count_chars, smart_select, copy_all,
  copy_kept, marked, kept, zip_flags, array_read,
}

-- The characters of all contents.
unfoldable pub total_chars : List Message → ℕ
total_chars [] = 0
total_chars (m ∷ ms) = (elim m.content [ none ↦ 0 | some text ↦ length text ]) + total_chars ms

within : ℕ → Option ℕ → Bool
within max none = false
within max (some t) = leb t max

count_chars-total :
    (ms : List Message) (max total : ℕ)
    → max < 2 ^ 63
    → total + total_chars ms < 2 ^ 63
    → within max (count_chars max total ms) ≡ leb (total + total_chars ms) max
unfolding count_chars total_chars within
count_chars-total [] max total h k = ground arith
count_chars-total (m ∷ ms) max total h k = elim (Option-cases m.content) [
  | inl e ↦ ground (arith, count_chars-total ms max total h)
  | inr (text, e) ↦ ground (arith, count_chars-total ms max ((total + length text) % 2 ^ 64) h)
]

-- The window is left alone exactly when there are at most `max_messages` messages with at most
-- `max_chars` characters in all, for limits and totals below 2^63: the wrapping comparison of
-- the loop decides the true sum.
pub window_fits_iff :
    (ms : List Message) (max_messages max_chars : ℕ)
    → max_chars < 2 ^ 63
    → total_chars ms < 2 ^ 63
    → (window_fits ms max_messages max_chars ≡ true)
      ↔ ((length ms ≤ max_messages) × (total_chars ms ≤ max_chars))
unfolding window_fits within
window_fits_iff ms n max h k = ground (arith, count_chars-total ms max 0 h)

copy_all-eq : (env : Env) (ms cs : List Message) → copy_all env ms ≡ some cs → cs ≡ ms
unfolding copy_all
copy_all-eq env [] cs e = ground arith
copy_all-eq env (m ∷ ms) cs e = elim (Option-cases (copy_all env ms)) [
  | inl n ↦ ground arith
  | inr (ds, c) ↦ ground (arith, copy_all-eq env ms ds c)
]

copy_kept-eq :
    (env : Env) (ms : List Message) (n : ℕ) (cs : List Message)
    → copy_kept env ms n ≡ some cs
    → (cs ≡ take (min (length ms) n) ms) × (0 < length cs)
unfolding copy_kept
copy_kept-eq env ms n cs e =
    ground
      (arith, copy_all-eq env (take (min (length ms) n) ms) cs, length-take (min (length ms) n) ms)

zip_flags-messages : (ms : List Message) (fs : List Bool) → messages (zip_flags ms fs) ≡ ms
unfolding zip_flags
zip_flags-messages [] fs = refl
zip_flags-messages (m ∷ ms) [] = ap (◌∷◌ m) (zip_flags-messages ms [])
zip_flags-messages (m ∷ ms) (f ∷ fs) = ap (◌∷◌ m) (zip_flags-messages ms fs)

marked-messages :
    (qsort : List MsgScore → List MsgScore) (ms : List Message) (n : ℕ)
    → messages (marked qsort ms n) ≡ ms
unfolding marked
marked-messages qsort ms n = repair_pairs-messages _ ∙ zip_flags-messages ms _

Subseq-take : (n : ℕ) {xs ys : List Message} → Subseq xs ys → Subseq (take n xs) ys
Subseq-take zero stop = stop
Subseq-take zero (keep s) = skip (Subseq-take zero s)
Subseq-take zero (skip s) = skip (Subseq-take zero s)
Subseq-take (suc n) stop = stop
Subseq-take (suc n) (keep s) = keep (Subseq-take n s)
Subseq-take (suc n) (skip s) = skip (Subseq-take (suc n) s)

-- A selection that succeeds has at most `keep_count` messages, and is the given list with some
-- left out, in the same order, whatever permutation or other list `qsort` gives.
pub smart_select-bounds :
    (qsort : List MsgScore → List MsgScore) (env : Env) (ms : List Message) (n : ℕ)
    (cs : List Message)
    → smart_select qsort env ms n ≡ some cs
    → (length cs ≤ n) × Subseq cs ms
unfolding smart_select
smart_select-bounds qsort env ms n cs e = elim (Bool-cases (leb (length ms) n)) [
  | inl all ↦ let c = copy_all-eq env ms cs (ground arith) in rw c (leb→le _ _ all, Subseq-refl ms)
  | inr some_left ↦
      let (c, _) = copy_kept-eq env (kept (marked qsort ms n)) n cs (ground arith) in
      rw c (
        omega (
          arith,
          length-take (min (length (kept (marked qsort ms n))) n) (kept (marked qsort ms n)),
        ),
        Subseq-take _ (
            subst (Subseq (kept (marked qsort ms n))) (marked-messages qsort ms n)
              (kept-Subseq (marked qsort ms n))),
      )
]

-- No allocation fails.
pub record Plenty (env : Env) : Type 0 where
  pub scores_ok : env.calloc_scores ≡ true
  pub flags_ok : env.calloc_flags ≡ true
  pub selected_ok : env.calloc_selected ≡ true
  pub copies_ok : (m : Message) → env.copies m ≡ true

copy_all-Plenty : (env : Env) (ms : List Message) → Plenty env → copy_all env ms ≡ some ms
unfolding copy_all
copy_all-Plenty env [] v = refl
copy_all-Plenty env (m ∷ ms) v = ground (arith, v.copies_ok m, copy_all-Plenty env ms v)

smart_select_short :
    (qsort : List MsgScore → List MsgScore) (env : Env) (ms : List Message) (n : ℕ)
    → Plenty env
    → n < length ms
    → 0 < length (kept (marked qsort ms n))
    → length (kept (marked qsort ms n)) < n
    → smart_select qsort env ms n ≡ some (kept (marked qsort ms n))
unfolding smart_select copy_kept
smart_select_short qsort env ms n v more some_left short =
    let marks = kept (marked qsort ms n) in
    ground (arith, copy_all-Plenty env marks v, take_all marks (min (length marks) n))

-- If there are more messages than `max_messages` and the two passes mark fewer than that, but
-- at least one, then, with no allocation failing, `apply_context_window` reads beyond the end
-- of the array that the selection gave it.
pub short_selection_overread :
    (qsort : List MsgScore → List MsgScore) (env : Env) (ms : List Message) (n max_chars : ℕ)
    → Plenty env
    → n < length ms
    → 0 < length (kept (marked qsort ms n))
    → length (kept (marked qsort ms n)) < n
    → apply_context_window qsort env ms n max_chars ≡ none
unfolding apply_context_window window_fits array_read
short_selection_overread qsort env ms n max_chars v more some_left short =
    ground (arith, smart_select_short qsort env ms n v more some_left short)
