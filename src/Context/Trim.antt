-- ===== src/Context/Trim.antt =====
-- `trim_messages_by_tokens_new`: what it keeps.
use mathlib.Core.List.{reverse, reverse-cons, reverse-reverse, map-append}
use echo_ai_c.Base.{
  ℕ, ◌+◌, ◌-◌, ◌≤◌, ◌≡◌, refl, sym, ap, ◌∙◌, arith, Bool, true, false, not, ◌&&◌, ◌||◌, List, [],
  ◌∷◌, ◌++◌, map, All, if◌then◌else◌, leb, inl, inr, subst, ◌⊎◌,
}
use echo_ai_c.Context.{
  Message, Env, is_system, repair_after, repair_pairs, kept, estimate_tokens, mark_recent,
  mark_budget, trim_marks, trim_messages,
}

abbrev pub Marks : Type 0
Marks = List (Message × Bool)

abbrev pub messages : Marks → List Message
messages = map (λ x. x.0)

-- The system messages of a list, in order.
pub systems : List Message → List Message
systems [] = []
systems (m ∷ ms) = let more = systems ms in if is_system m then m ∷ more else more

-- `Subseq xs ys`: `xs` is `ys` with some messages left out, the order kept.
pub data Subseq : List Message → List Message → Type 0 where
  stop : Subseq [] []
  keep : {m : Message} {xs ys : List Message} → Subseq xs ys → Subseq (m ∷ xs) (m ∷ ys)
  skip : {m : Message} {xs ys : List Message} → Subseq xs ys → Subseq xs (m ∷ ys)

abbrev SystemsKept : Marks → Type 0
SystemsKept = All (λ x. is_system x.0 ≡ true → x.1 ≡ true)

All-append : (P : Message × Bool → Type 0) (xs ys : Marks) → All P xs → All P ys → All P (xs ++ ys)
All-append P [] ys h k = k
All-append P (x ∷ xs) ys h k = (h.0, All-append P xs ys h.1 k)

All-reverse : (P : Message × Bool → Type 0) (xs : Marks) → All P xs → All P (reverse xs)
All-reverse P [] h = tt
All-reverse P (x ∷ xs) h =
    rw (reverse-cons x xs) (All-append P (reverse xs) (x ∷ []) (All-reverse P xs h.1) (h.0, tt))

map-reverse : (xs : Marks) → messages (reverse xs) ≡ reverse (messages xs)
map-reverse [] = refl
map-reverse (x ∷ xs) =
    rw (reverse-cons x xs, map-append, map-reverse xs) (sym (reverse-cons x.0 (messages xs)))

mark_recent-messages : (ms : List Message) (e : Bool) (b : ℕ) → messages (mark_recent e b ms) ≡ ms
unfolding mark_recent
mark_recent-messages [] e b = refl
mark_recent-messages (m ∷ ms) e b = ap (◌∷◌ m) (mark_recent-messages ms _ _)

mark_recent-SystemsKept : (ms : List Message) (e : Bool) (b : ℕ) → SystemsKept (mark_recent e b ms)
unfolding mark_recent
mark_recent-SystemsKept [] e b = tt
mark_recent-SystemsKept (m ∷ ms) e b = (λ h. rw h refl, mark_recent-SystemsKept ms _ _)

mark_budget-messages : (ms : List Message) (b : ℕ) → messages (mark_budget ms b) ≡ ms
unfolding mark_budget
mark_budget-messages ms b =
    map-reverse (mark_recent false b (reverse ms))
    ∙ ap reverse (mark_recent-messages (reverse ms) false b)
    ∙ reverse-reverse ms

repair_after-messages :
    (p : Message) (kp owed : Bool) (xs : Marks)
    → messages (repair_after p kp owed xs) ≡ p ∷ messages xs
unfolding repair_after
repair_after-messages p kp owed [] = refl
repair_after-messages p kp owed ((m, k) ∷ xs) = ap (◌∷◌ p) (repair_after-messages m _ _ xs)

pub repair_pairs-messages : (xs : Marks) → messages (repair_pairs xs) ≡ messages xs
unfolding repair_pairs
repair_pairs-messages [] = refl
repair_pairs-messages ((m, k) ∷ xs) = repair_after-messages m k false xs

repair_after-SystemsKept :
    (p : Message) (kp owed : Bool) (xs : Marks)
    → (is_system p ≡ true → kp ≡ true)
    → SystemsKept xs
    → SystemsKept (repair_after p kp owed xs)
unfolding repair_after
repair_after-SystemsKept p kp owed [] h k = (h, tt)
repair_after-SystemsKept p kp owed ((m, f) ∷ xs) h k =
    (λ s. rw (h s) refl, repair_after-SystemsKept m _ _ xs (λ s. rw (k.0 s) refl) k.1)

trim_marks-SystemsKept : (ms : List Message) (b : ℕ) → SystemsKept (trim_marks ms b)
unfolding trim_marks repair_pairs
trim_marks-SystemsKept ms b = start (mark_budget ms b) (all b)
  where
    all : (b : ℕ) → SystemsKept (mark_budget ms b)
    all b = unfold mark_budget in All-reverse _ _ (mark_recent-SystemsKept (reverse ms) false b)

    start : (xs : Marks) → SystemsKept xs → SystemsKept (repair_pairs xs)
    start [] h = tt
    start ((m, k) ∷ xs) h = repair_after-SystemsKept m k false xs h.0 h.1

systems-kept : (xs : Marks) → SystemsKept xs → systems (kept xs) ≡ systems (messages xs)
unfolding systems kept
systems-kept [] h = refl
systems-kept ((m, k) ∷ xs) h = ground (arith, systems-kept xs h.1)

pub kept-Subseq : (xs : Marks) → Subseq (kept xs) (messages xs)
unfolding kept
kept-Subseq [] = stop
kept-Subseq ((m, true) ∷ xs) = keep (kept-Subseq xs)
kept-Subseq ((m, false) ∷ xs) = skip (kept-Subseq xs)

pub Subseq-refl : (ms : List Message) → Subseq ms ms
Subseq-refl [] = stop
Subseq-refl (m ∷ ms) = keep (Subseq-refl ms)

trim_marks-messages : (ms : List Message) (b : ℕ) → messages (trim_marks ms b) ≡ ms
unfolding trim_marks
trim_marks-messages ms b = repair_pairs-messages (mark_budget ms b) ∙ mark_budget-messages ms b

trim_cases :
    (env : Env) (ms : List Message) (b : ℕ)
    → (trim_messages env ms b ≡ ms) ⊎ (trim_messages env ms b ≡ kept (trim_marks ms b))
unfolding trim_messages
trim_cases env ms b = ground arith

-- Trimming to any number of tokens keeps every system message, in order, and leaves the order
-- of the messages that it keeps, whatever the allocations do.
pub trim_messages-keeps :
    (env : Env) (ms : List Message) (b : ℕ)
    → (systems (trim_messages env ms b) ≡ systems ms) × Subseq (trim_messages env ms b) ms
trim_messages-keeps env ms b = elim (trim_cases env ms b) [
  | inl e ↦ rw e (refl, Subseq-refl ms)
  | inr e ↦ rw e (
    systems-kept (trim_marks ms b) (trim_marks-SystemsKept ms b)
        ∙ ap systems (trim_marks-messages ms b),
    subst (Subseq (kept (trim_marks ms b))) (trim_marks-messages ms b)
        (kept-Subseq (trim_marks ms b)),
  )
]

-- The tokens of the marked messages that are not system messages.
pub spent : Marks → ℕ
spent [] = 0
spent ((m, k) ∷ xs) = (if k && not (is_system m) then estimate_tokens m.content else 0) + spent xs

spent-append : (xs ys : Marks) → spent (xs ++ ys) ≡ spent xs + spent ys
unfolding spent
spent-append [] ys = omega arith
spent-append ((m, k) ∷ xs) ys = omega (arith, spent-append xs ys)

spent-reverse : (xs : Marks) → spent (reverse xs) ≡ spent xs
spent-reverse [] = refl
spent-reverse (x ∷ xs) =
    rw (reverse-cons x xs, spent-append, spent-reverse xs) (unfold spent in omega arith)

spent-mark_recent : (ms : List Message) (e : Bool) (b : ℕ) → spent (mark_recent e b ms) ≤ b
unfolding spent mark_recent
spent-mark_recent [] e b = omega arith
spent-mark_recent (m ∷ ms) e b =
    let t = estimate_tokens m.content in
    let fits = not e && not (is_system m) && leb t b in
    ground (
      arith,
      spent-mark_recent ms (e || (not (is_system m) && not fits)) (if fits then b - t else b),
    )

-- Before the pairs of tool and assistant are repaired, the marked messages that are not system
-- messages cost no more than the budget.
pub spent-mark_budget-le : (ms : List Message) (b : ℕ) → spent (mark_budget ms b) ≤ b
unfolding mark_budget
spent-mark_budget-le ms b =
    rw (spent-reverse (mark_recent false b (reverse ms))) (spent-mark_recent (reverse ms) false b)
