-- ===== src/Edit/Matching.antt =====
-- What the matching of the edits finds.
use echo_ai_c.Base.{
  ℕ, zero, suc, ◌+◌, ◌≤◌, ◌≡◌, ◌⊎◌, inl, inr, refl, sym, ap, ◌∙◌, subst, arith, Bool, true, false,
  not, List, [], ◌∷◌, ◌++◌, Option, none, some, map, ltb, ◌==◌, if◌then◌else◌, Bytes, has_prefix,
  prefix_rest, length, length-append, get_or, drop, All, Bool-cases,
}
use mathlib.Core.Sum.{inr-injective, inl-ne-inr}
use mathlib.Core.Option.{some-injective}
use echo_ai_c.Edit.{
  EditItem, EditMatch, EditError, oom, no_match, many_matches, Memory, strstr,
  edit_count_occurrences, edit_normalize_lf, edit_line_norm_len, find_edit, match_edits, no_item,
}

abbrev pub old_norm : EditItem → Bytes
old_norm item = edit_normalize_lf item.old_str

abbrev pub item_at : List EditItem → EditMatch → EditItem
item_at items k = get_or items k.edit_idx no_item

-- Where a match stands in a text.
abbrev pub FoundIn : List EditItem → Bytes → EditMatch → Type 0
FoundIn items front k =
    (a : Bytes) × ((b : Bytes) × (front ≡ a ++ (old_norm (item_at items k) ++ b))
      × (length a ≡ k.index)
      × (length (old_norm (item_at items k)) ≡ k.length))

-- What a search in the tail of a text says about the text.
step_back :
    (c i : ℕ) (s p : Bytes) (o : Option ℕ)
    → ((j : ℕ) → o ≡ some j → (a : Bytes) × ((b : Bytes) × (s ≡ a ++ (p ++ b)) × (length a ≡ j)))
    → elim o as (λ _. Option ℕ) [ none ↦ none | some j ↦ some (suc j) ] ≡ some i
    → (a : Bytes) × ((b : Bytes) × (c ∷ s ≡ a ++ (p ++ b)) × (length a ≡ i))
step_back c i s p none later h = absurd (ground (arith, h))
step_back c i s p (some j) later h =
    let (a, (b, same, l)) = later j refl in
    (c ∷ a, (b, ap (◌∷◌ c) same, ap suc l ∙ some-injective (suc j) i h))

strstr_lem :
    (s p : Bytes) (i : ℕ)
    → strstr s p ≡ some i
    → (a : Bytes) × ((b : Bytes) × (s ≡ a ++ (p ++ b)) × (length a ≡ i))
unfolding strstr
strstr_lem [] p i h = elim (Bool-cases (has_prefix [] p)) [
  | inl t ↦ ([], (drop (length p) [], prefix_rest [] p t, some-injective 0 i (sym (rw t refl) ∙ h)))
  | inr f ↦ absurd (ground (arith, h, f))
]
strstr_lem (c ∷ s) p i h = elim (Bool-cases (has_prefix (c ∷ s) p)) [
  | inl t ↦ (
    [],
    (drop (length p) (c ∷ s), prefix_rest (c ∷ s) p t, some-injective 0 i (sym (rw t refl) ∙ h)),
  )
  | inr f ↦ step_back c i s p (strstr s p) (λ j e. strstr_lem s p j e) (sym (rw f refl) ∙ h)
]

after_test :
    (b : Bool) (e : EditError) (x : EditError ⊎ EditMatch) (k : EditMatch)
    → (if b then inl e else x) ≡ inr k
    → (b ≡ false) × (x ≡ inr k)
after_test true e x k h = absurd (inl-ne-inr h)
after_test false e x k h = (refl, h)

found_index :
    (p : Option ℕ) (g : ℕ → EditMatch) (i : ℕ) (k : EditMatch)
    → elim p as (λ _. EditError ⊎ EditMatch) [
      | none ↦ inl (no_match i)
      | some index ↦ inr (g index)
    ]
      ≡ inr k
    → (index : ℕ) × (p ≡ some index) × (g index ≡ k)
found_index none g i k h = absurd (inl-ne-inr h)
found_index (some index) g i k h = (index, refl, inr-injective (g index) k h)

-- One round of the matching: the old text is counted once, and it is found.
find_cases :
    (alloc : Bool) (o p : Option ℕ) (g : ℕ → EditMatch) (i : ℕ) (k : EditMatch)
    → (if not alloc then inl oom else elim o as (λ _. EditError ⊎ EditMatch) [
      | none ↦ inl oom
      | some count ↦
          if count == 0
          then inl (no_match i)
          else if ltb 1 count
          then inl (many_matches i count)
          else elim p as (λ _. EditError ⊎ EditMatch) [
            | none ↦ inl (no_match i)
            | some index ↦ inr (g index)
          ]
    ])
      ≡ inr k
    → (o ≡ some 1) × ((index : ℕ) × (p ≡ some index) × (g index ≡ k))
find_cases false o p g i k h = absurd (inl-ne-inr h)
find_cases true none p g i k h = absurd (inl-ne-inr h)
find_cases true (some count) p g i k h =
    let first = after_test (count == 0) (no_match i) _ k h in
    let second = after_test (ltb 1 count) (many_matches i count) _ k first.1 in
    let one : count ≡ 1 = ground (arith, first.0, second.0) in
    (ap some one, found_index p g i k second.1)

abbrev pub OnceIn : Bytes → EditItem → Type 0
OnceIn norm item = edit_count_occurrences norm (old_norm item) ≡ some 1

find_edit_lem :
    (mem : Memory) (norm : Bytes) (i : ℕ) (items : List EditItem) (item : EditItem) (k : EditMatch)
    → get_or items i no_item ≡ item
    → find_edit mem norm i item ≡ inr k
    → FoundIn items norm k × (item_at items k ≡ item) × OnceIn norm item
unfolding find_edit
find_edit_lem mem norm i items item k at h =
    let g : ℕ → EditMatch = λ index. record {
      index = index;
      length = length (old_norm item);
      new_len = edit_line_norm_len item.new_str;
      edit_idx = i;
    } in
    let (once, (index, found, is_k)) =
      find_cases (mem.old_norm i) (edit_count_occurrences norm (old_norm item))
        (strstr norm (old_norm item)) g i k h in
    let (a, (b, same, l)) = strstr_lem norm (old_norm item) index found in
    subst (λ k. FoundIn items norm k × (item_at items k ≡ item) × OnceIn norm item) is_k
      (rw at ((a, (b, same, l, refl)), refl, once))

drop-cons :
    (items rest : List EditItem) (item : EditItem) (i : ℕ)
    → drop i items ≡ item ∷ rest
    → (get_or items i no_item ≡ item) × (drop (suc i) items ≡ rest)
drop-cons [] rest item zero h = absurd (ground (arith, h))
drop-cons [] rest item (suc i) h = absurd (ground (arith, h))
drop-cons (x ∷ items) rest item zero h = ground (arith, h)
drop-cons (x ∷ items) rest item (suc i) h = drop-cons items rest item i h

match_cases :
    (o : EditError ⊎ EditMatch) (r : EditError ⊎ List EditMatch) (ks : List EditMatch)
    → elim o as (λ _. EditError ⊎ List EditMatch) [
      | inl e ↦ inl e
      | inr k ↦ elim r as (λ _. EditError ⊎ List EditMatch) [
        | inl e ↦ inl e
        | inr ks ↦ inr (k ∷ ks)
      ]
    ]
      ≡ inr ks
    → (k : EditMatch) × ((rest : List EditMatch) × (o ≡ inr k) × (r ≡ inr rest) × (ks ≡ k ∷ rest))
match_cases (inl e) r ks h = absurd (inl-ne-inr h)
match_cases (inr k) (inl e) ks h = absurd (inl-ne-inr h)
match_cases (inr k) (inr rest) ks h = (k, (rest, refl, refl, sym (inr-injective (k ∷ rest) ks h)))

pub match_edits_lem :
    (mem : Memory) (norm : Bytes) (items es : List EditItem) (i : ℕ) (ks : List EditMatch)
    → drop i items ≡ es
    → match_edits mem norm i es ≡ inr ks
    → All (FoundIn items norm) ks × (map (item_at items) ks ≡ es) × All (OnceIn norm) es
unfolding match_edits
match_edits_lem mem norm items [] i ks d h =
    subst (λ ks. All (FoundIn items norm) ks × (map (item_at items) ks ≡ []) × All (OnceIn norm) [])
      (inr-injective [] ks h) (tt, refl, tt)
match_edits_lem mem norm items (item ∷ es) i ks d h =
    let (k, (rest, here, later, same)) =
      match_cases (find_edit mem norm i item) (match_edits mem norm (suc i) es) ks h in
    let next = drop-cons items es item i d in
    let first = find_edit_lem mem norm i items item k next.0 here in
    let others = match_edits_lem mem norm items es (suc i) rest next.1 later in
    subst
      (λ ks.
        All (FoundIn items norm) ks
        × (map (item_at items) ks ≡ item ∷ es)
        × All (OnceIn norm) (item ∷ es))
      (sym same) ((first.0, others.0), rw (first.1, others.1) refl, (first.2, others.2))

pub found_end :
    (items : List EditItem) (norm : Bytes) (k : EditMatch)
    → FoundIn items norm k
    → k.index + k.length ≤ length norm
found_end items norm k (a, (b, same, l, m)) =
    let old : Bytes = old_norm (item_at items k) in
    let whole_length : length norm ≡ length a + (length old + length b) =
      ap length same ∙ length-append a (old ++ b) ∙ ap (◌+◌ (length a)) (length-append old b) in
    omega (arith, whole_length, l, m)
