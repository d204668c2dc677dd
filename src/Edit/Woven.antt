-- ===== src/Edit/Woven.antt =====
-- What the replacements in reverse order make of a text: the parts between the matches stay, and each
-- match gives way to its replacement.
use echo_ai_c.Base.{
  ℕ, ◌+◌, ◌≤◌, ◌≡◌, ◌⊎◌, inl, inr, refl, sym, ap, ◌∙◌, subst, arith, Bool, true, false, not, List,
  [], ◌∷◌, ◌++◌, append_assoc, append-nil, Option, none, some, map, if◌then◌else◌, Bytes, length,
  length-append, take, take-append, drop, drop-append, All,
}
use mathlib.Core.Sum.{inr-injective, inl-ne-inr}
use mathlib.Core.List.{Perm}
use echo_ai_c.Edit.{
  EditItem, EditMatch, EditError, oom, overlap, Memory, edit_normalize_lf, match_edits,
  sort_matches, first_overlap, replace_match, replace_all, apply_edits,
}
use echo_ai_c.Edit.Matching.{old_norm, item_at, FoundIn, OnceIn, match_edits_lem, found_end}
use echo_ai_c.Edit.Sorting.{Chain, sort_matches-Perm, All-sort_matches, first_overlap-Chain}

-- A text as its unmatched parts and the edits between them, the last edit outermost.
pub data Woven : Type 0 where
  whole : Bytes → Woven
  after : Woven → EditItem → Bytes → Woven

abbrev pub weave : (EditItem → Bytes) → Woven → Bytes
weave f (whole t) = t
weave f (after w item t) = weave f w ++ (f item ++ t)

abbrev pub items_of : Woven → List EditItem
items_of (whole t) = []
items_of (after w item t) = item ∷ items_of w

abbrev pub new_norm : EditItem → Bytes
new_norm item = edit_normalize_lf item.new_str

-- A front of a text that is not longer than another front of it.
shorter_front :
    (x y a r : Bytes) → x ++ y ≡ a ++ r → length x ≤ length a → a ≡ x ++ drop (length x) a
shorter_front [] y a r h l = refl
shorter_front (c ∷ x) y [] r h l = absurd (omega arith)
shorter_front (c ∷ x) y (d ∷ a) r h l = ground (arith, h, l, shorter_front x y a r)

shrink :
    (items : List EditItem) (a r : Bytes) (k : EditMatch)
    → FoundIn items (a ++ r) k
    → k.index + k.length ≤ length a
    → FoundIn items a k
shrink items a r k (x, (y, e, l, m)) n =
    let old : Bytes = old_norm (item_at items k) in
    let rest : Bytes = drop (length (x ++ old)) a in
    let front : a ≡ (x ++ old) ++ rest =
      shorter_front (x ++ old) y a r (append_assoc x old y ∙ sym e)
        (ground (arith, length-append x old, l, m, n)) in
    (x, (rest, front ∙ append_assoc x old rest, l, m))

shrink-All :
    (items : List EditItem) (a r : Bytes) (n : ℕ) (ks : List EditMatch)
    → n ≤ length a
    → Chain n ks
    → All (FoundIn items (a ++ r)) ks
    → All (FoundIn items a) ks
shrink-All items a r n [] l c h = tt
shrink-All items a r n (k ∷ ks) l c h = (
  shrink items a r k h.0 (ground (arith, l, c.0)),
  shrink-All items a r k.index ks (ground (arith, l, c.0)) c.1 h.1,
)

replaced :
    (items : List EditItem) (k : EditMatch) (a b tail : Bytes)
    → length a ≡ k.index
    → length (old_norm (item_at items k)) ≡ k.length
    → replace_match items k ((a ++ (old_norm (item_at items k) ++ b)) ++ tail)
      ≡ a ++ (new_norm (item_at items k) ++ (b ++ tail))
unfolding replace_match
replaced items k a b tail l m =
    let old : Bytes = old_norm (item_at items k) in
    let front : take k.index ((a ++ (old ++ b)) ++ tail) ≡ a =
      ap (take k.index) (append_assoc a (old ++ b) tail)
      ∙ take-append a ((old ++ b) ++ tail) k.index (sym l) in
    let regroup : (a ++ (old ++ b)) ++ tail ≡ (a ++ old) ++ (b ++ tail) =
      ap (λ x. x ++ tail) (sym (append_assoc a old b)) ∙ append_assoc (a ++ old) b tail in
    let back : drop (k.index + k.length) ((a ++ (old ++ b)) ++ tail) ≡ b ++ tail =
      ap (drop (k.index + k.length)) regroup
      ∙ drop-append (a ++ old) (b ++ tail) (k.index + k.length)
          (omega (arith, length-append a old, l, m)) in
    rw (front, back) refl

regroup_tail : (x y b tail : Bytes) → x ++ (y ++ (b ++ tail)) ≡ (x ++ (y ++ b)) ++ tail
regroup_tail x y b tail =
    ap (◌++◌ x) (sym (append_assoc y b tail)) ∙ sym (append_assoc x (y ++ b) tail)

only_if :
    (b : Bool) (x : EditError ⊎ Bytes) (e : EditError) (out : Bytes)
    → elim b as (λ _. EditError ⊎ Bytes) [ true ↦ x | false ↦ inl e ] ≡ inr out
    → x ≡ inr out
only_if true x e out h = h
only_if false x e out h = absurd (inl-ne-inr h)

-- The text before the matches that are left, with a tail in which they are done.
replace_all_lem :
    (mem : Memory) (items : List EditItem) (ks : List EditMatch) (front tail out : Bytes)
    → All (FoundIn items front) ks
    → Chain (length front) ks
    → replace_all mem items (front ++ tail) ks ≡ inr out
    → (w : Woven) × (front ≡ weave old_norm w)
      × (out ≡ weave new_norm w ++ tail)
      × (items_of w ≡ map (item_at items) ks)
unfolding replace_all
replace_all_lem mem items [] front tail out h c e =
    (whole front, refl, sym (inr-injective (front ++ tail) out e), refl)
replace_all_lem mem items (k ∷ ks) front tail out ((a, (b, same, l, m)), h) c e =
    let item : EditItem = item_at items k in
    let rest : Bytes = new_norm item ++ (b ++ tail) in
    let text : replace_match items k (front ++ tail) ≡ a ++ rest =
      ap (λ x. replace_match items k (x ++ tail)) same ∙ replaced items k a b tail l m in
    let next : replace_all mem items (a ++ rest) ks ≡ inr out =
      subst (λ x. replace_all mem items x ks ≡ inr out) text
        (only_if (mem.replacement k.edit_idx)
          (replace_all mem items (replace_match items k (front ++ tail)) ks) oom out e) in
    let found : All (FoundIn items a) ks =
      shrink-All items a (old_norm item ++ b) k.index ks (omega (arith, l)) c.1
        (subst (λ x. All (FoundIn items x) ks) same h) in
    let (w, front_same, out_same, order) =
      replace_all_lem mem items ks a rest out found (subst (λ n. Chain n ks) (sym l) c.1) next in
    (
      after w item b,
      same ∙ ap (λ x. x ++ (old_norm item ++ b)) front_same,
      out_same ∙ regroup_tail (weave new_norm w) (new_norm item) b tail,
      ap (◌∷◌ item) order,
    )

overlap_free :
    (items : List EditItem) (norm : Bytes) (down : List EditMatch)
    → All (FoundIn items norm) down
    → first_overlap down ≡ none
    → Chain (length norm) down
overlap_free items norm [] h o = tt
overlap_free items norm (k ∷ ks) h o = (found_end items norm k h.0, first_overlap-Chain k ks o)

apply_cases :
    (enough copied : Bool) (o : EditError ⊎ List EditMatch) (f : List EditMatch → Option (ℕ × ℕ))
    (g : List EditMatch → EditError ⊎ Bytes) (out : Bytes)
    → (if not enough then inl oom else elim o as (λ _. EditError ⊎ Bytes) [
      | inl e ↦ inl e
      | inr ks ↦ elim (f ks) as (λ _. EditError ⊎ Bytes) [
        | some (i, j) ↦ inl (overlap i j)
        | none ↦ if copied then g ks else inl oom
      ]
    ])
      ≡ inr out
    → (ks : List EditMatch) × (o ≡ inr ks) × (f ks ≡ none) × (g ks ≡ inr out)
apply_cases false copied o f g out h = absurd (inl-ne-inr h)
apply_cases true copied (inl e) f g out h = absurd (inl-ne-inr h)
apply_cases true copied (inr ks) f g out h =
    let (none_found, done) = disjoint (f ks) copied (g ks) out h in (ks, refl, none_found, done)
  where
    disjoint :
        (o : Option (ℕ × ℕ)) (copied : Bool) (x : EditError ⊎ Bytes) (out : Bytes)
        → elim o as (λ _. EditError ⊎ Bytes) [
          | some (i, j) ↦ inl (overlap i j)
          | none ↦ if copied then x else inl oom
        ]
          ≡ inr out
        → (o ≡ none) × (x ≡ inr out)
    disjoint (some (i, j)) copied x out h = absurd (inl-ne-inr h)
    disjoint none true x out h = (refl, h)
    disjoint none false x out h = absurd (inl-ne-inr h)

-- If the edits are applied, each old text was counted once in the normalized text, and that text falls
-- into parts with the old texts of all edits between them, in some order; the result has the same parts
-- with the new texts in their places.
pub apply_edits-weave :
    (mem : Memory) (items : List EditItem) (norm out : Bytes)
    → apply_edits mem items norm ≡ inr out
    → (w : Woven) × (norm ≡ weave old_norm w)
      × (out ≡ weave new_norm w)
      × Perm (items_of w) items
      × All (OnceIn norm) items
unfolding apply_edits
apply_edits-weave mem items norm out h =
    let (ks, matched, disjoint, done) =
      apply_cases mem.matches mem.new_norm (match_edits mem norm 0 items)
        (λ ks. first_overlap (sort_matches [] ks))
        (λ ks. replace_all mem items norm (sort_matches [] ks)) out h in
    let down : List EditMatch = sort_matches [] ks in
    let found = match_edits_lem mem norm items items 0 ks refl matched in
    let sorted : All (FoundIn items norm) down =
      All-sort_matches (FoundIn items norm) [] ks tt found.0 in
    let (w, front, result, order) =
      replace_all_lem mem items down norm [] out sorted
        (overlap_free items norm down sorted disjoint)
        (subst (λ x. replace_all mem items x down ≡ inr out) (sym (append-nil norm)) done) in
    (
      w,
      front,
      result ∙ append-nil (weave new_norm w),
      subst (λ x. Perm (items_of w) x) (append-nil (map (item_at items) ks) ∙ found.1)
          (subst (λ x. Perm x (map (item_at items) ks ++ [])) (sym order)
            (sort_matches-Perm (item_at items) [] ks)),
      found.2,
    )
