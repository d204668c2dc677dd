-- ===== src/Edit/Execute/Content.antt =====
-- The bytes that an edit writes.
use echo_ai_c.Base.{
  ◌≡◌, ◌≢◌, ◌⊎◌, inl, inr, refl, sym, ap, ◌∙◌, subst, arith, Bool, true, false, not, ◌||◌, List, [],
  ◌++◌, if◌then◌else◌, Bytes, bytes_eq, bytes_eq_iff, has_prefix, drop, All,
}
use mathlib.Core.Sum.{inr-injective, inl-ne-inr}
use mathlib.Core.List.{Perm}
use echo_ai_c.Edit.{
  EditItem, EditError, oom, no_change, Memory, apply_edits, edit_detect_ending, edit_normalize_lf,
  edit_restore_endings,
}
use echo_ai_c.Edit.Matching.{old_norm, OnceIn}
use echo_ai_c.Edit.Woven.{Woven, weave, items_of, new_norm, apply_edits-weave}
use echo_ai_c.Edit.Execute.{byte_order_mark, before_nul, new_content}

-- The text behind the byte order mark, up to the first NUL.
abbrev pub text_of : Bytes → Bytes
text_of content =
    before_nul (if has_prefix content byte_order_mark then drop 3 content else content)

abbrev pub mark_of : Bytes → Bytes
mark_of content = if has_prefix content byte_order_mark then byte_order_mark else []

differs : (s t : Bytes) → bytes_eq s t ≡ false → s ≢ t
differs s t h e = absurd (ground (arith, h, (bytes_eq_iff s t).1 e))

content_cases :
    (norm_made restored_made final_made : Bool) (x : EditError ⊎ Bytes) (make : Bytes → Bytes)
    (content final : Bytes)
    → (if not norm_made then inl oom else elim x as (λ _. EditError ⊎ Bytes) [
      | inl e ↦ inl e
      | inr new ↦
          if not restored_made || not final_made
          then inl oom
          else if bytes_eq (make new) content
          then inl no_change
          else inr (make new)
    ])
      ≡ inr final
    → (new : Bytes) × (x ≡ inr new) × (make new ≡ final) × (bytes_eq final content ≡ false)
content_cases false r f x make content final h = absurd (inl-ne-inr h)
content_cases true r f (inl e) make content final h = absurd (inl-ne-inr h)
content_cases true r f (inr new) make content final h =
    let parts = changed (not r || not f) (bytes_eq (make new) content) (make new) final h in
    (new, refl, parts.1, subst (λ x. bytes_eq x content ≡ false) parts.1 parts.0)
  where
    changed :
        (failed same : Bool) (x final : Bytes)
        → (if failed then inl oom else if same then inl no_change else inr x) ≡ inr final
        → (same ≡ false) × (x ≡ final)
    changed true same x final h = absurd (inl-ne-inr h)
    changed false true x final h = absurd (inl-ne-inr h)
    changed false false x final h = (refl, inr-injective x final h)

-- If new bytes are computed for a file, the normalized text of the file falls into parts with the old texts
-- of all edits between them, in some order and each counted once; the new bytes are the file's byte order
-- mark, if it has one, and the same parts with the new texts in their places, in the line ending of the
-- file; and they differ from the file.
pub new_content-weave :
    (mem : Memory) (items : List EditItem) (content final : Bytes)
    → new_content mem items content ≡ inr final
    → (w : Woven) × (edit_normalize_lf (text_of content) ≡ weave old_norm w)
      × (final
          ≡ mark_of content
            ++ edit_restore_endings (weave new_norm w) (edit_detect_ending (text_of content)))
      × Perm (items_of w) items
      × All (OnceIn (edit_normalize_lf (text_of content))) items
      × (final ≢ content)
unfolding new_content
new_content-weave mem items content final h =
    let make : Bytes → Bytes =
      λ new. mark_of content ++ edit_restore_endings new (edit_detect_ending (text_of content)) in
    let (new, applied, made, changed) =
      content_cases mem.norm mem.restored_text mem.final
        (apply_edits mem items (edit_normalize_lf (text_of content))) make content final h in
    let (w, old_parts, new_parts, order, once) =
      apply_edits-weave mem items (edit_normalize_lf (text_of content)) new applied in
    (w, old_parts, sym made ∙ ap make new_parts, order, once, differs final content changed)
