-- ===== src/Safety/Resolve.antt =====
-- The resolution of paths in the workspace. `realpath` is a parameter: the canonical path, ENOENT or
-- another error.
use echo_ai_c.Base.{
  prefix_rest, ◌≡◌, ◌⊎◌, inl, inr, refl, sym, ◌∙◌, subst, arith, Bool, true, false, ◌&&◌, [], ◌∷◌,
  ◌++◌, append_assoc, Option, none, some, leb, ◌==◌, if◌then◌else◌, Bytes, codes, has_prefix,
  has_substring, length, drop,
}
use mathlib.Core.Option.{some-injective}
use echo_ai_c.Safety.Command.{both}
use echo_ai_c.Safety.{SafetyConfig, is_unrestricted}

pub data Resolved : Type 0 where
  found : Bytes → Resolved
  missing : Resolved
  failed : Resolved

-- `canonical[root_len] == '\0' || canonical[root_len] == '/'`
abbrev at_border : Bytes → Bool
at_border [] = true
at_border (c ∷ s) = c == b'/'

pub in_root : Bytes → Bytes → Bool
unfolding has_prefix
in_root root canonical = has_prefix canonical root && at_border (drop (length root) canonical)

pub safety_path_is_within_workspace : (Bytes → Resolved) → SafetyConfig → Bytes → Bool
unfolding in_root
safety_path_is_within_workspace realpath cfg path = elim cfg.workspace [
  | none ↦ false
  | some workspace ↦ if is_unrestricted cfg.mode then true else elim (realpath workspace) [
    | found root ↦ elim (realpath path) [ found canonical ↦ in_root root canonical | _ ↦ false ]
    | _ ↦ false
  ]
]

-- The path before the last slash and the name behind it; `none` without a slash.
pub last_slash : Bytes → Option (Bytes × Bytes)
last_slash [] = none
last_slash (c ∷ s) = elim (last_slash s) [
  | some (before, behind) ↦ some (c ∷ before, behind)
  | none ↦ if c == b'/' then some ([], s) else none
]

-- A file that does not exist yet: its parent is checked.
pub resolve_parent : (Bytes → Resolved) → SafetyConfig → Bytes → Option Bytes
unfolding last_slash safety_path_is_within_workspace
resolve_parent realpath cfg candidate = elim (last_slash candidate) [
  | none ↦ none
  | some (parent_path, basename) ↦
      if length basename == 0 then none else elim (realpath parent_path) [
        | found parent ↦
            if safety_path_is_within_workspace realpath cfg parent
            then some (parent ++ (b'/' ∷ basename))
            else none
        | _ ↦ none
      ]
]

abbrev is_absolute : Bytes → Bool
is_absolute [] = false
is_absolute (c ∷ s) = c == b'/'

pub resolve_candidate : (Bytes → Resolved) → SafetyConfig → Bytes → Option Bytes
unfolding resolve_parent safety_path_is_within_workspace
resolve_candidate realpath cfg candidate =
    if leb 4096 (length candidate) then none else elim (realpath candidate) [
      | found canonical ↦
          if safety_path_is_within_workspace realpath cfg canonical then some canonical else none
      | missing ↦ resolve_parent realpath cfg candidate
      | failed ↦ none
    ]

unfoldable pub safety_resolve_path_alloc : (Bytes → Resolved) → SafetyConfig → Bytes → Option Bytes
unfolding resolve_candidate has_substring
safety_resolve_path_alloc realpath cfg path = elim cfg.workspace [
  | none ↦ none
  | some workspace ↦
      if is_unrestricted cfg.mode
      then some path
      else if has_substring path (codes "..")
      then none
      else elim (realpath workspace) [
        | found root ↦
            resolve_candidate realpath cfg
              (if is_absolute path then path else root ++ (b'/' ∷ path))
        | _ ↦ none
      ]
]

-- A path that is the root or lies below it.
abbrev pub Below : Bytes → Bytes → Type 0
Below root path =
    (rest : Bytes) × (path ≡ root ++ rest) × ((rest ≡ []) ⊎ ((t : Bytes) × (rest ≡ b'/' ∷ t)))

border : (s : Bytes) → at_border s ≡ true → (s ≡ []) ⊎ ((t : Bytes) × (s ≡ b'/' ∷ t))
border [] h = inl refl
border (c ∷ s) h = inr (s, ground (arith, h))

in_root-Below : (root path : Bytes) → in_root root path ≡ true → Below root path
unfolding in_root
in_root-Below root path h =
    let parts : (has_prefix path root ≡ true) × (at_border (drop (length root) path) ≡ true) =
      both (has_prefix path root) (at_border (drop (length root) path)) h in
    (
      drop (length root) path,
      prefix_rest path root parts.0,
      border (drop (length root) path) parts.1,
    )

child_lem : (root path name : Bytes) → Below root path → Below root (path ++ (b'/' ∷ name))
child_lem root path name (rest, e, inl n) =
    ([] ++ (b'/' ∷ name), rw (e, n) (append_assoc root [] (b'/' ∷ name)), inr (name, refl))
child_lem root path name (rest, e, inr (t, f)) = (
  rest ++ (b'/' ∷ name),
  rw e (append_assoc root rest (b'/' ∷ name)),
  inr (t ++ (b'/' ∷ name), rw f refl),
)

some_only :
    {A : Type 0} (b : Bool) (x r : A) → (if b then some x else none) ≡ some r → (b ≡ true) × (x ≡ r)
some_only true x r h = (refl, some-injective x r h)
some_only false x r h = absurd (ground (arith, h))

then_none :
    (b : Bool) (o : Option Bytes) (r : Bytes) → (if b then none else o) ≡ some r → o ≡ some r
then_none true o r h = absurd (ground (arith, h))
then_none false o r h = h

module _ (realpath : Bytes → Resolved) (cfg : SafetyConfig) (workspace root : Bytes)
    (set : cfg.workspace ≡ some workspace) (checked : is_unrestricted cfg.mode ≡ false)
    (rooted : realpath workspace ≡ found root) where
  within_lem :
      (path : Bytes)
      → realpath path ≡ found path
      → safety_path_is_within_workspace realpath cfg path ≡ true
      → Below root path
  unfolding safety_path_is_within_workspace
  within_lem path e h = in_root-Below root path (sym (rw (set, checked, rooted, e) refl) ∙ h)

  by_parent :
      (parent_path basename r : Bytes) (o : Resolved)
      → realpath parent_path ≡ o
      → ((p c : Bytes) → realpath p ≡ found c → realpath c ≡ found c)
      → elim o as (λ _. Option Bytes) [
        | found parent ↦
            if safety_path_is_within_workspace realpath cfg parent
            then some (parent ++ (b'/' ∷ basename))
            else none
        | missing ↦ none
        | failed ↦ none
      ]
        ≡ some r
      → Below root r
  by_parent parent_path basename r (found parent) e canonical h =
      let parts =
        some_only (safety_path_is_within_workspace realpath cfg parent)
          (parent ++ (b'/' ∷ basename)) r h in
      subst (Below root) parts.1 (
        child_lem root parent basename (within_lem parent (canonical parent_path parent e) parts.0))
  by_parent parent_path basename r missing e canonical h = absurd (ground (arith, h))
  by_parent parent_path basename r failed e canonical h = absurd (ground (arith, h))

  by_slash :
      ((p c : Bytes) → realpath p ≡ found c → realpath c ≡ found c)
      → (o : Option (Bytes × Bytes)) (r : Bytes)
      → elim o as (λ _. Option Bytes) [
        | none ↦ none
        | some (parent_path, basename) ↦
            if length basename == 0
            then none
            else elim (realpath parent_path) as (λ _. Option Bytes) [
              | found parent ↦
                  if safety_path_is_within_workspace realpath cfg parent
                  then some (parent ++ (b'/' ∷ basename))
                  else none
              | missing ↦ none
              | failed ↦ none
            ]
      ]
        ≡ some r
      → Below root r
  by_slash canonical none r h = absurd (ground (arith, h))
  by_slash canonical (some (parent_path, basename)) r h =
      by_parent parent_path basename r (realpath parent_path) refl canonical
        (then_none (length basename == 0) _ r h)

  parent_lem :
      ((p c : Bytes) → realpath p ≡ found c → realpath c ≡ found c)
      → (candidate r : Bytes) → resolve_parent realpath cfg candidate ≡ some r
      → Below root r
  unfolding resolve_parent
  parent_lem canonical candidate r h = by_slash canonical (last_slash candidate) r h

  by_candidate :
      ((p c : Bytes) → realpath p ≡ found c → realpath c ≡ found c)
      → (candidate r : Bytes) (o : Resolved) → realpath candidate ≡ o
      → elim o as (λ _. Option Bytes) [
        | found canonical ↦
            if safety_path_is_within_workspace realpath cfg canonical then some canonical else none
        | missing ↦ resolve_parent realpath cfg candidate
        | failed ↦ none
      ]
        ≡ some r
      → Below root r
  by_candidate canonical candidate r (found c) e h =
      let parts = some_only (safety_path_is_within_workspace realpath cfg c) c r h in
      subst (Below root) parts.1 (within_lem c (canonical candidate c e) parts.0)
  by_candidate canonical candidate r missing e h = parent_lem canonical candidate r h
  by_candidate canonical candidate r failed e h = absurd (ground (arith, h))

  candidate_lem :
      ((p c : Bytes) → realpath p ≡ found c → realpath c ≡ found c)
      → (candidate r : Bytes) → resolve_candidate realpath cfg candidate ≡ some r
      → Below root r
  unfolding resolve_candidate
  candidate_lem canonical candidate r h =
      by_candidate canonical candidate r (realpath candidate) refl
        (then_none (leb 4096 (length candidate)) _ r h)

settled :
    (realpath : Bytes → Resolved) (o : Option Bytes) (u : Bool) (workspace root path : Bytes)
    (next : Bytes → Option Bytes)
    → o ≡ some workspace
    → u ≡ false
    → realpath workspace ≡ found root
    → elim o as (λ _. Option Bytes) [
      | none ↦ none
      | some w ↦
          if u
          then some path
          else if has_substring path (codes "..")
          then none
          else elim (realpath w) as (λ _. Option Bytes) [
            | found root ↦ next root
            | missing ↦ none
            | failed ↦ none
          ]
    ]
      ≡ (if has_substring path (codes "..") then none else next root)
settled realpath o u workspace root path next set checked rooted = rw (set, checked, rooted) refl

-- Where the workspace has a canonical path, the canonical path of a canonical path is itself, and the mode
-- is not unrestricted: a path that is handed out is the workspace's canonical path or lies below it, and the
-- path that was asked for has no `..` in it.
pub safety_resolve_path_alloc-Below :
    (realpath : Bytes → Resolved) (cfg : SafetyConfig) (workspace root path r : Bytes)
    → cfg.workspace ≡ some workspace
    → is_unrestricted cfg.mode ≡ false
    → realpath workspace ≡ found root
    → ((p c : Bytes) → realpath p ≡ found c → realpath c ≡ found c)
    → safety_resolve_path_alloc realpath cfg path ≡ some r
    → Below root r × (has_substring path (codes "..") ≡ false)
unfolding safety_resolve_path_alloc
safety_resolve_path_alloc-Below realpath cfg workspace root path r set checked rooted canonical h =
    let rest : (if has_substring path (codes "..")
          then none
          else resolve_candidate realpath cfg
              (if is_absolute path then path else root ++ (b'/' ∷ path)))
        ≡ some r =
      sym (
        settled realpath cfg.workspace (is_unrestricted cfg.mode) workspace root path
          (λ root.
            resolve_candidate realpath cfg
              (if is_absolute path then path else root ++ (b'/' ∷ path)))
          set checked rooted)
      ∙ h in
    (
      candidate_lem realpath cfg workspace root set checked rooted canonical
          (if is_absolute path then path else root ++ (b'/' ∷ path)) r
          (then_none (has_substring path (codes "..")) _ r rest),
      ground (arith, rest),
    )
