-- ===== src/Safety/Approval.antt =====
-- The list of tools that need approval.
use echo_ai_c.Base.{
  ℕ, ◌+◌, ◌≤◌, ◌≡◌, ◌≢◌, refl, sym, ap, ◌∙◌, arith, Bool, true, false, List, [], ◌∷◌, if◌then◌else◌,
  Bytes, bytes_eq, bytes_eq_iff, any, Bool-cases, inl, inr,
}
use echo_ai_c.Safety.{
  SafetyMode, restricted, approve_all, unrestricted, SafetyConfig, remove_first,
  safety_needs_approval, safety_allow_tool_always,
}

-- How often a name stands in the list.
abbrev pub occurrences : Bytes → List Bytes → ℕ
occurrences tool [] = 0
occurrences tool (name ∷ names) = (if bytes_eq name tool then 1 else 0) + occurrences tool names

listed : Bytes → List Bytes → Bool
listed tool names = any (λ name. bytes_eq name tool) names

listed-occurrences :
    (tool : Bytes) (names : List Bytes) → occurrences tool names ≡ 0 → listed tool names ≡ false
unfolding listed
listed-occurrences tool [] h = refl
listed-occurrences tool (name ∷ names) h = ground (arith, h, listed-occurrences tool names)

remove_first_self :
    (tool : Bytes) (names : List Bytes)
    → occurrences tool names ≤ 1
    → listed tool (remove_first tool names).0 ≡ false
unfolding listed remove_first
remove_first_self tool [] h = refl
remove_first_self tool (name ∷ names) h = elim (Bool-cases (bytes_eq name tool)) [
  | inl t ↦ rw t (listed-occurrences tool names (ground (arith, h, t)))
  | inr f ↦ rw (f, f) (remove_first_self tool names (ground (arith, h, f)))
]

remove_first-found :
    (tool : Bytes) (names : List Bytes) → (remove_first tool names).1 ≡ listed tool names
unfolding listed remove_first
remove_first-found tool [] = refl
remove_first-found tool (name ∷ names) = elim (Bool-cases (bytes_eq name tool)) [
  | inl t ↦ rw t refl
  | inr f ↦ rw f (remove_first-found tool names)
]

different : (tool t name : Bytes) → t ≢ tool → bytes_eq name tool ≡ true → bytes_eq name t ≡ false
different tool t name n h = elim (Bool-cases (bytes_eq name t)) [
  | inl k ↦ absurd (n (sym ((bytes_eq_iff name t).0 k) ∙ (bytes_eq_iff name tool).0 h))
  | inr f ↦ f
]

remove_first-other :
    (tool t : Bytes) (names : List Bytes)
    → t ≢ tool
    → listed t (remove_first tool names).0 ≡ listed t names
unfolding listed remove_first
remove_first-other tool t [] n = refl
remove_first-other tool t (name ∷ names) n = elim (Bool-cases (bytes_eq name tool)) [
  | inl k ↦ rw (k, different tool t name n k) refl
  | inr f ↦ rw (f, remove_first-other tool t names n) refl
]

by_mode :
    (mode : SafetyMode) (a b : Bool)
    → a ≡ b
    → elim mode as (λ _. Bool) [ approve_all ↦ true | unrestricted ↦ false | restricted ↦ a ]
      ≡ elim mode as (λ _. Bool) [ approve_all ↦ true | unrestricted ↦ false | restricted ↦ b ]
by_mode mode a b h =
    ap
      (λ (x : Bool). elim mode as (λ _. Bool) [
        | approve_all ↦ true
        | unrestricted ↦ false
        | restricted ↦ x
      ])
      h

-- After a tool is allowed for good, the answer for every other tool is the same; the result tells
-- whether the tool was listed; and in the restricted mode it needs no approval any more, if it was listed at
-- most once.
pub safety_allow_tool_always-needs_approval :
    (cfg : SafetyConfig) (tool : Bytes)
    → let allowed : SafetyConfig × Bool = safety_allow_tool_always cfg tool in
      ((t : Bytes) → t ≢ tool → safety_needs_approval allowed.0 t ≡ safety_needs_approval cfg t)
      × (allowed.1 ≡ any (λ name. bytes_eq name tool) cfg.require_approval_for)
      × (cfg.mode ≡ restricted
          → occurrences tool cfg.require_approval_for ≤ 1
          → safety_needs_approval allowed.0 tool ≡ false)
unfolding safety_allow_tool_always safety_needs_approval listed
safety_allow_tool_always-needs_approval cfg tool = (
  (λ t n.
      by_mode cfg.mode (listed t (remove_first tool cfg.require_approval_for).0)
        (listed t cfg.require_approval_for) (remove_first-other tool t cfg.require_approval_for n)),
  remove_first-found tool cfg.require_approval_for,
  (λ m h.
      ap
        (λ x. elim x as (λ _. Bool) [
          | approve_all ↦ true
          | unrestricted ↦ false
          | restricted ↦ listed tool (remove_first tool cfg.require_approval_for).0
        ])
        m
      ∙ remove_first_self tool cfg.require_approval_for h),
)
