-- ===== src/Safety/Load.antt =====
-- `safety_load_from_conf`: the settings of the policy. The configuration is a parameter, with the values
-- that `conf_get` and `conf_get_int` give.
use echo_ai_c.Base.{
  ℕ, ◌+◌, ◌-◌, ◌^◌, ◌≡◌, ◌≢◌, refl, ap, arith, Bool, true, false, not, ◌||◌, List, [], ◌∷◌, Option,
  none, some, map, if◌then◌else◌, Bytes, codes, bytes_eq, bytes_eq_iff, any, All, ℤ, pos, negsuc,
  Bool-cases, inl, inr,
}
use echo_ai_c.StringUtils.{str_split, str_trim}
use echo_ai_c.Safety.{
  SafetyConfig, SafetyMode, restricted, approve_all, unrestricted, is_unrestricted,
  safety_config_create, safety_needs_approval,
}

pub record Conf : Type 0 where
  pub get : Bytes → Option Bytes
  pub get_int : Bytes → ℤ → ℤ

pub record LoadMemory : Type 0 where
  -- the pieces of a split text, the array of `parse_csv`, a duplicate of a value, the default list
  pub piece : ℕ → Bytes → Bool
  pub array : Bytes → Bool
  pub copy : Bytes → Bool
  pub default_list : Bool

-- `(size_t)` of an `int`
abbrev to_size : ℤ → ℕ
to_size (pos n) = n
to_size (negsuc n) = 2 ^ 64 - (n + 1)

-- `none` is NULL: no value, no piece or no memory.
pub parse_csv : LoadMemory → Bytes → Option (List Bytes)
unfolding str_split str_trim
parse_csv m [] = none
parse_csv m (c ∷ s) = elim (str_split m.piece (c ∷ s) b',') [
  | [] ↦ none
  | p ∷ ps ↦ if m.array (c ∷ s) then some (map str_trim (p ∷ ps)) else none
]

-- One list setting: the new list, and whether it failed. An empty value empties the list; where the
-- parsing fails the count is set to 0 before, so the list is empty too.
pub list_setting : LoadMemory → Conf → Bytes → List Bytes → List Bytes × Bool
unfolding parse_csv
list_setting m conf key old = elim (conf.get key) [
  | none ↦ (old, false)
  | some [] ↦ ([], false)
  | some (c ∷ s) ↦ elim (parse_csv m (c ∷ s)) [ none ↦ ([], true) | some names ↦ (names, false) ]
]

pub mode_setting : Conf → SafetyMode → SafetyMode
unfolding bytes_eq
mode_setting conf old = elim (conf.get (codes "safety.mode")) [
  | none ↦ old
  | some v ↦
      if bytes_eq v (codes "approve_all")
      then approve_all
      else if bytes_eq v (codes "unrestricted")
      then unrestricted
      else if bytes_eq v (codes "restricted")
      then restricted
      else old
]

pub network_setting : Conf → Bool
unfolding bytes_eq
network_setting conf = elim (conf.get (codes "safety.allow_network")) [
  | none ↦ true
  | some v ↦ bytes_eq v (codes "true") || bytes_eq v (codes "1")
]

pub text_setting : LoadMemory → Conf → Bytes → Option Bytes → Option Bytes × Bool
text_setting m conf key old = elim (conf.get key) [
  | none ↦ (old, false)
  | some v ↦ if m.copy v then (some v, false) else (old, true)
]

abbrev pub default_approvals : List Bytes
default_approvals =
    map codes ("bash" ∷ "write_file" ∷ "edit" ∷ "git" ∷ "python_execute" ∷ "delegate" ∷ [])

-- The tools that modify files or execute code, where no list is set.
pub approval_setting : LoadMemory → List Bytes × Bool → List Bytes × Bool
approval_setting m ([], failed) = if m.default_list then (default_approvals, failed) else ([], true)
approval_setting m (name ∷ names, failed) = (name ∷ names, failed)

-- The configuration, and whether the result is -1.
unfoldable pub safety_load_from_conf : LoadMemory → SafetyConfig → Conf → SafetyConfig × Bool
unfolding text_setting mode_setting network_setting list_setting approval_setting
safety_load_from_conf m cfg conf =
    let workspace = text_setting m conf (codes "safety.workspace") cfg.workspace in
    let allowed_commands =
      list_setting m conf (codes "safety.allowed_commands") cfg.allowed_commands in
    let blocked_commands =
      list_setting m conf (codes "safety.blocked_commands") cfg.blocked_commands in
    let allowed_extensions =
      list_setting m conf (codes "safety.allowed_extensions") cfg.allowed_extensions in
    let blocked_extensions =
      list_setting m conf (codes "safety.blocked_extensions") cfg.blocked_extensions in
    let blocked_paths = list_setting m conf (codes "safety.blocked_paths") cfg.blocked_paths in
    let allowed_domains =
      list_setting m conf (codes "safety.allowed_domains") cfg.allowed_domains in
    let approval =
      approval_setting m
        (list_setting m conf (codes "safety.require_approval_for") cfg.require_approval_for) in
    let audit = text_setting m conf (codes "safety.audit_log_path") cfg.audit_log_path in
    (
      record {
        workspace = workspace.0;
        mode = mode_setting conf cfg.mode;
        allow_network = network_setting conf;
        max_file_size = to_size (conf.get_int (codes "safety.max_file_size") (pos 10485760));
        max_execution_time = conf.get_int (codes "safety.max_execution_time") (pos 300);
        read_requires_approval = conf.get_int (codes "safety.read_requires_approval") (pos 0);
        read_size_threshold =
            to_size (conf.get_int (codes "safety.read_size_threshold") (pos 1048576));
        web_fetch_max_chars =
            to_size (conf.get_int (codes "safety.web_fetch_max_chars") (pos 25000));
        audit_log_path = audit.0;
        allowed_commands = allowed_commands.0;
        blocked_commands = blocked_commands.0;
        allowed_extensions = allowed_extensions.0;
        blocked_extensions = blocked_extensions.0;
        blocked_paths = blocked_paths.0;
        allowed_domains = allowed_domains.0;
        require_approval_for = approval.0;
      },
      workspace.1
          || (allowed_commands.1
              || (blocked_commands.1
                  || (allowed_extensions.1
                      || (blocked_extensions.1
                          || (blocked_paths.1
                              || (allowed_domains.1 || (approval.1 || audit.1))))))),
    )

-- The mode is unrestricted only if it was or if the configuration says so.
unrestricted-ne : (mode : SafetyMode) → is_unrestricted mode ≡ false → mode ≡ unrestricted → ⊥
unrestricted-ne mode h e = ground (arith, h, ap is_unrestricted e)

second_test :
    (a b c : Bool)
    → (if a then approve_all else if b then unrestricted else if c then restricted else restricted)
      ≡ unrestricted
    → b ≡ true
second_test true b c h = absurd (unrestricted-ne approve_all refl h)
second_test false true c h = refl
second_test false false true h = absurd (unrestricted-ne restricted refl h)
second_test false false false h = absurd (unrestricted-ne restricted refl h)

mode_of :
    (o : Option Bytes)
    → elim o as (λ _. SafetyMode) [
      | none ↦ restricted
      | some v ↦
          if bytes_eq v (codes "approve_all")
          then approve_all
          else if bytes_eq v (codes "unrestricted")
          then unrestricted
          else if bytes_eq v (codes "restricted")
          then restricted
          else restricted
    ]
      ≡ unrestricted
    → o ≡ some (codes "unrestricted")
mode_of none h = absurd (unrestricted-ne restricted refl h)
mode_of (some v) h = ap some (
    (bytes_eq_iff v (codes "unrestricted")).0 (
      second_test (bytes_eq v (codes "approve_all")) (bytes_eq v (codes "unrestricted"))
        (bytes_eq v (codes "restricted")) h))

mode_lem :
    (conf : Conf)
    → mode_setting conf restricted ≡ unrestricted
    → conf.get (codes "safety.mode") ≡ some (codes "unrestricted")
unfolding mode_setting
mode_lem conf h = mode_of (conf.get (codes "safety.mode")) h

approval_lem :
    (m : LoadMemory) (r : List Bytes × Bool)
    → (approval_setting m r).1 ≡ false
    → ((approval_setting m r).0 ≢ []) × (r.0 ≡ [] → (approval_setting m r).0 ≡ default_approvals)
unfolding approval_setting
approval_lem m ([], failed) h = elim (Bool-cases m.default_list) [
  | inl t ↦ rw t ((λ e. absurd (ground (arith, e))), (λ e. refl))
  | inr f ↦ absurd (ground (arith, h, f))
]
approval_lem m (name ∷ names, failed) h =
    ((λ e. absurd (ground (arith, e))), (λ e. absurd (ground (arith, e))))

by_mode :
    (mode : SafetyMode)
    → All
        (λ tool.
          elim mode as (λ _. Bool) [
            | approve_all ↦ true
            | unrestricted ↦ false
            | restricted ↦ any (λ name. bytes_eq name tool) default_approvals
          ]
          ≡ not (is_unrestricted mode))
        default_approvals
unfolding bytes_eq
by_mode restricted = (refl, (refl, (refl, (refl, (refl, (refl, tt))))))
by_mode approve_all = (refl, (refl, (refl, (refl, (refl, (refl, tt))))))
by_mode unrestricted = (refl, (refl, (refl, (refl, (refl, (refl, tt))))))

-- Every default tool needs approval in the modes that ask.
default_needs :
    (cfg : SafetyConfig)
    → cfg.require_approval_for ≡ default_approvals
    → All
        (λ tool. safety_needs_approval cfg tool ≡ not (is_unrestricted cfg.mode))
        default_approvals
unfolding safety_needs_approval
default_needs cfg e = rw e (by_mode cfg.mode)

unset :
    (m : LoadMemory) (conf : Conf) (key : Bytes) (old : List Bytes)
    → conf.get key ≡ none
    → (list_setting m conf key old).0 ≡ old
unfolding list_setting
unset m conf key old h = rw (h, list_setting) refl

eighth :
    (a b c d e f g x y : Bool)
    → (a || (b || (c || (d || (e || (f || (g || (x || y)))))))) ≡ false
    → x ≡ false
eighth a b c d e f g x y h = ground (arith, h)

-- A policy that is loaded without a failure into a new one is unrestricted only if the configuration says
-- so; some tool is listed for approval; and if the configuration does not set that list, each tool that
-- modifies files or executes code needs approval, unless the policy is unrestricted.
pub safety_load_from_conf-approval :
    (m : LoadMemory) (conf : Conf)
    → let loaded : SafetyConfig × Bool = safety_load_from_conf m safety_config_create conf in
      loaded.1 ≡ false
      → (loaded.0.mode ≡ unrestricted
          → conf.get (codes "safety.mode") ≡ some (codes "unrestricted"))
        × (loaded.0.require_approval_for ≢ [])
        × (conf.get (codes "safety.require_approval_for") ≡ none
            → All
                (λ tool. safety_needs_approval loaded.0 tool ≡ not (is_unrestricted loaded.0.mode))
                default_approvals)
unfolding safety_load_from_conf
safety_load_from_conf-approval m conf h =
    let setting : List Bytes × Bool =
      list_setting m conf (codes "safety.require_approval_for") [] in
    let failed : Bytes → Bool = λ key. (list_setting m conf key []).1 in
    let made : (approval_setting m setting).1 ≡ false =
      eighth (text_setting m conf (codes "safety.workspace") none).1
        (failed (codes "safety.allowed_commands")) (failed (codes "safety.blocked_commands"))
        (failed (codes "safety.allowed_extensions")) (failed (codes "safety.blocked_extensions"))
        (failed (codes "safety.blocked_paths")) (failed (codes "safety.allowed_domains"))
        (approval_setting m setting).1 (text_setting m conf (codes "safety.audit_log_path") none).1
        h in
    let listed = approval_lem m setting made in
    (
      mode_lem conf,
      listed.0,
      (λ e.
          default_needs (safety_load_from_conf m safety_config_create conf).0
            (listed.1 (unset m conf (codes "safety.require_approval_for") [] e))),
    )
