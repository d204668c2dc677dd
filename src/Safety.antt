-- ===== src/Safety.antt =====
-- src/safety/safety.c: the policy that the tools ask. `mem` answers whether the copy of a piece of a
-- split text is made, for the delimiter and the piece; the copies of single list entries and of
-- resolved paths are made.
mod Tests
pub mod Load
pub mod Address
pub mod Url
pub mod Resolve
pub mod Command
pub mod Refusal
pub mod Approval
use echo_ai_c.Base.{
  ℕ, zero, suc, ◌+◌, ◌-◌, ◌≡◌, Bool, true, false, not, ◌&&◌, ◌||◌, List, [], ◌∷◌, Option, none,
  some, map, leb, ◌==◌, if◌then◌else◌, Bytes, codes, bytes_eq, has_substring, length, any, ℤ, pos,
}
use echo_ai_c.StringUtils.{str_split, str_trim, str_ends_with}

pub data SafetyMode : Type 0 where
  restricted : SafetyMode
  approve_all : SafetyMode
  unrestricted : SafetyMode

pub record SafetyConfig : Type 0 where
  pub workspace : Option Bytes
  pub mode : SafetyMode
  pub allow_network : Bool
  pub max_file_size : ℕ
  pub max_execution_time : ℤ
  pub read_requires_approval : ℤ
  pub read_size_threshold : ℕ
  pub web_fetch_max_chars : ℕ
  pub audit_log_path : Option Bytes
  pub allowed_commands : List Bytes
  pub blocked_commands : List Bytes
  pub allowed_extensions : List Bytes
  pub blocked_extensions : List Bytes
  pub blocked_paths : List Bytes
  pub allowed_domains : List Bytes
  pub require_approval_for : List Bytes

-- What `safety_config_create` leaves after `calloc`.
abbrev pub safety_config_create : SafetyConfig
safety_config_create = record {
  workspace = none;
  mode = restricted;
  allow_network = true;
  max_file_size = 10485760;
  max_execution_time = pos 300;
  read_requires_approval = pos 0;
  read_size_threshold = 1048576;
  web_fetch_max_chars = 25000;
  audit_log_path = none;
  allowed_commands = [];
  blocked_commands = [];
  allowed_extensions = [];
  blocked_extensions = [];
  blocked_paths = [];
  allowed_domains = [];
  require_approval_for = [];
}

abbrev pub is_unrestricted : SafetyMode → Bool
is_unrestricted restricted = false
is_unrestricted approve_all = false
is_unrestricted unrestricted = true

abbrev pub default_blocked_exts : List Bytes
default_blocked_exts = map codes (
    ".key" ∷ ".pem" ∷ ".env" ∷ ".token" ∷ ".password" ∷ ".aws" ∷ ".netrc" ∷ ".htpasswd" ∷ ".crt"
    ∷ ".p12" ∷ [])

abbrev pub default_blocked_paths : List Bytes
default_blocked_paths =
    map codes ("/etc/passwd" ∷ "/etc/shadow" ∷ "/etc/sudoers" ∷ ".git/config" ∷ [])

abbrev is_empty : List Bytes → Bool
is_empty [] = true
is_empty (x ∷ xs) = false

-- The list that the code goes through: the defaults where the configuration has none.
abbrev pub or_default : List Bytes → List Bytes → List Bytes
or_default [] defaults = defaults
or_default (x ∷ xs) defaults = x ∷ xs

unfoldable pub safety_check_path : SafetyConfig → Bytes → Bool
unfolding has_substring str_ends_with
safety_check_path cfg path =
    if is_unrestricted cfg.mode
    then true
    else if has_substring path (codes "..")
    then false
    else if not (is_empty cfg.allowed_extensions)
        && not (any (str_ends_with path) cfg.allowed_extensions)
    then false
    else if any (str_ends_with path) (or_default cfg.blocked_extensions default_blocked_exts)
    then false
    else not (any (has_substring path) (or_default cfg.blocked_paths default_blocked_paths))

abbrev pub dangerous_patterns : List Bytes
dangerous_patterns = map codes (
    "rm -rf /" ∷ "rm -rf /*" ∷ ":(){ :|:& };:" ∷ "fork()" ∷ "mkfs." ∷ "mkswap" ∷ "dd if="
    ∷ "dd if=/dev/zero" ∷ "dd if=/dev/urandom" ∷ "shred" ∷ "> /dev/sda" ∷ "> /dev/sdb"
    ∷ "> /dev/nvme" ∷ "pv < /dev/sda" ∷ "pv < /dev/sdb" ∷ "debugfs" ∷ "hdparm" ∷ "mount -o loop"
    ∷ "losetup" ∷ "parted" ∷ "fdisk" ∷ "cfdisk" ∷ "sfdisk" ∷ "chmod 777" ∷ "chmod -R 777"
    ∷ "sudo rm" ∷ "sudo rm -rf" ∷ "\\rm" ∷ "/bin/rm" ∷ "/usr/bin/rm" ∷ "unlink(" ∷ "unlink "
    ∷ "shutil.rmtree" ∷ "os.remove" ∷ "os.unlink" ∷ [])

-- One trimmed piece of a command; an empty one is passed over.
pub is_dangerous : List Bytes → Bytes → Bool
unfolding has_substring
is_dangerous patterns piece = not (length piece == 0) && any (has_substring piece) patterns

-- `items[j][0] == '&'`
abbrev pub begins_with_amp : Bytes → Bool
begins_with_amp [] = false
begins_with_amp (c ∷ s) = c == b'&'

pub check_segment : (ℕ → Bytes → Bool) → List Bytes → Bytes → Bool
unfolding is_dangerous str_split str_trim
check_segment mem patterns segment =
    if any (λ p. is_dangerous patterns (str_trim p)) (str_split mem segment b'|')
    then false
    else not (
        any (λ p. not (begins_with_amp p) && is_dangerous patterns (str_trim p))
          (str_split mem segment b'&'))

-- Whether one line of a command is refused.
pub refuses_line : (ℕ → Bytes → Bool) → List Bytes → Bytes → Bool
unfolding check_segment
refuses_line mem patterns line = not (length line == 0) && not (check_segment mem patterns line)

pub refuses_statement : (ℕ → Bytes → Bool) → List Bytes → Bytes → Bool
unfolding refuses_line str_split str_trim
refuses_statement mem patterns statement =
    not (length statement == 0)
    && any (λ l. refuses_line mem patterns (str_trim l)) (str_split mem statement b'\n')

-- The check for a list of patterns; the code's is `dangerous_patterns`.
pub check_with : (ℕ → Bytes → Bool) → List Bytes → SafetyMode → Bytes → Bool
unfolding refuses_statement str_split str_trim
check_with mem patterns mode command =
    if is_unrestricted mode
    then true
    else not (any (λ s. refuses_statement mem patterns (str_trim s)) (str_split mem command b';'))

pub safety_check_command : (ℕ → Bytes → Bool) → SafetyConfig → Bytes → Bool
unfolding check_with
safety_check_command mem cfg command = check_with mem dangerous_patterns cfg.mode command

abbrev pub destructive_keywords : List Bytes
destructive_keywords = map codes (
    "delete" ∷ "destroy" ∷ "format" ∷ "drop" ∷ "truncate" ∷ "shred" ∷ "wipe" ∷ "erase" ∷ "purge"
    ∷ "reset" ∷ [])

pub safety_check_destructive : Bytes → Bool
unfolding has_substring
safety_check_destructive command = any (has_substring command) destructive_keywords

pub safety_check_file_size : SafetyConfig → ℕ → Bool
safety_check_file_size cfg size =
    if is_unrestricted cfg.mode then true else leb size cfg.max_file_size

pub safety_needs_approval : SafetyConfig → Bytes → Bool
unfolding bytes_eq
safety_needs_approval cfg tool = elim cfg.mode [
  | approve_all ↦ true
  | unrestricted ↦ false
  | restricted ↦ any (λ name. bytes_eq name tool) cfg.require_approval_for
]

-- The list without its first entry of a name, and whether there was one.
pub remove_first : Bytes → List Bytes → List Bytes × Bool
unfolding bytes_eq
remove_first tool [] = ([], false)
remove_first tool (name ∷ names) =
    let rest = remove_first tool names in
    if bytes_eq name tool then (names, true) else (name ∷ rest.0, rest.1)

-- The result is 1 or 0.
pub safety_allow_tool_always : SafetyConfig → Bytes → SafetyConfig × Bool
unfolding remove_first
safety_allow_tool_always cfg tool =
    let removed = remove_first tool cfg.require_approval_for in
    (record cfg { require_approval_for = removed.0 }, removed.1)
