-- ===== src/Safety/Tests.antt =====
-- Runs of the policy, and its theorems at concrete inputs.
use echo_ai_c.Base.{
  has_byte, ◌≡◌, ◌≢◌, refl, ℕ, ◌+◌, ◌*◌, ◌^◌, Bool, true, false, Option, none, some, [], ◌∷◌, arith,
  Bytes, codes, bytes_eq, has_substring, if◌then◌else◌,
}
use echo_ai_c.Safety.{
  SafetyConfig, safety_config_create, safety_check_command, dangerous_patterns, safety_check_path,
}
use echo_ai_c.Safety.Command.{plenty, holds_plain}
use echo_ai_c.Safety.Refusal.{safety_check_command-patterns}
use echo_ai_c.Safety.Address.{inet, safety_check_socket_address}
use echo_ai_c.Safety.Address.Groups.{safety_check_socket_address-blocks}
use echo_ai_c.Safety.Load.{Conf, LoadMemory, safety_load_from_conf}
use echo_ai_c.Safety.Resolve.{
  found, safety_resolve_path_alloc, Below, safety_resolve_path_alloc-Below,
}
use echo_ai_c.Safety.Url.{Quad, safety_check_url}

abbrev command : Bytes
command = codes "cd /tmp && sudo rm notes; ls"

abbrev short : ℕ → Bytes → Bool
short d p = false

command_holds : holds_plain dangerous_patterns command ≡ true
unfolding has_substring has_byte
command_holds = refl

-- The pattern of the fork bomb holds separators: a command that is just that passes.
fork_bomb_passes : safety_check_command plenty safety_config_create (codes ":(){ :|:& };:") ≡ true
unfolding safety_check_command
fork_bomb_passes = refl

empty_extension_allows_all :
    safety_check_path
      (record safety_config_create { allowed_extensions = codes ".txt" ∷ [] ∷ [] })
      (codes "a.exe")
    ≡ true
unfolding safety_check_path
empty_extension_allows_all = refl

safety_check_command-patterns_example :
    safety_check_command plenty safety_config_create command ≡ false
safety_check_command-patterns_example =
    (safety_check_command-patterns plenty safety_config_create command refl).0 command_holds

safety_check_socket_address-blocks_example :
    safety_check_socket_address safety_config_create (inet (192 * 2 ^ 24 + 168 * 2 ^ 16 + 1))
    ≡ false
safety_check_socket_address-blocks_example =
    (safety_check_socket_address-blocks safety_config_create (192 * 2 ^ 24 + 168 * 2 ^ 16 + 1)
      0xfe80 0 0 0 0 0 0 1 refl (omega arith) (omega arith)).0

abbrev asking : SafetyConfig
asking = record safety_config_create { require_approval_for = codes "bash" ∷ codes "git" ∷ [] }

other_tool : codes "git" ≢ codes "bash"
other_tool e = absurd (ground (arith, e))

abbrev memory : LoadMemory
memory = record { piece = plenty; array = λ s. true; copy = λ s. true; default_list = true }

abbrev no_values : Conf
no_values = record { get = λ key. none; get_int = λ key old. old }

loads : (safety_load_from_conf memory safety_config_create no_values).1 ≡ false
unfolding safety_load_from_conf
loads = refl

abbrev in_workspace : SafetyConfig
in_workspace = record safety_config_create { workspace = some (codes "/w") }

resolves : safety_resolve_path_alloc found in_workspace (codes "a/b") ≡ some (codes "/w/a/b")
unfolding safety_resolve_path_alloc
resolves = refl

safety_resolve_path_alloc-Below_example : Below (codes "/w") (codes "/w/a/b")
safety_resolve_path_alloc-Below_example =
    (safety_resolve_path_alloc-Below found in_workspace (codes "/w") (codes "/w") (codes "a/b")
      (codes "/w/a/b") refl refl refl (λ p c e. refl) resolves).0

abbrev four : Bytes → Option Quad
four host =
    if bytes_eq host (codes "10.0.0.1") then some (record { a = 10; b = 0; c = 0; d = 1 }) else none

host_refused : safety_check_url four safety_config_create (codes "http://10.0.0.1/") ≡ false
unfolding safety_check_url bytes_eq
host_refused = refl
