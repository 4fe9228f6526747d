-- ===== src/Dataplane/Apply/Commands.antt =====
-- runCommand of internal/dataplane/apply.go.
use k8s_lb_controller.Prelude.{
  ℕ, String, Bool, List, [], ◌∷◌, Option, none, some, ◌==◌, string_eq, if◌then◌else◌, ◌≡◌, refl,
}
use k8s_lb_controller.Prelude.Texts.{trim_space}
use k8s_lb_controller.Prelude.Words.{fields, replace_all, contains_any}

-- A command line for the shell, or a program with its arguments.
pub data Invocation : Type 0 where
  shell : String → Invocation
  program : String → List String → Invocation

pub data CommandError : Type 0 where
  empty_command : CommandError
  failed : String → CommandError

abbrev pub config_placeholder : String
config_placeholder = "{{config}}"

-- The characters '"|&;<>$`().
abbrev shell_characters : List ℕ
shell_characters = 39 ∷ 34 ∷ 124 ∷ 38 ∷ 59 ∷ 60 ∷ 62 ∷ 36 ∷ 96 ∷ 40 ∷ 41 ∷ []

-- commandRequiresShell
unfoldable pub command_requires_shell : String → Bool
unfolding contains_any
command_requires_shell command = contains_any command shell_characters

abbrev as_program : List String → Option Invocation
as_program [] = none
as_program (name ∷ args) = some (program name args)

-- The command to run, if there is one.
unfoldable pub invocation : String → Option Invocation
unfolding command_requires_shell fields
invocation replaced =
    if command_requires_shell replaced then some (shell replaced) else as_program (fields replaced)

abbrev outcome : Option String → Option CommandError
outcome none = none
outcome (some e) = some (failed e)

-- runCommand, where `system` runs a command on a file that has the given content.
unfoldable pub run_command :
    (Invocation → String → Option String) → String → String → String → Option CommandError
unfolding trim_space replace_all invocation
run_command system command config_path content =
    if trim_space command == ""
    then none
    else elim (invocation (replace_all (trim_space command) config_placeholder config_path)) [
      | none ↦ some empty_command
      | some i ↦ outcome (system i content)
    ]

run_command_example :
    run_command
      (λ i content. elim i [ shell s ↦ none | program name args ↦ some name ])
      " haproxy -c -f {{config}}"
      "/tmp/a"
      "text"
    ≡ some (failed "haproxy")
unfolding run_command
run_command_example = refl
