-- ===== src/Command/Kubeconfig.antt =====
-- diagnoseLocalKubeconfig of cmd/main.go and what it calls. The loading rules of client-go and
-- os.Stat are parameters.
pub mod Contexts
use k8s_lb_controller.Prelude.{
  String, Bool, true, false, not, ◌&&◌, ◌||◌, List, [], ◌∷◌, Option, none, some, Result, ok, err,
  ◌==◌, string_eq, nat_eq, if◌then◌else◌,
}
use k8s_lb_controller.Prelude.Texts.{trim_space}
use k8s_lb_controller.Prelude.Order.{text_order}
use k8s_lb_controller.Prelude.Sort.{sort, before}
use k8s_lb_controller.Environment.{Env}
use Prim.Native.Char.{code}
use Prim.Native.String.{◌++◌}
use Prim.Native.String as Text

-- strings.HasPrefix and strings.TrimPrefix: what is behind the prefix.
unfoldable pub behind_prefix : String → String → Option String
behind_prefix Text.[] s = some s
behind_prefix (Text.◌∷◌ c p) Text.[] = none
behind_prefix (Text.◌∷◌ c p) (Text.◌∷◌ d s) =
    let rest = behind_prefix p s in if code c == code d then rest else none

abbrev pub first_argument : List String → String
first_argument [] = ""
first_argument (arg ∷ args) = trim_space arg

-- kubeconfigFlagValue
unfoldable pub kubeconfig_flag_value : List String → String
kubeconfig_flag_value [] = ""
kubeconfig_flag_value (raw ∷ args) =
    let arg = trim_space raw in
    let later = kubeconfig_flag_value args in
    elim (behind_prefix "--kubeconfig=" arg) [
      | some value ↦ trim_space value
      | none ↦ elim (behind_prefix "-kubeconfig=" arg) [
        | some value ↦ trim_space value
        | none ↦
            if arg == "--kubeconfig" || arg == "-kubeconfig" then first_argument args else later
      ]
    ]

-- What os.Stat says of a path: whether it is a directory, or nothing on an error.
abbrev pub Stat : Type 0
Stat = String → Option Bool

abbrev pub is_file : Option Bool → Bool
is_file none = false
is_file (some is_directory) = not is_directory

-- existingKubeconfigPaths
unfoldable pub existing_kubeconfig_paths : Stat → List String → List String
existing_kubeconfig_paths stat [] = []
existing_kubeconfig_paths stat (path ∷ paths) =
    let rest = existing_kubeconfig_paths stat paths in
    if not (path == "") && is_file (stat path) then path ∷ rest else rest

-- The two fields of the loaded kubeconfig that are read: the names of its contexts come in the
-- order in which the loop over Go's map takes them.
pub record RawConfig : Type 0 where
  pub current_context : String
  pub contexts : List String

-- What the program takes from client-go: the files that are consulted, by the explicit path, and
-- what they hold together.
pub record LoadingRules (E : Type 0) : Type 0 where
  pub precedence : String → List String
  pub load : String → Result E RawConfig

-- kubeconfigDiagnostic, by its kind.
pub data Diagnostic : Type 0 where
  missing_current_context :
      (kubeconfig_path : String)
      → (available_contexts : List String) → (checked_sources : List String)
      → (suggested_command : String) → Diagnostic
  no_kubeconfig : (checked_sources : List String) → Diagnostic

-- From the sorted names on.
abbrev pub suggest : String → List String → List String → Option Diagnostic
suggest path checked [] = none
suggest path checked (name ∷ names) =
    some
      (missing_current_context path (name ∷ names) checked ("kubectl config use-context " ++ name))

-- From the loaded kubeconfig on.
unfoldable pub inspect : String → List String → RawConfig → Option Diagnostic
inspect path checked raw =
    if raw.current_context == ""
    then suggest path checked (sort (before (λ name. name)) raw.contexts)
    else none

-- likelyInClusterEnvironment
abbrev pub is_set : Option String → Bool
is_set none = false
is_set (some value) = true

unfoldable pub likely_in_cluster_environment : Env → Bool
likely_in_cluster_environment env =
    is_set (env "KUBERNETES_SERVICE_HOST") && is_set (env "KUBERNETES_SERVICE_PORT")

module _ {E : Type 0} (stat : Stat) (rules : LoadingRules E) where
  abbrev pub diagnose_sources : String → List String → List String → Result E (Option Diagnostic)
  diagnose_sources explicit checked [] = ok (some (no_kubeconfig checked))
  diagnose_sources explicit checked (path ∷ paths) = elim (rules.load explicit) [
    | err e ↦ err e
    | ok raw ↦ ok (inspect path checked raw)
  ]

  -- diagnoseLocalKubeconfig
  unfoldable pub diagnose_local_kubeconfig : List String → Result E (Option Diagnostic)
  diagnose_local_kubeconfig args =
      let explicit = kubeconfig_flag_value args in
      let checked = rules.precedence explicit in
      diagnose_sources explicit checked (existing_kubeconfig_paths stat checked)

  -- What main asks before it builds the client, by the environment and the arguments.
  unfoldable pub preflight : Env → List String → Result E (Option Diagnostic)
  unfolding likely_in_cluster_environment diagnose_local_kubeconfig
  preflight env args =
      if likely_in_cluster_environment env then ok none else diagnose_local_kubeconfig args

  -- Whether main goes on after that.
  abbrev pub passes : Result E (Option Diagnostic) → Bool
  passes (ok none) = true
  passes r = false
