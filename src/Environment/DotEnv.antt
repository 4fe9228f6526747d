-- ===== src/Environment/DotEnv.antt =====
-- LoadDotEnv of internal/config/config.go. The entries of the file come in the order in which the
-- loop over Go's map takes them.
use k8s_lb_controller.Prelude.{
  ap, ◌∙◌, ◌≡◌, refl, String, Bool, true, false, ◌||◌, List, [], ◌∷◌, Option, none, some, Result,
  ok, err, ◌==◌, nat_eq, string_eq, if◌then◌else◌, contains, equal-true, arith, Bool-cases,
  Option-cases, inl, inr,
}
use k8s_lb_controller.Prelude.Texts.{codes, is_empty}

-- What godotenv.Read answers: a map has each name once, and its entries come here in the order of
-- the loop.
pub data DotEnvFile : Type 0 where
  missing : DotEnvFile
  unreadable : DotEnvFile
  entries : List (String × String) → DotEnvFile

pub data DotEnvError : Type 0 where
  read_failed : DotEnvError
  set_failed : String → DotEnvError

abbrev Env : Type 0
Env = String → Option String

-- os.Setenv refuses an empty name, a name with an equals sign or a NUL, and a value with a NUL.
unfoldable pub setenv_refuses : String → String → Bool
unfolding contains
setenv_refuses key value =
    is_empty key || contains (codes key) 61 || contains (codes key) 0 || contains (codes value) 0

abbrev pub set_variable : String → String → Env → Env
set_variable key value env name = if key == name then some value else env name

-- The loop of LoadDotEnv. What was set before an error stays set.
unfoldable pub set_missing : List (String × String) → Env → Result DotEnvError Bool × Env
set_missing [] env = (ok true, env)
set_missing ((key, value) ∷ rest) env = elim (env key) [
  | some _ ↦ set_missing rest env
  | none ↦
      let more = set_missing rest (set_variable key value env) in
      if setenv_refuses key value then (err (set_failed key), env) else more
]

-- LoadDotEnv: whether there is a file.
unfoldable pub load_dot_env : DotEnvFile → Env → Result DotEnvError Bool × Env
unfolding set_missing
load_dot_env missing env = (ok false, env)
load_dot_env unreadable env = (err read_failed, env)
load_dot_env (entries values) env = set_missing values env

-- What the map has under a name.
unfoldable pub entry : List (String × String) → String → Option String
entry [] name = none
entry ((key, value) ∷ rest) name = if key == name then some value else entry rest name

abbrev pub or_else : Option String → Option String → Option String
or_else none o = o
or_else (some value) o = some value

abbrev pub map_entries : DotEnvFile → List (String × String)
map_entries (entries values) = values
map_entries file = []

set_other :
    (key value name old : String) (env : Env)
    → env key ≡ none
    → env name ≡ some old
    → set_variable key value env name ≡ some old
set_other key value name old env e h = elim (Bool-cases (key == name)) [
  | inl same ↦
      let p : env key ≡ env name = ap env (equal-true {a = key} {b = name} same) in
      absurd (cc (e, h, p))
  | inr other ↦ rw other h
]

set_missing-keeps :
    (values : List (String × String)) (env : Env) (name value : String)
    → env name ≡ some value
    → (set_missing values env).1 name ≡ some value
unfolding set_missing
set_missing-keeps [] env name value h = h
set_missing-keeps ((k, v) ∷ rest) env name value h = elim (Option-cases (env k)) [
  | inr (w, e) ↦ rw (e, set_missing) (set_missing-keeps rest env name value h)
  | inl e ↦ elim (Bool-cases (setenv_refuses k v)) [
    | inl refused ↦ rw (e, refused, set_missing) h
    | inr fine ↦
        rw (e, fine, set_missing)
          (set_missing-keeps rest (set_variable k v env) name value
            (set_other k v name value env e h))
  ]
]

load_dot_env-keeps :
    (file : DotEnvFile) (env : Env) (name value : String)
    → env name ≡ some value
    → (load_dot_env file env).1 name ≡ some value
unfolding load_dot_env
load_dot_env-keeps missing env name value h = h
load_dot_env-keeps unreadable env name value h = h
load_dot_env-keeps (entries values) env name value h = set_missing-keeps values env name value h

fill_known :
    (key value name old : String) (env : Env) (o : Option String)
    → env key ≡ some old
    → or_else (env name) o ≡ or_else (env name) (if key == name then some value else o)
fill_known key value name old env o e = elim (Bool-cases (key == name)) [
  | inr other ↦ rw other
  | inl same ↦
      let p : env key ≡ env name = ap env (equal-true {a = key} {b = name} same) in
      let q : env name ≡ some old = cc (e, p) in rw (same, q)
]

fill_set :
    (key value name : String) (env : Env) (o : Option String)
    → env key ≡ none
    → or_else (set_variable key value env name) o
      ≡ or_else (env name) (if key == name then some value else o)
fill_set key value name env o e = elim (Bool-cases (key == name)) [
  | inr other ↦ rw other
  | inl same ↦
      let p : env key ≡ env name = ap env (equal-true {a = key} {b = name} same) in
      let q : env name ≡ none = cc (e, p) in rw (same, q)
]

or_else-none : (o : Option String) → o ≡ or_else o none
or_else-none none = refl
or_else-none (some v) = refl

set_missing-fills :
    (values : List (String × String)) (env : Env) (name : String) (b : Bool)
    → (set_missing values env).0 ≡ ok b
    → (set_missing values env).1 name ≡ or_else (env name) (entry values name)
unfolding set_missing entry
set_missing-fills [] env name b = λ h. or_else-none (env name)
set_missing-fills ((k, v) ∷ rest) env name b = elim (Option-cases (env k)) [
  | inr (w, e) ↦
      rw (e, set_missing)
        (λ h. set_missing-fills rest env name b h ∙ fill_known k v name w env (entry rest name) e)
  | inl e ↦ elim (Bool-cases (setenv_refuses k v)) [
    | inl refused ↦ rw (e, refused, set_missing) (λ h. absurd (ground arith))
    | inr fine ↦
        rw (e, fine, set_missing)
          (λ h.
            set_missing-fills rest (set_variable k v env) name b h
            ∙ fill_set k v name env (entry rest name) e)
  ]
]

load_dot_env-ok :
    (file : DotEnvFile) (env : Env) (name : String) (b : Bool)
    → (load_dot_env file env).0 ≡ ok b
    → (load_dot_env file env).1 name ≡ or_else (env name) (entry (map_entries file) name)
unfolding load_dot_env entry
load_dot_env-ok missing env name b h = or_else-none (env name)
load_dot_env-ok unreadable env name b h = absurd (ground arith)
load_dot_env-ok (entries values) env name b h = set_missing-fills values env name b h

-- LoadDotEnv never changes a variable that is set, also when it fails midway. When it returns
-- without an error, a variable that was not set has the value that the map which godotenv.Read made
-- of the file has for it, and is still not set if the map has none.
pub load_dot_env_lem :
    (file : DotEnvFile) (env : Env) (name : String)
    → ((value : String) → env name ≡ some value → (load_dot_env file env).1 name ≡ some value)
      × ((b : Bool)
          → (load_dot_env file env).0 ≡ ok b
          → (load_dot_env file env).1 name ≡ or_else (env name) (entry (map_entries file) name))
load_dot_env_lem file env name = (load_dot_env-keeps file env name, load_dot_env-ok file env name)
