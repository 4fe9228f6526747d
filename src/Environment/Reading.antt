-- ===== src/Environment/Reading.antt =====
-- What stringEnv answers with.
use k8s_lb_controller.Prelude.{
  ◌≡◌, String, false, Option, none, some, ◌==◌, string_eq, Bool-cases, inl, inr,
}
use k8s_lb_controller.Prelude.Texts.{trim_space}
use k8s_lb_controller.Prelude.Texts.Trimming.{trim_space_idem}
use k8s_lb_controller.Environment.{Env, text_or, string_env}

text_or-trimmed :
    (default : String) (o : Option String)
    → trim_space default ≡ default
    → trim_space (text_or default o) ≡ text_or default o
text_or-trimmed default none h = h
text_or-trimmed default (some v) h = elim (Bool-cases (trim_space v == "")) [
  | inl e ↦ rw e h
  | inr e ↦ rw e (trim_space_idem v)
]

pub string_env-trimmed :
    (env : Env) (key default : String)
    → trim_space default ≡ default
    → trim_space (string_env env key default) ≡ string_env env key default
unfolding string_env
string_env-trimmed env key default h = text_or-trimmed default (env key) h

text_or-named :
    (default : String) (o : Option String)
    → (default == "") ≡ false
    → (text_or default o == "") ≡ false
text_or-named default none h = h
text_or-named default (some v) h = elim (Bool-cases (trim_space v == "")) [
  | inl e ↦ rw e h
  | inr e ↦ rw e e
]

pub string_env-named :
    (env : Env) (key default : String)
    → (default == "") ≡ false
    → (string_env env key default == "") ≡ false
unfolding string_env
string_env-named env key default h = text_or-named default (env key) h
