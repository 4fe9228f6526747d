-- ===== src/Dataplane/Apply.antt =====
-- internal/dataplane/apply.go: the configuration file, replaced by a validated candidate.
pub mod Commands
pub mod Replacing
pub mod Atomic
pub mod Reloading
use k8s_lb_controller.Prelude.{
  ℕ, suc, String, Bool, true, false, not, ◌&&◌, List, [], ◌∷◌, Option, none, some, Result, ok, err,
  ◌==◌, string_eq, if◌then◌else◌,
}
use k8s_lb_controller.Prelude.Texts.{trim_space}
use k8s_lb_controller.Provider.{Service}
use k8s_lb_controller.Dataplane.Render.{RenderError, render}
use Commands.{Invocation, CommandError, run_command}

pub record ApplyConfig : Type 0 where
  pub config_path : String
  pub validate_command : String
  pub reload_command : String
  pub pid_file : String

-- NewApplier, where `clean` is filepath.Clean; no answer stands for its one error.
unfoldable pub new_applier : (String → String) → ApplyConfig → Option ApplyConfig
unfolding trim_space
new_applier clean cfg =
    if trim_space cfg.config_path == ""
    then none
    else some (record {
      config_path = clean (trim_space cfg.config_path);
      validate_command = trim_space cfg.validate_command;
      reload_command = trim_space cfg.reload_command;
      pid_file = trim_space cfg.pid_file;
    })

pub data Errno : Type 0 where
  einval : Errno
  enotsup : Errno
  errno : ℕ → Errno

pub data Stat : Type 0 where
  stat_error : Stat
  directory : Stat
  file : Stat

-- What the system answers to the calls of one run: an error or none. A command's answer may
-- depend on the content of the file that it is about. `temp` is the path of the candidate.
pub record Faults : Type 0 where
  pub temp : String
  pub read : Option String
  pub mkdir : Option String
  pub create : Option String
  pub write : Option String
  pub sync : Option String
  pub close : Option String
  pub remove : Bool
  pub rename : Option String
  pub open_dir : Option String
  pub sync_dir : Option Errno
  pub pid_stat : Stat
  pub command : Invocation → String → Option String

-- The active file, if there is one, the candidates left in its directory, the latest first, and
-- the configuration of the last reload that succeeded.
pub record Disk : Type 0 where
  pub active : Option String
  pub candidates : List String
  pub loaded : Option String

pub data ApplyError : Type 0 where
  render_config : RenderError → ApplyError
  read_active : String → ApplyError
  create_directory : String → ApplyError
  create_candidate : String → ApplyError
  write_to_candidate : String → ApplyError
  sync_candidate : String → ApplyError
  close_candidate : String → ApplyError
  validate_config : CommandError → ApplyError
  replace_active : String → ApplyError
  open_directory : String → ApplyError
  sync_directory : Errno → ApplyError
  reload_haproxy : CommandError → ApplyError

abbrev pub Answer : Type 0 → Type 0
Answer A = Result ApplyError A × Disk

abbrev tail : List String → List String
tail [] = []
tail (c ∷ l) = l

-- The removal of the candidate; its error is ignored.
unfoldable pub cleanup : Faults → Disk → Disk
cleanup f d = if f.remove then d else record d { candidates = tail d.candidates }

abbrev pub holds : Option String → String → Bool
holds none text = false
holds (some current) text = current == text

-- renderedConfigMatchesCurrentFile
unfoldable pub matches_current : Faults → String → Disk → Result ApplyError Bool
matches_current f text d = elim f.read [
  | some e ↦ err (read_active e)
  | none ↦ ok (holds d.active text)
]

-- writeCandidateFile from the creation of the file on. What a write that failed has left in the
-- file is not told apart from nothing.
unfoldable pub fill_candidate : Faults → String → Disk → Answer (Unit {0})
unfolding cleanup
fill_candidate f text d =
    let created = record d { candidates = "" ∷ d.candidates } in
    let written = record d { candidates = text ∷ d.candidates } in
    elim f.write [
      | some e ↦ (err (write_to_candidate e), cleanup f created)
      | none ↦ elim f.sync [
        | some e ↦ (err (sync_candidate e), cleanup f written)
        | none ↦ elim f.close [
          | some e ↦ (err (close_candidate e), cleanup f written)
          | none ↦ (ok tt, written)
        ]
      ]
    ]

-- writeCandidateFile
unfoldable pub write_candidate : Faults → String → Disk → Answer (Unit {0})
unfolding fill_candidate
write_candidate f text d = elim f.mkdir [
  | some e ↦ (err (create_directory e), d)
  | none ↦ elim f.create [ some e ↦ (err (create_candidate e), d) | none ↦ fill_candidate f text d ]
]

-- ignorableSyncError
abbrev pub is_ignorable_sync_error : Errno → Bool
is_ignorable_sync_error einval = true
is_ignorable_sync_error enotsup = true
is_ignorable_sync_error (errno n) = false

-- syncPath
unfoldable pub sync_path : Faults → Option ApplyError
sync_path f = elim f.open_dir [
  | some e ↦ some (open_directory e)
  | none ↦ elim f.sync_dir [
    | some e ↦ if is_ignorable_sync_error e then none else some (sync_directory e)
    | none ↦ none
  ]
]

-- The effect of a reload that succeeded; a blank command runs nothing.
abbrev pub load : ApplyConfig → String → Disk → Disk
load cfg text d = if trim_space cfg.reload_command == "" then d else record d { loaded = some text }

unfoldable pub reload_step : ApplyConfig → Faults → String → Bool → Disk → Answer Bool
unfolding run_command trim_space
reload_step cfg f text false d = (ok true, d)
reload_step cfg f text true d =
    elim (run_command f.command cfg.reload_command cfg.config_path text) [
      | some e ↦ (err (reload_haproxy e), d)
      | none ↦ (ok true, load cfg text d)
    ]

-- What follows the replacement of the active file.
unfoldable pub after_rename : ApplyConfig → Faults → String → Bool → Disk → Answer Bool
unfolding sync_path reload_step
after_rename cfg f text reload d = elim (sync_path f) [
  | some e ↦ (err e, d)
  | none ↦ reload_step cfg f text reload d
]

-- What follows the candidate: its validation, and the renaming over the active file.
unfoldable pub after_candidate :
    ApplyConfig → Faults → String → Bool → Result ApplyError (Unit {0}) → Disk → Answer Bool
unfolding run_command cleanup after_rename
after_candidate cfg f text reload (err e) d = (err e, d)
after_candidate cfg f text reload (ok _) d =
    elim (run_command f.command cfg.validate_command f.temp text) [
      | some e ↦ (err (validate_config e), cleanup f d)
      | none ↦ elim f.rename [
        | some e ↦ (err (replace_active e), cleanup f d)
        | none ↦
            after_rename cfg f text reload
              (record d { active = some text; candidates = tail d.candidates })
      ]
    ]

-- What follows the comparison with the active file.
unfoldable pub after_read :
    ApplyConfig → Faults → String → Bool → Result ApplyError Bool → Disk → Answer Bool
unfolding after_candidate write_candidate
after_read cfg f text reload (err e) d = (err e, d)
after_read cfg f text reload (ok true) d = (ok false, d)
after_read cfg f text reload (ok false) d =
    let (r, w) = write_candidate f text d in after_candidate cfg f text reload r w

-- applyRenderedConfig
unfoldable pub apply_rendered_config : ApplyConfig → Faults → String → Bool → Disk → Answer Bool
unfolding after_read matches_current
apply_rendered_config cfg f text reload d =
    after_read cfg f text reload (matches_current f text d) d

-- shouldReloadOnBootstrap
unfoldable pub should_reload_on_bootstrap : ApplyConfig → Faults → Bool
unfolding trim_space
should_reload_on_bootstrap cfg f =
    if trim_space cfg.reload_command == ""
    then false
    else if trim_space cfg.pid_file == ""
    then false
    else elim f.pid_stat [ stat_error ↦ false | directory ↦ false | file ↦ true ]

abbrev rendered_or : (String → Disk → Answer Bool) → Result RenderError String → Disk → Answer Bool
rendered_or next (err e) d = (err (render_config e), d)
rendered_or next (ok text) d = next text d

-- Applier.Apply
unfoldable pub apply : ApplyConfig → Faults → List Service → Disk → Answer Bool
unfolding render apply_rendered_config
apply cfg f services d =
    rendered_or (λ text w. apply_rendered_config cfg f text true w) (render services) d

abbrev without_answer : Answer Bool → Answer (Unit {0})
without_answer (ok _, d) = (ok tt, d)
without_answer (err e, d) = (err e, d)

-- Applier.Bootstrap
unfoldable pub bootstrap : ApplyConfig → Faults → Disk → Answer (Unit {0})
unfolding render apply_rendered_config should_reload_on_bootstrap
bootstrap cfg f d = without_answer (
    rendered_or (λ text w. apply_rendered_config cfg f text (should_reload_on_bootstrap cfg f) w)
      (render []) d)
