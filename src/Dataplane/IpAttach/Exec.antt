-- ===== src/Dataplane/IpAttach/Exec.antt =====
-- internal/dataplane/ipattach/exec.go: the addresses as the ip command prints and changes them.
pub mod Output
use k8s_lb_controller.Prelude.{
  ℕ, String, Bool, true, false, List, [], ◌∷◌, ◌++◌, Option, none, some, Result, ok, err, M, ◌==◌,
  string_eq, nat_eq, if◌then◌else◌,
}
use k8s_lb_controller.Prelude.Int.{show_nat}
use k8s_lb_controller.Prelude.Order.{nat_order}
use k8s_lb_controller.Prelude.Sort.{sort, before}
use k8s_lb_controller.Prelude.Texts.{trim_space, split}
use k8s_lb_controller.Prelude.Words.{fields}
use k8s_lb_controller.Netip.{Addr, AnyAddr, invalid, v4, v6, show_ipv4}
use k8s_lb_controller.Dataplane.Host.{IpManager}
use k8s_lb_controller.Dataplane.ExternalIps.{id_addr}
use k8s_lb_controller.Dataplane.IpAttach.Manager.{ManagerError, manager}
use k8s_lb_controller.Dataplane.IpAttach.Netlink.{Prefix}
use Prim.Native.String as Text

-- Runner: a command's output, and its error if it failed.
pub record Runner (W E : Type 0) : Type 0 where
  pub combined_output : String → List String → W → (String × Option E) × W

pub data ExecError (E : Type 0) : Type 0 where
  command_error : E → String → ExecError E
  bad_prefix : String → ExecError E

-- The address of a prefix with the managed length.
abbrev pub managed_addr : ℕ → Prefix → Option Addr
managed_addr suffix p = elim p.addr [
  | invalid ↦ none
  | v6 a ↦ none
  | v4 a ↦ if p.bits == suffix then some a else none
]

abbrev pub of_prefix : ℕ → String → Option Prefix → Result String (Option Addr)
of_prefix suffix text none = err text
of_prefix suffix text (some p) = ok (managed_addr suffix p)

-- The loop over the fields of a line, where `parse_prefix` is netip.ParsePrefix: the field after
-- the first `inet` that another field follows.
unfoldable pub line_addr : (String → Option Prefix) → ℕ → List String → Result String (Option Addr)
line_addr parse_prefix suffix [] = ok none
line_addr parse_prefix suffix (field ∷ []) = ok none
line_addr parse_prefix suffix (field ∷ next ∷ rest) =
    let later = line_addr parse_prefix suffix (next ∷ rest) in
    if field == "inet" then of_prefix suffix next (parse_prefix next) else later

abbrev pub add_addr : Option Addr → List Addr → List Addr
add_addr none l = l
add_addr (some a) l = a ∷ l

abbrev pub join_line :
    Result String (Option Addr) → Result String (List Addr) → Result String (List Addr)
join_line (err e) rest = err e
join_line (ok a) (err e) = err e
join_line (ok a) (ok l) = ok (add_addr a l)

-- The loop over the lines.
unfoldable pub lines_addrs : (String → Option Prefix) → ℕ → List String → Result String (List Addr)
lines_addrs parse_prefix suffix [] = ok []
lines_addrs parse_prefix suffix (line ∷ rest) =
    let later = lines_addrs parse_prefix suffix rest in
    if trim_space line == ""
    then later
    else join_line (line_addr parse_prefix suffix (fields line)) later

-- parseManagedInterfaceAddrs
unfoldable pub parse_managed_interface_addrs :
    (String → Option Prefix) → ℕ → String → Result String (List Addr)
parse_managed_interface_addrs parse_prefix suffix output =
    lines_addrs parse_prefix suffix (split b'\n' (trim_space output))

module _ {W E : Type 0} (runner : Runner W E) (parse_prefix : String → Option Prefix)
    (command interface : String) (suffix : ℕ) where
  abbrev pub sorted_output : Result String (List Addr) → Result (ExecError E) (List Addr)
  sorted_output (err text) = err (bad_prefix text)
  sorted_output (ok l) = ok (sort (before id_addr) l)

  abbrev pub listed : String × Option E → Result (ExecError E) (List Addr)
  listed (output, some e) = err (command_error e output)
  listed (output, none) = sorted_output (parse_managed_interface_addrs parse_prefix suffix output)

  -- execManager.List
  unfoldable pub list : M W (ExecError E) (List Addr)
  list w =
      let (a, w') =
        runner.combined_output command ("-4" ∷ "-o" ∷ "addr" ∷ "show" ∷ "dev" ∷ interface ∷ []) w in
      (listed a, w')

  abbrev action : Bool → String
  action true = "add"
  action false = "del"

  abbrev pub ran : String × Option E → Result (ExecError E) (Unit {0})
  ran (output, some e) = err (command_error e output)
  ran (output, none) = ok tt

  abbrev prefix_text : Addr → String
  prefix_text addr = Text.◌++◌ (show_ipv4 addr) (Text.◌++◌ "/" (show_nat suffix))

  -- The command of EnsurePresent, and that of EnsureAbsent.
  unfoldable pub change : Bool → Addr → M W (ExecError E) (Unit {0})
  change want addr w =
      let (a, w') =
        runner.combined_output command
          ("addr" ∷ action want ∷ prefix_text addr ∷ "dev" ∷ interface ∷ []) w in
      (ran a, w')

  -- newExecManager, for a runner that is given.
  unfoldable pub exec_manager : IpManager W (ManagerError (ExecError E))
  unfolding manager list change
  exec_manager = manager list change
