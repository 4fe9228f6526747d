-- ===== src/Dataplane/Tests/Output.antt =====
-- The parser of the output of the ip command on one line.
use k8s_lb_controller.Prelude.{◌≡◌, refl, String, [], ◌∷◌, Option, some, ok, contains}
use k8s_lb_controller.Prelude.Texts.{trim_space}
use k8s_lb_controller.Prelude.Words.{fields}
use k8s_lb_controller.Netip.{v4}
use k8s_lb_controller.Dataplane.IpAttach.Netlink.{Prefix}
use k8s_lb_controller.Dataplane.IpAttach.Exec.{lines_addrs}
use k8s_lb_controller.Dataplane.IpAttach.Exec.Output.{Line, IsLine, lines_addrs-lem}

abbrev sample_line : String
sample_line = "2: eth0    inet 0.0.0.7/32 scope global eth0"

abbrev read_seven : String → Option Prefix
read_seven s = some (record { addr = v4 7; bits = 32 })

abbrev sample : Line
sample = record {
  front = "2:" ∷ "eth0" ∷ [];
  text = "0.0.0.7/32";
  prefix = record { addr = v4 7; bits = 32 };
  rest = "scope" ∷ "global" ∷ "eth0" ∷ [];
}

sample-IsLine : IsLine read_seven sample_line sample
unfolding trim_space fields contains
sample-IsLine = record { full = refl; words = refl; first = refl; parsed = refl }

lines_addrs-lem_example : lines_addrs read_seven 32 (sample_line ∷ []) ≡ ok (7 ∷ [])
lines_addrs-lem_example =
    lines_addrs-lem read_seven 32 (sample_line ∷ []) (sample ∷ []) (sample-IsLine, tt)
