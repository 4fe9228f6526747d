-- ===== src/Dataplane/IpAttach/Exec/Output.antt =====
-- What the parser reads from the output of the ip command.
use k8s_lb_controller.Prelude.{
  ℕ, ◌≡◌, refl, ap, ◌∙◌, String, false, List, [], ◌∷◌, ◌++◌, Option, some, ok, ◌==◌, string_eq,
  contains, arith,
}
use k8s_lb_controller.Prelude.Texts.{trim_space}
use k8s_lb_controller.Prelude.Words.{fields}
use k8s_lb_controller.Netip.{Addr}
use k8s_lb_controller.Dataplane.IpAttach.Netlink.{Prefix}
use k8s_lb_controller.Dataplane.IpAttach.Exec.{
  line_addr, lines_addrs, of_prefix, managed_addr, join_line, add_addr,
}
use mathlib.Core.Path.{ap₂}

line_addr-inet :
    (parse_prefix : String → Option Prefix) (suffix : ℕ) (front : List String) (text : String)
    (rest : List String)
    → contains front "inet" ≡ false
    → line_addr parse_prefix suffix (front ++ "inet" ∷ text ∷ rest)
      ≡ of_prefix suffix text (parse_prefix text)
unfolding line_addr contains
line_addr-inet parse_prefix suffix [] text rest h = refl
line_addr-inet parse_prefix suffix (f ∷ []) text rest h = ground (arith, h)
line_addr-inet parse_prefix suffix (f ∷ g ∷ front) text rest h =
    ground (arith, h, line_addr-inet parse_prefix suffix (g ∷ front) text rest)

-- One line of the output: what stands before `inet`, the prefix's text and what it means, and the
-- rest of the line.
pub record Line : Type 0 where
  pub front : List String
  pub text : String
  pub prefix : Prefix
  pub rest : List String

-- The line of a text is this one.
pub record IsLine (parse_prefix : String → Option Prefix) (line : String) (l : Line) : Type 0 where
  pub full : (trim_space line == "") ≡ false
  pub words : fields line ≡ l.front ++ "inet" ∷ l.text ∷ l.rest
  pub first : contains l.front "inet" ≡ false
  pub parsed : parse_prefix l.text ≡ some l.prefix

abbrev pub AreLines : (String → Option Prefix) → List String → List Line → Type 0
AreLines parse_prefix [] [] = Unit
AreLines parse_prefix (s ∷ ss) (l ∷ ls) = IsLine parse_prefix s l × AreLines parse_prefix ss ls
AreLines parse_prefix _ _ = ⊥

-- The addresses of the lines whose prefix has the managed length.
abbrev pub managed_of : ℕ → List Line → List Addr
managed_of suffix [] = []
managed_of suffix (l ∷ ls) = add_addr (managed_addr suffix l.prefix) (managed_of suffix ls)

-- From lines that each have one `inet` and a prefix after it, the parser reads the IPv4 addresses
-- with the managed prefix length, in their order, and no other.
pub lines_addrs-lem :
    (parse_prefix : String → Option Prefix) (suffix : ℕ) (lines : List String) (ls : List Line)
    → AreLines parse_prefix lines ls
    → lines_addrs parse_prefix suffix lines ≡ ok (managed_of suffix ls)
unfolding lines_addrs
lines_addrs-lem parse_prefix suffix [] [] h = refl
lines_addrs-lem parse_prefix suffix [] (l ∷ ls) h = absurd h
lines_addrs-lem parse_prefix suffix (s ∷ ss) [] h = absurd h
lines_addrs-lem parse_prefix suffix (s ∷ ss) (l ∷ ls) (line, lines) = rw (line.full) (
    ap₂ join_line
      (ap (line_addr parse_prefix suffix) line.words
        ∙ line_addr-inet parse_prefix suffix l.front l.text l.rest line.first
        ∙ ap (of_prefix suffix l.text) line.parsed)
      (lines_addrs-lem parse_prefix suffix ss ls lines))
