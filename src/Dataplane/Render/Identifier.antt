-- ===== src/Dataplane/Render/Identifier.antt =====
-- The names of sections and servers.
use k8s_lb_controller.Prelude.{
  ℕ, ◌+◌, String, ◌≡◌, refl, ◌&&◌, if◌then◌else◌, ltb, leb, ◌==◌, string_eq,
}
use k8s_lb_controller.Prelude.Int.{pos, show_nat, show_int}
use k8s_lb_controller.Prelude.Texts.{trim_space, to_lower, trim_of}
use k8s_lb_controller.Provider.{Service, ServicePort, BackendEndpoint}
use Prim.Native.Char.{Char, code}
use Prim.Native.String.{◌++◌}

-- The character itself if it is a small letter or a digit, and else an underscore.
unfoldable pub sanitize_char : Char → Char
sanitize_char c =
    if leb b'a' (code c) && leb (code c) b'z'
    then c
    else if leb b'0' (code c) && leb (code c) b'9'
    then c
    else "_"

unfoldable pub sanitize_text : String → String
unfolding sanitize_char
sanitize_text String.[] = String.[]
sanitize_text (String.◌∷◌ c s) = String.◌∷◌ (sanitize_char c) (sanitize_text s)

abbrev or_unnamed : String → String
or_unnamed s = if s == "" then "unnamed" else s

-- sanitizeIdentifier
unfoldable pub sanitize_identifier : String → String
unfolding sanitize_text trim_space to_lower trim_of
sanitize_identifier value =
    let trimmed = trim_space (to_lower value) in
    if trimmed == "" then "unnamed" else or_unnamed (trim_of b'_' (sanitize_text trimmed))

-- identifierSuffix
unfoldable pub identifier_suffix : Service → ServicePort → String
unfolding to_lower show_int
identifier_suffix s p =
    to_lower
      (s.namespace ++ "_" ++ s.name ++ "_" ++ show_int p.port ++ "_" ++ p.name ++ "_" ++ p.protocol)

unfoldable pub frontend_identifier : Service → ServicePort → String
unfolding sanitize_identifier identifier_suffix
frontend_identifier s p = "fe_" ++ sanitize_identifier (identifier_suffix s p)

unfoldable pub backend_identifier : Service → ServicePort → String
unfolding sanitize_identifier identifier_suffix
backend_identifier s p = "be_" ++ sanitize_identifier (identifier_suffix s p)

-- %04d
abbrev pad4 : ℕ → String
pad4 n =
    (if ltb n 1000 then "0" else "")
    ++ (if ltb n 100 then "0" else "")
    ++ (if ltb n 10 then "0" else "")
    ++ show_nat n

unfoldable pub server_identifier : ℕ → BackendEndpoint → String
unfolding sanitize_identifier show_int show_nat
server_identifier index b =
    sanitize_identifier ("srv_" ++ pad4 (index + 1) ++ "_" ++ b.address ++ "_" ++ show_int b.port)

sanitize_identifier_example : sanitize_identifier " Team-A_web_80__TCP" ≡ "team_a_web_80__tcp"
unfolding sanitize_identifier
sanitize_identifier_example = refl

server_identifier_example :
    server_identifier 0 (record { address = "10.0.0.7"; port = pos 8080 })
    ≡ "srv_0001_10_0_0_7_8080"
unfolding server_identifier
server_identifier_example = refl
