-- ===== src/Ipam/Pool/Bounds.antt =====
-- The addresses of a pool have 32 bits.
use k8s_lb_controller.Prelude.{◌^◌, ◌<◌, ◌≡◌, String, List, [], ◌∷◌, map, some, ok, All}
use k8s_lb_controller.Netip.{Addr, parse_ipv4}
use k8s_lb_controller.Netip.Bounds.{parse_ipv4-lt}
use k8s_lb_controller.Ipam.Pool.{parse_pool}
use k8s_lb_controller.Ipam.Pool.Parsing.{items, parse_pool-eq-ok}
use k8s_lb_controller.Prelude.Texts.{split}

parsed-lt :
    (texts : List String) (pool : List Addr)
    → map parse_ipv4 texts ≡ map some pool
    → All (λ a. a < 2 ^ 32) pool
parsed-lt [] [] h = tt
parsed-lt [] (a ∷ pool) h = absurd (cc)
parsed-lt (t ∷ texts) [] h = absurd (cc)
parsed-lt (t ∷ texts) (a ∷ pool) h = (parse_ipv4-lt t a (cc), parsed-lt texts pool (cc))

pub parse_pool-lt :
    (raw : String) (pool : List Addr) → parse_pool raw ≡ ok pool → All (λ a. a < 2 ^ 32) pool
parse_pool-lt raw pool h = parsed-lt (items (split b',' raw)) pool (parse_pool-eq-ok raw pool h).0
