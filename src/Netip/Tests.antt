-- ===== src/Netip/Tests.antt =====
-- Addresses as texts, on one address.
use k8s_lb_controller.Prelude.{◌≡◌, ◌<◌, ◌^◌, some, arith}
use k8s_lb_controller.Netip.{parse_ipv4, show_ipv4}
use k8s_lb_controller.Netip.RoundTrip.{parse_ipv4-show_ipv4}

address_small : 167772161 < 2 ^ 32
address_small = omega arith

parse_ipv4-show_ipv4_example : parse_ipv4 (show_ipv4 167772161) ≡ some 167772161
parse_ipv4-show_ipv4_example = parse_ipv4-show_ipv4 167772161 address_small
