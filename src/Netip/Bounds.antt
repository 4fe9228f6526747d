-- ===== src/Netip/Bounds.antt =====
-- An address that has been parsed has 32 bits.
use k8s_lb_controller.Prelude.{
  ℕ, zero, suc, ◌+◌, ◌-◌, ◌*◌, ◌^◌, ◌≤◌, ◌<◌, ◌≡◌, String, false, List, [], ◌∷◌, some, arith, ltb,
  nat_eq,
}
use k8s_lb_controller.Prelude.Texts.{codes}
use k8s_lb_controller.Netip.{Addr, parse_fields, parse_ipv4}

-- The value of the fields before a position.
abbrev Below : ℕ → ℕ → Type 0
Below zero acc = acc ≡ 0
Below (suc zero) acc = acc < 256
Below (suc (suc zero)) acc = acc < 65536
Below (suc (suc (suc zero))) acc = acc < 16777216
Below (suc (suc (suc (suc n)))) acc = ⊥

Below-next :
    (pos acc val : ℕ) → pos < 3 → Below pos acc → val < 256 → Below (pos + 1) (acc * 256 + val)
Below-next zero acc val p h k = omega arith
Below-next (suc zero) acc val p h k = omega arith
Below-next (suc (suc zero)) acc val p h k = omega arith
Below-next (suc (suc (suc n))) acc val p h k = absurd (omega arith)

Below-last :
    (pos acc val : ℕ) → Below pos acc → ltb pos 3 ≡ false → val < 256 → acc * 256 + val < 2 ^ 32
Below-last zero acc val h p k = absurd (ground arith)
Below-last (suc zero) acc val h p k = absurd (ground arith)
Below-last (suc (suc zero)) acc val h p k = absurd (ground arith)
Below-last (suc (suc (suc zero))) acc val h p k = omega arith
Below-last (suc (suc (suc (suc n)))) acc val h p k = absurd h

Below-le : (pos acc : ℕ) → Below pos acc → pos ≤ 3
Below-le zero acc h = omega arith
Below-le (suc zero) acc h = omega arith
Below-le (suc (suc zero)) acc h = omega arith
Below-le (suc (suc (suc zero))) acc h = omega arith
Below-le (suc (suc (suc (suc n)))) acc h = absurd h

parse_fields-lt :
    (cs : List ℕ) (val digits pos acc : ℕ) (a : Addr)
    → Below pos acc
    → val < 256
    → parse_fields cs val digits pos acc ≡ some a
    → a < 2 ^ 32
unfolding parse_fields
parse_fields-lt [] val digits pos acc a h k e = ground (arith, Below-last pos acc val h)
parse_fields-lt (c ∷ cs) val digits pos acc a h k e = ground (
  arith,
  parse_fields-lt cs (val * 10 + (c - 48)) (digits + 1) pos acc a h,
  parse_fields-lt cs 0 0 (pos + 1) (acc * 256 + val) a,
  Below-next pos acc val,
  Below-le pos acc h,
)

pub parse_ipv4-lt : (s : String) (a : Addr) → parse_ipv4 s ≡ some a → a < 2 ^ 32
unfolding parse_ipv4
parse_ipv4-lt s a h = parse_fields-lt (codes s) 0 0 0 0 a (omega arith) (omega arith) h
