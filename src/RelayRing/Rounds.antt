-- ===== src/RelayRing/Rounds.antt =====
-- The loop that makes the ring.
use p2pt_server.Prelude.{
  ℕ, zero, suc, ◌+◌, ◌-◌, ◌≤◌, ◌<◌, ◌%◌, ◌^◌, Option, none, some, List, [], ◌∷◌, ◌≡◌, refl, ap,
  subst, arith, ltb, ltb→lt, if_cases, if◌then◌else◌,
}
use p2pt_server.RelayRing.Generator.{ring_loop}

-- `n` numbers from `k` on.
abbrev pub count_up : ℕ → ℕ → List ℕ
count_up zero k = []
count_up (suc n) k = k ∷ count_up n (suc k)

ring_loop-ends :
    (k fuel port max_port : ℕ)
    → port + k ≡ max_port + 1
    → max_port < 65535
    → k < fuel
    → ring_loop fuel port max_port ≡ some (count_up k port)
unfolding ring_loop
ring_loop-ends k zero port max_port e m f = absurd (omega (arith, f))
ring_loop-ends zero (suc fuel) port max_port e m f = ground (arith, e)
ring_loop-ends (suc k) (suc fuel) port max_port e m f =
    let next : (port + 1) % 2 ^ 16 ≡ suc port = omega (arith, e, m) in
    let rest =
      ring_loop-ends k fuel ((port + 1) % 2 ^ 16) max_port (omega (arith, e, m)) m
        (omega (arith, f)) in
    ground (arith, e, rest, ap (count_up k) next)

ring_loop-never : (fuel port : ℕ) → port ≤ 65535 → ring_loop fuel port 65535 ≡ none
unfolding ring_loop
ring_loop-never zero port h = refl
ring_loop-never (suc fuel) port h =
    ground (arith, ring_loop-never fuel ((port + 1) % 2 ^ 16) (omega arith))

-- The loop that makes the ring of a range of ports, whose counter has sixteen bits: with more than
-- one round for each port it has ended, with the ports of the range, if the range ends below 65535;
-- if the range ends at 65535 it has not ended after any number of rounds.
pub port_loop :
    (min_port max_port fuel : ℕ)
    → min_port ≤ max_port
    → max_port ≤ 65535
    → max_port - min_port + 1 < fuel
    → ring_loop fuel min_port max_port
      ≡ (if ltb max_port 65535 then some (count_up (max_port - min_port + 1) min_port) else none)
port_loop min_port max_port fuel le small enough =
    if_cases (λ (o : Option (List ℕ)). ring_loop fuel min_port max_port ≡ o) (ltb max_port 65535)
      (λ e.
        ring_loop-ends (max_port - min_port + 1) fuel min_port max_port (omega (arith, le))
          (ltb→lt max_port 65535 e) enough)
      (λ e.
        subst (λ (m : ℕ). ring_loop fuel min_port m ≡ none) (ground (arith, e, small))
          (ring_loop-never fuel min_port (omega (arith, le, small))))
