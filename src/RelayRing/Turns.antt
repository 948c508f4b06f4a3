-- ===== src/RelayRing/Turns.antt =====
-- The order in which allocations go round the ports.
use p2pt_server.Prelude.{
  ℕ, zero, suc, ◌+◌, ◌-◌, ◌≤◌, ◌<◌, ◌%◌, Bool, false, ◌&&◌, not, Option, none, some, List, [], ◌∷◌,
  ◌≡◌, refl, ap, sym, ◌∙◌, subst, arith, ltb, length, is_empty, if_cases, if◌then◌else◌,
}
use native.Mathlib.Nat.{mod-add-mod, mod-lt, zero-mod}
use p2pt_server.RelayRing.{RingPortNode, new_node, attach}
use p2pt_server.RelayRing.Generator.{
  RingRelayAddressGenerator, new_generator, ring_loop, new_nodes, get_node?, set_node, Allocated,
  unsupported, no_ports, bind_failed, allocated, panics, use_node, is_udp, initialised,
  allocate_packet_conn,
}
use p2pt_server.RelayRing.Rounds.{count_up, port_loop}

ports_of : List RingPortNode → List ℕ
ports_of [] = []
ports_of (n ∷ l) = n.port ∷ ports_of l

ports_of-new_nodes : (ports : List ℕ) → ports_of (new_nodes ports) ≡ ports
unfolding ports_of new_nodes new_node
ports_of-new_nodes [] = refl
ports_of-new_nodes (p ∷ ports) = ap (λ (l : List ℕ). p ∷ l) (ports_of-new_nodes ports)

ports_of-set_node :
    (i : ℕ) (n m : RingPortNode) (l : List RingPortNode)
    → get_node? i l ≡ some m
    → n.port ≡ m.port
    → ports_of (set_node i n l) ≡ ports_of l
unfolding ports_of set_node get_node?
ports_of-set_node i n m [] h e = refl
ports_of-set_node zero n m (x ∷ l) h e = ground (arith, e, h)
ports_of-set_node (suc i) n m (x ∷ l) h e =
    ap (λ (q : List ℕ). x.port ∷ q) (ports_of-set_node i n m l h e)

-- The node at each place of a ring of `n` ports from `k` on.
get_node-port :
    (n k i : ℕ) (l : List RingPortNode)
    → ports_of l ≡ count_up n k
    → i < n
    → (m : RingPortNode) × (get_node? i l ≡ some m) × (m.port ≡ k + i)
unfolding ports_of get_node?
get_node-port zero k i l e h = absurd (omega (arith, h))
get_node-port (suc n) k i [] e h = absurd (cc e)
get_node-port (suc n) k zero (x ∷ l) e h = (x, refl, ground (arith, e))
get_node-port (suc n) k (suc i) (x ∷ l) e h =
    let (m, found, at) = get_node-port n (suc k) i l (ground (arith, e)) (omega (arith, h)) in
    (m, found, omega (arith, at))

length-ports_of : (l : List RingPortNode) → length l ≡ length (ports_of l)
unfolding ports_of
length-ports_of [] = refl
length-ports_of (x ∷ l) = ap suc (length-ports_of l)

length-count_up : (n k : ℕ) → length (count_up n k) ≡ n
length-count_up zero k = refl
length-count_up (suc n) k = ap suc (length-count_up n (suc k))

-- A ring of `n` ports from `k` on, after `t` turns.
record InTurn (n k t : ℕ) (r : RingRelayAddressGenerator) : Type 0 where
  ports : ports_of r.ring ≡ count_up n k
  index : r.current_index ≡ t % n

-- The port that an answer is about.
abbrev pub port_of : Allocated → Option ℕ
port_of (bind_failed p) = some p
port_of (allocated p v) = some p
port_of unsupported = none
port_of no_ports = none
port_of panics = none

mod-suc : (t n : ℕ) → 0 < n → (t % n + 1) % n ≡ suc t % n
mod-suc t n h = mod-add-mod t n 1 ∙ ap (λ (x : ℕ). x % n) (omega arith)

length-ring : (n k : ℕ) (l : List RingPortNode) → ports_of l ≡ count_up n k → length l ≡ n
length-ring n k l e = length-ports_of l ∙ ap length e ∙ length-count_up n k

use_node-turn :
    (b : Bool) (n k t : ℕ) (r : RingRelayAddressGenerator) (m : RingPortNode)
    → 0 < n
    → InTurn n k t r
    → get_node? r.current_index r.ring ≡ some m
    → m.port ≡ k + t % n
    → (port_of (use_node b r (some m)).1 ≡ some (k + t % n))
      × InTurn n k (suc t) (use_node b r (some m)).0
unfolding use_node attach
use_node-turn b n k t r m pos x found at =
    if_cases P (not m.bound && not b) (λ _. (ap some at, record { ports = x.ports; index = moved }))
      (λ _. (
        ap some at,
        record {
          ports = ports_of-set_node r.current_index _ m r.ring found refl ∙ x.ports;
          index = moved;
        },
      ))
  where
    P : RingRelayAddressGenerator × Allocated → Type 0
    P a = (port_of a.1 ≡ some (k + t % n)) × InTurn n k (suc t) a.0

    moved : (r.current_index + 1) % length r.ring ≡ suc t % n
    moved = rw (length-ring n k r.ring x.ports, x.index) (mod-suc t n pos)

not_empty :
    (n k : ℕ) (l : List RingPortNode) → 0 < n → ports_of l ≡ count_up n k → is_empty l ≡ false
unfolding ports_of
not_empty n k (y ∷ l) pos e = refl
not_empty zero k [] pos e = absurd (omega (arith, pos))
not_empty (suc n) k [] pos e = absurd (cc e)

-- A call in a ring that is made.
allocate-turn :
    (ports : List ℕ) (b : Bool) (n k t : ℕ) (r : RingRelayAddressGenerator)
    → 0 < n
    → InTurn n k t r
    → (port_of (allocate_packet_conn ports "udp" b r).1 ≡ some (k + t % n))
      × InTurn n k (suc t) (allocate_packet_conn ports "udp" b r).0
unfolding allocate_packet_conn initialised is_udp
allocate-turn ports b n k t r pos x =
    let (m, found, at) = get_node-port n k (t % n) r.ring x.ports (mod-lt t pos) in
    let here : get_node? r.current_index r.ring ≡ some m =
      ap (λ (i : ℕ). get_node? i r.ring) x.index ∙ found in
    let some_port = not_empty n k r.ring pos x.ports in
    rw (some_port, some_port, here) (use_node-turn b n k t r m pos x here at)

-- Calls of `AllocatePacketConn`, one for each answer of the system.
unfoldable pub allocate_all :
    List ℕ → List Bool → RingRelayAddressGenerator → RingRelayAddressGenerator
allocate_all ports [] r = r
allocate_all ports (b ∷ bs) r = allocate_all ports bs (allocate_packet_conn ports "udp" b r).0

allocate_all-turn :
    (ports : List ℕ) (bs : List Bool) (n k t : ℕ) (r : RingRelayAddressGenerator)
    → 0 < n
    → InTurn n k t r
    → InTurn n k (t + length bs) (allocate_all ports bs r)
unfolding allocate_all
allocate_all-turn ports [] n k t r pos x = subst (λ (u : ℕ). InTurn n k u r) (omega arith) x
allocate_all-turn ports (b ∷ bs) n k t r pos x =
    subst (λ (u : ℕ). InTurn n k u (allocate_all ports (b ∷ bs) r)) (omega arith)
      (allocate_all-turn ports bs n k (suc t) _ pos (allocate-turn ports b n k t r pos x).1)

-- The first call makes the ring.
start-InTurn :
    (n k : ℕ) (r : RingRelayAddressGenerator)
    → r.ring ≡ []
    → r.current_index ≡ 0
    → 0 < n
    → InTurn n k 0 (initialised (count_up n k) r)
unfolding initialised
start-InTurn n k r e z pos = record {
  ports =
      if_cases (λ (x : RingRelayAddressGenerator). ports_of x.ring ≡ count_up n k) (is_empty r.ring)
        (λ _. ports_of-new_nodes (count_up n k)) (λ q. absurd (cc (q, ap is_empty e)));
  index =
      if_cases (λ (x : RingRelayAddressGenerator). x.current_index ≡ 0 % n) (is_empty r.ring)
        (λ _. z ∙ sym (zero-mod n)) (λ _. z ∙ sym (zero-mod n));
}

initialised-initialised :
    (ports : List ℕ) (r : RingRelayAddressGenerator)
    → initialised ports (initialised ports r) ≡ initialised ports r
unfolding initialised new_nodes
initialised-initialised [] r =
    if_cases
      (λ (x : RingRelayAddressGenerator).
        (if is_empty x.ring then record x { ring = [] } else x) ≡ x)
      (is_empty r.ring) (λ _. refl) (λ q. rw q refl)
initialised-initialised (p ∷ ports) r =
    if_cases
      (λ (x : RingRelayAddressGenerator).
        (if is_empty x.ring then record x { ring = new_nodes (p ∷ ports) } else x) ≡ x)
      (is_empty r.ring) (λ _. refl) (λ q. rw q refl)

-- A first call is a call in the ring that it makes.
first_call :
    (ports : List ℕ) (b : Bool) (r : RingRelayAddressGenerator)
    → allocate_packet_conn ports "udp" b r
      ≡ allocate_packet_conn ports "udp" b (initialised ports r)
unfolding allocate_packet_conn is_udp
first_call ports b r = rw (initialised-initialised ports r) refl

go_round :
    (min_port max_port : ℕ) (bs : List Bool) (b has_relay_ip : Bool)
    → min_port ≤ max_port
    → port_of
        (allocate_packet_conn (count_up (max_port - min_port + 1) min_port) "udp" b (
          allocate_all
            (count_up (max_port - min_port + 1) min_port)
            bs
            (new_generator has_relay_ip min_port max_port))).1
      ≡ some (min_port + length bs % (max_port - min_port + 1))
unfolding allocate_all new_generator
go_round min_port max_port bs b ip le = by_calls bs
  where
    n : ℕ
    n = max_port - min_port + 1

    ports : List ℕ
    ports = count_up n min_port

    r : RingRelayAddressGenerator
    r = new_generator ip min_port max_port

    made : InTurn n min_port 0 (initialised ports r)
    made = start-InTurn n min_port r refl refl (omega arith)

    by_calls :
        (l : List Bool)
        → port_of (allocate_packet_conn ports "udp" b (allocate_all ports l r)).1
          ≡ some (min_port + length l % n)
    by_calls [] =
        ap (λ (a : RingRelayAddressGenerator × Allocated). port_of a.1) (first_call ports b r)
        ∙ (allocate-turn ports b n min_port 0 (initialised ports r) (omega arith) made).0
    by_calls (c ∷ l) =
        let second : InTurn n min_port 1 (allocate_packet_conn ports "udp" c r).0 =
          subst (λ (a : RingRelayAddressGenerator × Allocated). InTurn n min_port 1 a.0)
            (sym (first_call ports c r))
            (allocate-turn ports c n min_port 0 (initialised ports r) (omega arith) made).1 in
        (allocate-turn ports b n min_port (suc (length l))
          (allocate_all ports l (allocate_packet_conn ports "udp" c r).0) (omega arith)
          (subst
            (λ (u : ℕ).
              InTurn n min_port u (allocate_all ports l (allocate_packet_conn ports "udp" c r).0))
            (omega arith) (allocate_all-turn ports l n min_port 1 _ (omega arith) second))).0

-- What the loop has come to, if it has ended.
ends_with :
    (min_port max_port fuel : ℕ) (ports : List ℕ)
    → min_port ≤ max_port
    → max_port ≤ 65535
    → max_port - min_port + 1 < fuel
    → ring_loop fuel min_port max_port ≡ some ports
    → ports ≡ count_up (max_port - min_port + 1) min_port
ends_with min_port max_port fuel ports le small enough e =
    let q : (if ltb max_port 65535
          then some (count_up (max_port - min_port + 1) min_port)
          else none)
        ≡ some ports =
      sym (port_loop min_port max_port fuel le small enough) ∙ e in
    if_cases
      (λ (o : Option (List ℕ)).
        o ≡ some ports → ports ≡ count_up (max_port - min_port + 1) min_port)
      (ltb max_port 65535) (λ _ h. cc) (λ _ h. cc) q

-- Where the loop over a range of ports ends, the allocations of UDP go round its ports in their
-- order: whatever the system answered to the calls before, the call after length bs calls is about
-- the port that many places after the first, counted round the range.
pub allocate_goes_round :
    (min_port max_port fuel : ℕ) (ports : List ℕ) (bs : List Bool) (b has_relay_ip : Bool)
    → min_port ≤ max_port
    → max_port ≤ 65535
    → max_port - min_port + 1 < fuel
    → ring_loop fuel min_port max_port ≡ some ports
    → port_of
        (allocate_packet_conn ports "udp" b
          (allocate_all ports bs (new_generator has_relay_ip min_port max_port))).1
      ≡ some (min_port + length bs % (max_port - min_port + 1))
allocate_goes_round min_port max_port fuel ports bs b ip le small enough e =
    rw (ends_with min_port max_port fuel ports le small enough e)
      (go_round min_port max_port bs b ip le)
