-- ===== src/RelayRing/Shutdown.antt =====
-- When the shutdown of the ring returns.
use p2pt_server.Prelude.{
  ℕ, Bool, true, false, ◌&&◌, none, List, [], ◌∷◌, ◌≡◌, refl, arith, is_some, is_empty,
}
use p2pt_server.RelayRing.{RingPortNode, guarded, close_virtual, unregister_virtual, and_then}
use p2pt_server.RelayRing.Wiring.{IsWired}
use p2pt_server.RelayRing.Conns.{has_conn}
use p2pt_server.RelayRing.Generator.{
  RingRelayAddressGenerator, close_all, close_node, close_nodes, close_generator,
}

unfoldable pub all_idle : List RingPortNode → Bool
all_idle [] = true
all_idle (n ∷ l) = is_empty n.active_conns && all_idle l

unfoldable pub AllWired : List RingPortNode → Type 0
AllWired [] = Unit
AllWired (n ∷ l) = IsWired n × AllWired l

-- An open connection asks for the mutex that the caller holds.
close_virtual-locked :
    (v : ℕ) (n : RingPortNode)
    → n.locked ≡ true
    → (n.virtuals v).closed ≡ false
    → close_virtual v n ≡ none
unfolding close_virtual unregister_virtual guarded
close_virtual-locked v n l o = ground (arith, l, o)

close_all-locked :
    (l : List ℕ) (n : RingPortNode)
    → n.locked ≡ true
    → ((v : ℕ) → has_conn v l ≡ true → (n.virtuals v).closed ≡ false)
    → is_some (close_all l n) ≡ is_empty l
unfolding close_all and_then
close_all-locked [] n k o = refl
close_all-locked (v ∷ l) n k o = rw (close_virtual-locked v n k (o v (ground arith))) refl

close_node-idle : (n : RingPortNode) → IsWired n → is_some (close_node n) ≡ is_empty n.active_conns
unfolding close_node and_then
close_node-idle n w =
    let held : RingPortNode = record n { locked = true; closed = true } in
    let is_open : (v : ℕ) → has_conn v n.active_conns ≡ true → (n.virtuals v).closed ≡ false =
      λ v h. ground (arith, h, w.listed v) in
    ground (arith, w.unlocked, close_all-locked n.active_conns held refl is_open)

close_nodes-idle : (l : List RingPortNode) → AllWired l → is_some (close_nodes l) ≡ all_idle l
unfolding close_nodes all_idle AllWired
close_nodes-idle [] w = refl
close_nodes-idle (n ∷ l) w = ground (arith, close_node-idle n w.0, close_nodes-idle l w.1)

-- The shutdown of a ring of wired ports returns exactly if no allocation is open at any port; if
-- one is, it waits for ever.
pub close_generator-idle :
    (r : RingRelayAddressGenerator)
    → AllWired r.ring
    → is_some (close_generator r) ≡ all_idle r.ring
unfolding close_generator
close_generator-idle r w = ground (arith, close_nodes-idle r.ring w)
