-- ===== src/RelayRing/Progress.antt =====
-- Operations on a node, each from its beginning to its end before the next one.
use p2pt_server.Prelude.{
  ℕ, String, Bool, false, Option, none, some, ◌==◌, ◌≡◌, if_cases, if◌then◌else◌,
}
use p2pt_server.RelayRing.{
  RingPortNode, guarded, add_route, register_route, drop_virtual, unregister_virtual, attach,
  Written, with_bytes, node_of, write_to, close_virtual, receive, permit, Event, allocated, wrote,
  permitted, received, read, ended, step, and_then,
}
use p2pt_server.RelayRing.Wiring.{
  IsWired, add_route-IsWired, receive-IsWired, read-IsWired, permit-IsWired, attach-IsWired,
  close-IsWired,
}

-- The operation returns, and leaves a wired node.
unfoldable pub Returns : (RingPortNode → Type 0) → Option RingPortNode → Type 0
Returns P none = ⊥
Returns P (some n) = P n

unlocked-Returns :
    (o : Option RingPortNode) (b : Bool)
    → b ≡ false
    → Returns IsWired o
    → Returns IsWired (if b then none else o)
unlocked-Returns o b l r = if_cases (Returns IsWired) b (λ e. absurd (cc (e, l))) (λ _. r)

guarded-Returns :
    (f : RingPortNode → RingPortNode) (n : RingPortNode)
    → n.locked ≡ false
    → IsWired (f n)
    → Returns IsWired (guarded f n)
unfolding guarded Returns
guarded-Returns f n l w = unlocked-Returns (some (f n)) n.locked l w

register_route-Returns :
    (addr : String) (v : ℕ) (n : RingPortNode)
    → (n.virtuals v).closed ≡ false
    → IsWired n
    → Returns IsWired (register_route addr v n)
unfolding register_route Returns
register_route-Returns addr v n o w =
    if_cases (Returns IsWired) (addr == "") (λ _. w)
      (λ _. guarded-Returns (add_route addr v) n w.unlocked (add_route-IsWired addr v n o w))

with_bytes-Returns :
    (taken : ℕ) (o : Option RingPortNode)
    → Returns IsWired o
    → Returns IsWired (node_of (with_bytes taken o))
unfolding node_of with_bytes Returns
with_bytes-Returns taken none r = elim r [ ]
with_bytes-Returns taken (some n) r = r

write_to-Returns :
    (v : ℕ) (addr : String) (taken : ℕ) (n : RingPortNode)
    → IsWired n
    → Returns IsWired (node_of (write_to v addr taken n))
unfolding write_to node_of Returns
write_to-Returns v addr taken n w =
    if_cases (λ (o : Option (RingPortNode × Written)). Returns IsWired (node_of o))
      (n.virtuals v).closed (λ _. w)
      (λ o.
        with_bytes-Returns taken (register_route addr v n) (register_route-Returns addr v n o w))

-- An operation on a wired node, if it begins when nobody holds the mutex and nothing else is done at
-- the node until it ends, does end, and leaves the node wired.
pub step-Returns : (e : Event) (n : RingPortNode) → IsWired n → Returns IsWired (step e n)
unfolding step Returns close_virtual unregister_virtual
step-Returns allocated n w = guarded-Returns attach n w.unlocked (attach-IsWired n w)
step-Returns (wrote v addr taken) n w = write_to-Returns v addr taken n w
step-Returns (permitted ip) n w =
    if_cases (Returns IsWired) (ip == "") (λ _. w)
      (λ _. guarded-Returns (permit ip) n w.unlocked (permit-IsWired ip n w))
step-Returns (received pkt) n w =
    unlocked-Returns (some (receive pkt n).0) n.locked w.unlocked (receive-IsWired pkt n w)
step-Returns (read v) n w = read-IsWired v n w
step-Returns (ended v) n w =
    if_cases (Returns IsWired) (n.virtuals v).closed (λ _. w)
      (λ _. guarded-Returns (drop_virtual v) _ w.unlocked (close-IsWired v n w))

pub and_then-Returns :
    (P Q : RingPortNode → Type 0) (f : RingPortNode → Option RingPortNode) (o : Option RingPortNode)
    → ((n : RingPortNode) → P n → Returns Q (f n))
    → Returns P o
    → Returns Q (and_then f o)
unfolding and_then Returns
and_then-Returns P Q f none k r = elim r [ ]
and_then-Returns P Q f (some n) k r = k n r
