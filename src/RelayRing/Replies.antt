-- ===== src/RelayRing/Replies.antt =====
-- To whom the packets of a remote address are given.
use p2pt_server.Prelude.{
  ℕ, String, Bool, false, not, Option, none, some, List, [], ◌∷◌, ◌++◌, ◌==◌, ◌≡◌, ◌≢◌, ◌⊎◌, refl,
  ap, ◌∙◌, arith, eq_refl, ==_ne, eqb, ltb, length, if_cases, Bool-cases, Option-cases, inl, inr,
  if◌then◌else◌,
}
use p2pt_server.GoMap.{get, put, IsUnique}
use p2pt_server.GoMap.Laws.{get-put, get-keep}
use p2pt_server.Net.{extract_ip}
use p2pt_server.RelayRing.{
  InboundPacket, RingPortNode, capacity, update, guarded, latest, otherwise, find_target, add_route,
  register_route, drop_virtual, unregister_virtual, attach, Written, with_bytes, node_of, write_to,
  close_virtual, deliver, receive, read_from, permit, Event, allocated, wrote, permitted, received,
  read, ended, step, run,
}
use p2pt_server.RelayRing.Wiring.{IsWired}
use p2pt_server.RelayRing.Progress.{Returns, step-Returns, and_then-Returns}

-- What leaves the route of an address to `v` alone: no other connection writes to it, no permission is
-- given for it, and `v` is not closed. An address that is written to also gives a route to its host.
unfoldable pub Spares : ℕ → String → Event → Type 0
Spares v addr (wrote w a taken) = (w ≡ v) ⊎ ((a ≢ addr) × (extract_ip a ≢ addr))
Spares v addr (permitted ip) = ip ≢ addr
Spares v addr (ended w) = w ≢ v
Spares v addr _ = Unit

unfoldable pub AllSpare : ℕ → String → List Event → Type 0
AllSpare v addr [] = Unit
AllSpare v addr (e ∷ es) = Spares v addr e × AllSpare v addr es

record Held (v : ℕ) (addr : String) (n : RingPortNode) : Type 0 where
  wired : IsWired n
  route : get addr n.routes ≡ some v

-- The route after an operation that returns.
HasRoute : ℕ → String → Option RingPortNode → Type 0
HasRoute v addr none = Unit
HasRoute v addr (some n) = get addr n.routes ≡ some v

guarded-HasRoute :
    (v : ℕ) (addr : String) (f : RingPortNode → RingPortNode) (n : RingPortNode)
    → get addr (f n).routes ≡ some v
    → HasRoute v addr (guarded f n)
unfolding guarded HasRoute
guarded-HasRoute v addr f n h = if_cases (HasRoute v addr) n.locked (λ _. tt) (λ _. h)

add_route-other :
    (w : ℕ) (a addr : String) (n : RingPortNode)
    → a ≢ addr
    → extract_ip a ≢ addr
    → get addr (add_route a w n).routes ≡ get addr n.routes
unfolding add_route
add_route-other w a addr n p q = ground (
  arith,
  get-put addr a w n.routes,
  get-put addr (extract_ip a) w (put a w n.routes),
  ==_ne a addr p,
  ==_ne (extract_ip a) addr q,
)

add_route-same :
    (v : ℕ) (a addr : String) (n : RingPortNode)
    → get addr n.routes ≡ some v
    → get addr (add_route a v n).routes ≡ some v
unfolding add_route
add_route-same v a addr n h =
    ground (arith, h, get-put addr a v n.routes, get-put addr (extract_ip a) v (put a v n.routes))

add_route-own :
    (v : ℕ) (addr : String) (n : RingPortNode) → get addr (add_route addr v n).routes ≡ some v
unfolding add_route
add_route-own v addr n = ground (
  arith,
  eq_refl addr,
  get-put addr addr v n.routes,
  get-put addr (extract_ip addr) v (put addr v n.routes),
)

route-HasRoute :
    (w v : ℕ) (a addr : String) (n : RingPortNode)
    → get addr n.routes ≡ some v
    → get addr (add_route a w n).routes ≡ some v
    → HasRoute v addr (register_route a w n)
unfolding register_route HasRoute
route-HasRoute w v a addr n h r =
    if_cases (HasRoute v addr) (a == "") (λ _. h) (λ _. guarded-HasRoute v addr (add_route a w) n r)

with_bytes-HasRoute :
    (v taken : ℕ) (addr : String) (o : Option RingPortNode)
    → HasRoute v addr o
    → HasRoute v addr (node_of (with_bytes taken o))
unfolding node_of with_bytes HasRoute
with_bytes-HasRoute v taken addr none h = tt
with_bytes-HasRoute v taken addr (some n) h = h

write-HasRoute :
    (w v taken : ℕ) (a addr : String) (n : RingPortNode)
    → get addr n.routes ≡ some v
    → get addr (add_route a w n).routes ≡ some v
    → HasRoute v addr (node_of (write_to w a taken n))
unfolding write_to node_of HasRoute
write-HasRoute w v taken a addr n h r =
    if_cases (λ (o : Option (RingPortNode × Written)). HasRoute v addr (node_of o))
      (n.virtuals w).closed (λ _. h)
      (λ _.
        with_bytes-HasRoute v taken addr (register_route a w n) (route-HasRoute w v a addr n h r))

permit-HasRoute :
    (v : ℕ) (ip addr : String) (n : RingPortNode)
    → ip ≢ addr
    → get addr n.routes ≡ some v
    → get addr (permit ip n).routes ≡ some v
unfolding permit
permit-HasRoute v ip addr n p h = elim (Option-cases (latest n)) [
  | inl e ↦ ground (arith, e, h)
  | inr (w, e) ↦ ground (arith, e, h, get-put addr ip w n.routes, ==_ne ip addr p)
]

deliver-routes :
    (pkt : InboundPacket) (w : ℕ) (n : RingPortNode) → (deliver pkt w n).0.routes ≡ n.routes
unfolding deliver
deliver-routes pkt w n =
    if_cases (λ (r : RingPortNode × Bool). r.0.routes ≡ n.routes) _ (λ _. refl) (λ _. refl)

receive-routes : (pkt : InboundPacket) (n : RingPortNode) → (receive pkt n).0.routes ≡ n.routes
unfolding receive
receive-routes pkt n = elim (Option-cases (find_target pkt.addr n)) [
  | inl e ↦ ground (arith, e)
  | inr (w, e) ↦ ground (arith, e, deliver-routes pkt w n)
]

read-routes : (w : ℕ) (n : RingPortNode) → (read_from w n).0.routes ≡ n.routes
unfolding read_from
read-routes w n = ground arith

drop-HasRoute :
    (w v : ℕ) (addr : String) (n : RingPortNode)
    → IsUnique n.routes
    → w ≢ v
    → get addr n.routes ≡ some v
    → get addr (drop_virtual w n).routes ≡ some v
unfolding drop_virtual
drop-HasRoute w v addr n u p h =
    ground (arith, h, get-keep addr (λ (k : String) (target : ℕ). not (eqb target w)) n.routes u)

step-HasRoute :
    (v : ℕ) (addr : String) (e : Event) (n : RingPortNode)
    → Spares v addr e
    → Held v addr n
    → HasRoute v addr (step e n)
unfolding step Spares HasRoute attach close_virtual unregister_virtual
step-HasRoute v addr allocated n s h = guarded-HasRoute v addr attach n h.route
step-HasRoute v addr (wrote w a taken) n (inl e) h =
    rw e (write-HasRoute v v taken a addr n h.route (add_route-same v a addr n h.route))
step-HasRoute v addr (wrote w a taken) n (inr (p, q)) h =
    write-HasRoute w v taken a addr n h.route (add_route-other w a addr n p q ∙ h.route)
step-HasRoute v addr (permitted ip) n s h =
    if_cases (HasRoute v addr) (ip == "") (λ _. h.route)
      (λ _. guarded-HasRoute v addr (permit ip) n (permit-HasRoute v ip addr n s h.route))
step-HasRoute v addr (received pkt) n s h =
    if_cases (HasRoute v addr) n.locked (λ _. tt)
      (λ _. ap (get addr) (receive-routes pkt n) ∙ h.route)
step-HasRoute v addr (read w) n s h = ap (get addr) (read-routes w n) ∙ h.route
step-HasRoute v addr (ended w) n s h =
    if_cases (HasRoute v addr) (n.virtuals w).closed (λ _. h.route)
      (λ _.
        guarded-HasRoute v addr (drop_virtual w) _
          (drop-HasRoute w v addr _ h.wired.unique s h.route))

both :
    (v : ℕ) (addr : String) (o : Option RingPortNode)
    → Returns IsWired o
    → HasRoute v addr o
    → Returns (Held v addr) o
unfolding Returns HasRoute
both v addr none w r = w
both v addr (some n) w r = record { wired = w; route = r }

run-Held :
    (v : ℕ) (addr : String) (es : List Event) (n : RingPortNode)
    → AllSpare v addr es
    → Held v addr n
    → Returns (Held v addr) (run es n)
unfolding run AllSpare Returns
run-Held v addr [] n s h = h
run-Held v addr (e ∷ es) n s h =
    and_then-Returns (Held v addr) (Held v addr) (run es) (step e n)
      (λ n' h'. run-Held v addr es n' s.1 h')
      (both v addr (step e n) (step-Returns e n h.wired) (step-HasRoute v addr e n s.0 h))

-- The next packet from the address is the connection's: it is queued there, unless the buffer is full.
pub record ComesTo (v : ℕ) (addr : String) (n : RingPortNode) : Type 0 where
  pub found : find_target addr n ≡ some v
  pub queued :
      (payload : List ℕ)
      → ((receive (record { payload = payload; addr = addr }) n).0.virtuals v).inbound ≡ (
          if ltb (length (n.virtuals v).inbound) capacity
          then (n.virtuals v).inbound ++ (record { payload = payload; addr = addr } ∷ [])
          else (n.virtuals v).inbound)

deliver-inbound :
    (pkt : InboundPacket) (v : ℕ) (n : RingPortNode)
    → (n.virtuals v).closed ≡ false
    → ((deliver pkt v n).0.virtuals v).inbound ≡ (
        if ltb (length (n.virtuals v).inbound) capacity
        then (n.virtuals v).inbound ++ (pkt ∷ [])
        else (n.virtuals v).inbound)
unfolding deliver update
deliver-inbound pkt v n o = elim (Bool-cases (ltb (length (n.virtuals v).inbound) capacity)) [
  | inl e ↦ ground (arith, o, e)
  | inr e ↦ ground (arith, o, e)
]

receive-found :
    (pkt : InboundPacket) (v : ℕ) (n : RingPortNode)
    → find_target pkt.addr n ≡ some v
    → receive pkt n ≡ deliver pkt v n
unfolding receive
receive-found pkt v n h = rw (h, receive) refl

Held-ComesTo : (v : ℕ) (addr : String) (n : RingPortNode) → Held v addr n → ComesTo v addr n
unfolding find_target otherwise
Held-ComesTo v addr n h =
    let is_open : (n.virtuals v).closed ≡ false = h.wired.routed addr v h.route in
    let there : find_target addr n ≡ some v = ground (arith, h.route) in
    record {
      found = there;
      queued = λ payload.
          ap (λ (r : RingPortNode × Bool). (r.0.virtuals v).inbound)
            (receive-found (record { payload = payload; addr = addr }) v n there)
          ∙ deliver-inbound (record { payload = payload; addr = addr }) v n is_open;
    }

first-Held :
    (v taken : ℕ) (addr : String) (n : RingPortNode)
    → IsWired n
    → (n.virtuals v).closed ≡ false
    → addr ≢ ""
    → Returns (Held v addr) (step (wrote v addr taken) n)
unfolding step write_to node_of register_route
first-Held v taken addr n w o p = both v addr _ (step-Returns (wrote v addr taken) n w) (
    if_cases (λ (x : Option (RingPortNode × Written)). HasRoute v addr (node_of x))
      (n.virtuals v).closed (λ e. absurd (cc (e, o)))
      (λ _. with_bytes-HasRoute v taken addr (register_route addr v n) (
        if_cases (HasRoute v addr) (addr == "") (λ e. absurd (cc (e, ==_ne addr "" p)))
          (λ _. guarded-HasRoute v addr (add_route addr v) n (add_route-own v addr n)))))

Returns-map :
    (P Q : RingPortNode → Type 0) (o : Option RingPortNode)
    → ((n : RingPortNode) → P n → Q n)
    → Returns P o
    → Returns Q o
unfolding Returns
Returns-map P Q none f r = r
Returns-map P Q (some n) f r = f n r

-- When an open allocation at a wired port has written to an address that is not empty, what comes
-- from that address is given to it, whatever the other allocations at the port do, as long as it
-- stays open, no other one writes to that very address or to an address with that host, and no
-- permission is given for it.
reply_comes_back :
    (v taken : ℕ) (addr : String) (es : List Event) (n : RingPortNode)
    → IsWired n
    → (n.virtuals v).closed ≡ false
    → addr ≢ ""
    → AllSpare v addr es
    → Returns (ComesTo v addr) (run (wrote v addr taken ∷ es) n)
unfolding run
reply_comes_back v taken addr es n w o p s =
    and_then-Returns (Held v addr) (ComesTo v addr) (run es) (step (wrote v addr taken) n)
      (λ n' h.
        Returns-map (Held v addr) (ComesTo v addr) (run es n') (Held-ComesTo v addr)
          (run-Held v addr es n' s h))
      (first-Held v taken addr n w o p)
