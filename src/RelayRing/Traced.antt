-- ===== src/RelayRing/Traced.antt =====
-- What the threads of a port keep, by the access: all but those of `Close`.
use p2pt_server.GoMap.{GoMap, get, put, IsUnique}
use p2pt_server.GoMap.Laws.{get-put, put-IsUnique}
use p2pt_server.Net.{extract_ip}
use p2pt_server.Prelude.{
  ℕ, ◌≤◌, String, Bool, true, false≢true, ◌||◌, not, Option, none, some, List, [], ◌∷◌, ◌++◌, ◌==◌,
  ◌≡◌, refl, ap, sym, ◌∙◌, arith, eqb, ltb, length, if_cases, if◌then◌else◌, Bool-cases, inl, inr,
}
use p2pt_server.RelayRing.{
  InboundPacket, VirtualPacketConn, RingPortNode, capacity, new_node, update, last, latest,
  add_route, attach, read_from, permit,
}
use p2pt_server.RelayRing.Conns.{has_conn, has_conn-append, append-IsDistinct}
use p2pt_server.RelayRing.Wiring.{closed-update, inbound-update, length-append-one, last-has_conn}
use p2pt_server.RelayRing.Threads.{
  Port, new_port, routes, permits, queues, reads, queue, move, IsTraced,
}

pub new_port-IsTraced : (port : ℕ) → IsTraced (new_port port)
unfolding new_port new_node get
new_port-IsTraced port = record {
  unique = tt;
  listed = λ v. refl;
  routed = λ k v h. absurd (cc h);
  fresh = λ v h. refl;
  shut = λ v h. refl;
  given = λ v h. refl;
  distinct = tt;
  once = tt;
  buffered = λ v. omega arith;
}

-- A new route leads to a connection of the kind that all others lead to.
put-leads :
    (P : ℕ → Bool) (i : String) (w : ℕ) (m : GoMap ℕ)
    → P w ≡ true
    → ((k : String) (v : ℕ) → get k m ≡ some v → P v ≡ true)
    → (k : String) (v : ℕ) → get k (put i w m) ≡ some v
    → P v ≡ true
put-leads P i w m o r k v h = elim (Bool-cases (i == k)) [
  | inl e ↦ let same : w ≡ v = ground (arith, e, h, get-put k i w m) in sym (ap P same) ∙ o
  | inr e ↦ r k v (ground (arith, e, h, get-put k i w m))
]

-- A connection is changed, and stays open or closed as it is, its buffer within bounds.
update-IsTraced :
    (v : ℕ) (x : VirtualPacketConn) (p : Port)
    → x.closed ≡ (p.node.virtuals v).closed
    → length x.inbound ≤ capacity
    → IsTraced p
    → IsTraced (record p { node = record p.node { virtuals = update v x p.node.virtuals } })
update-IsTraced v x p c l w = record {
  unique = w.unique;
  listed = λ u. rw (closed-update v x p.node.virtuals u c) (w.listed u);
  routed = w.routed;
  fresh = λ u h. closed-update v x p.node.virtuals u c ∙ w.fresh u h;
  shut = λ u h. closed-update v x p.node.virtuals u c ∙ w.shut u h;
  given = w.given;
  distinct = w.distinct;
  once = w.once;
  buffered = λ u. inbound-update v x p.node.virtuals u l (w.buffered u);
}

pub attach-IsTraced : (p : Port) → IsTraced p → IsTraced (record p { node = attach p.node })
unfolding attach update
attach-IsTraced p w = record {
  unique = w.unique;
  listed = λ v.
      has_conn-append v p.node.made p.node.active_conns
      ∙ if_cases
          (λ (y : VirtualPacketConn).
            (has_conn v p.node.active_conns || eqb p.node.made v)
            ≡ (not y.closed || has_conn v p.closing))
          (eqb p.node.made v) (λ e. ground (arith, e)) (λ e. ground (arith, e, w.listed v));
  routed =
      λ k v h. ground (arith, has_conn-append v p.node.made p.node.active_conns, w.routed k v h);
  fresh = λ v h. ground (arith, w.fresh v);
  shut = λ v h.
      if_cases (λ (y : VirtualPacketConn). y.closed ≡ true) (eqb p.node.made v)
        (λ e. absurd (false≢true (sym (w.given v (ground arith)) ∙ h))) (λ _. w.shut v h);
  given = λ v h. w.given v (omega arith);
  distinct =
      append-IsDistinct p.node.made p.node.active_conns w.distinct
        (ground (arith, w.listed p.node.made, w.fresh p.node.made, w.given p.node.made));
  once = w.once;
  buffered = λ v.
      if_cases (λ (y : VirtualPacketConn). length y.inbound ≤ capacity) (eqb p.node.made v)
        (λ _. omega arith) (λ _. w.buffered v);
}

pub routes-IsTraced :
    (v : ℕ) (addr : String) (p : Port) → IsTraced p → IsTraced (move (routes v addr) p)
unfolding move add_route
routes-IsTraced v addr p w =
    if_cases IsTraced (addr == "") (λ _. w)
      (λ _. record {
        unique =
            if_cases IsUnique (extract_ip addr == "")
              (λ _. put-IsUnique addr v p.node.routes w.unique)
              (λ _.
                put-IsUnique (extract_ip addr) v _ (put-IsUnique addr v p.node.routes w.unique));
        listed = w.listed;
        routed =
            if_cases (λ (m : GoMap ℕ). (k : String) (x : ℕ) → get k m ≡ some x → leads x ≡ true)
              (extract_ip addr == "") (λ _. put-leads leads addr v p.node.routes this others)
              (λ _.
                put-leads leads (extract_ip addr) v _ this
                  (put-leads leads addr v p.node.routes this others));
        fresh = w.fresh;
        shut = w.shut;
        given = w.given;
        distinct = w.distinct;
        once = w.once;
        buffered = w.buffered;
      })
  where
    late : List ℕ
    late = if (p.node.virtuals v).closed then v ∷ p.late else p.late

    leads : ℕ → Bool
    leads x = has_conn x p.node.active_conns || has_conn x late

    this : leads v ≡ true
    this = elim (Bool-cases (p.node.virtuals v).closed) [
      | inl y ↦ rw y (ground arith)
      | inr n ↦ rw n (ground (arith, w.listed v))
    ]

    others : (k : String) (x : ℕ) → get k p.node.routes ≡ some x → leads x ≡ true
    others k x h = elim (Bool-cases (p.node.virtuals v).closed) [
      | inl y ↦ rw y (ground (arith, w.routed k x h))
      | inr n ↦ rw n (w.routed k x h)
    ]

pub permits-IsTraced : (ip : String) (p : Port) → IsTraced p → IsTraced (move (permits ip) p)
unfolding move permit latest
permits-IsTraced ip p w =
    if_cases IsTraced (ip == "") (λ _. w)
      (λ _. by_latest (last p.node.active_conns) (last-has_conn p.node.active_conns))
  where
    leads : ℕ → Bool
    leads x = has_conn x p.node.active_conns || has_conn x p.late

    by_latest :
        (o : Option ℕ)
        → ((v : ℕ) → o ≡ some v → has_conn v p.node.active_conns ≡ true)
        → IsTraced (record p {
          node = elim o as (λ _. RingPortNode) [
            | none ↦ p.node
            | some v ↦ record p.node { routes = put ip v p.node.routes }
          ];
        })
    by_latest none f = w
    by_latest (some v) f = record {
      unique = put-IsUnique ip v p.node.routes w.unique;
      listed = w.listed;
      routed = put-leads leads ip v p.node.routes (ground (arith, f v refl)) w.routed;
      fresh = w.fresh;
      shut = w.shut;
      given = w.given;
      distinct = w.distinct;
      once = w.once;
      buffered = w.buffered;
    }

pub queues-IsTraced :
    (pkt : InboundPacket) (v : ℕ) (p : Port) → IsTraced p → IsTraced (move (queues pkt v) p)
unfolding move queue
queues-IsTraced pkt v p w =
    let x = p.node.virtuals v in
    let queued : VirtualPacketConn = record x { inbound = x.inbound ++ (pkt ∷ []) } in
    if_cases (λ (n : RingPortNode). IsTraced (record p { node = n }))
      (ltb (length x.inbound) capacity)
      (λ e. update-IsTraced v queued p refl (ground (arith, e, length-append-one x.inbound pkt)) w)
      (λ _. w)

pub reads-IsTraced : (v : ℕ) (p : Port) → IsTraced p → IsTraced (move (reads v) p)
unfolding move read_from
reads-IsTraced v p w = by_inbound (p.node.virtuals v).inbound (w.buffered v)
  where
    by_inbound :
        (l : List InboundPacket)
        → length l ≤ capacity
        → IsTraced (record p {
          node =
              (elim l as (λ _. RingPortNode × Option InboundPacket) [
                | [] ↦ (p.node, none)
                | pkt ∷ rest ↦ (
                  record p.node {
                    virtuals =
                        update v (record (p.node.virtuals v) { inbound = rest }) p.node.virtuals;
                  },
                  some pkt,
                )
              ]).0;
        })
    by_inbound [] l = w
    by_inbound (pkt ∷ rest) l = update-IsTraced v _ p refl (omega (arith, l)) w
