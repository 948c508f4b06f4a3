-- ===== src/RelayRing/Closing.antt =====
-- What the threads of a port keep: the two accesses of `Close`, and all in any order.
use p2pt_server.GoMap.{GoMap, get, keep, IsUnique}
use p2pt_server.GoMap.Laws.{get-keep, keep-IsUnique}
use p2pt_server.Prelude.{
  ℕ, ◌≤◌, String, true, false, false≢true, ◌||◌, not, some, List, [], ◌∷◌, ◌≡◌, refl, ap, sym, ◌∙◌,
  arith, eqb, length, if_cases, Bool-cases, Option-cases, inl, inr,
}
use p2pt_server.RelayRing.{VirtualPacketConn, capacity, update, remove_first, drop_virtual}
use p2pt_server.RelayRing.Conns.{has_conn, has_conn-remove_first, remove_first-IsDistinct}
use p2pt_server.RelayRing.Wiring.{eqb→eq}
use p2pt_server.RelayRing.Threads.{
  Port, new_port, Move, attaches, routes, permits, queues, reads, flags, unregisters, flag, move,
  move_all, IsTraced,
}
use p2pt_server.RelayRing.Traced.{
  new_port-IsTraced, attach-IsTraced, routes-IsTraced, permits-IsTraced, queues-IsTraced,
  reads-IsTraced,
}

flagged-IsTraced :
    (v : ℕ) (p : Port)
    → (p.node.virtuals v).closed ≡ false
    → IsTraced p
    → IsTraced (record p { node = flag v p.node; closing = v ∷ p.closing })
unfolding flag update
flagged-IsTraced v p o w = record {
  unique = w.unique;
  listed = λ u.
      if_cases
        (λ (y : VirtualPacketConn).
          has_conn u p.node.active_conns ≡ (not y.closed || (eqb v u || has_conn u p.closing)))
        (eqb v u)
        (λ e.
          ap (λ (x : ℕ). has_conn x p.node.active_conns) (sym (eqb→eq v u e))
          ∙ ground (arith, e, o, w.listed v))
        (λ e. ground (arith, e, w.listed u));
  routed = w.routed;
  fresh = λ u h.
      if_cases (λ (y : VirtualPacketConn). y.closed ≡ true) (eqb v u) (λ _. refl)
        (λ _. w.fresh u h);
  shut = λ u h.
      if_cases (λ (y : VirtualPacketConn). y.closed ≡ true) (eqb v u) (λ _. refl)
        (λ e. w.shut u (ground (arith, e, h)));
  given = λ u h. elim (Bool-cases (eqb v u)) [
    | inl e ↦ absurd (
        false≢true
          (sym o ∙ (ap (λ (x : ℕ). (p.node.virtuals x).closed) (eqb→eq v u e) ∙ w.fresh u h)))
    | inr e ↦ ground (arith, e, w.given u h)
  ];
  distinct = w.distinct;
  once = (ground (arith, w.shut v, o), w.once);
  buffered = λ u.
      if_cases (λ (y : VirtualPacketConn). length y.inbound ≤ capacity) (eqb v u)
        (λ _. w.buffered v) (λ _. w.buffered u);
}

flags-IsTraced : (v : ℕ) (p : Port) → IsTraced p → IsTraced (move (flags v) p)
unfolding move
flags-IsTraced v p w =
    if_cases IsTraced (p.node.virtuals v).closed (λ _. w) (λ o. flagged-IsTraced v p o w)

-- A route that is left leads elsewhere.
kept_route :
    (k : String) (u v : ℕ) (m : GoMap ℕ)
    → IsUnique m
    → get k (keep (λ k target. not (eqb target v)) m) ≡ some u
    → (get k m ≡ some u) × (eqb v u ≡ false)
kept_route k u v m q h =
    let left = get-keep k (λ (k : String) (target : ℕ). not (eqb target v)) m q in
    elim (Option-cases (get k m)) [
      | inl e ↦ absurd (ground (arith, e, h, left))
      | inr (x, e) ↦ ground (arith, e, h, left)
    ]

unregistered-IsTraced :
    (v : ℕ) (p : Port)
    → has_conn v p.closing ≡ true
    → IsTraced p
    → IsTraced (record p { node = drop_virtual v p.node; closing = remove_first v p.closing })
unfolding drop_virtual
unregistered-IsTraced v p c w = record {
  unique = keep-IsUnique (λ k target. not (eqb target v)) p.node.routes w.unique;
  listed = λ u.
      rw
        (
          has_conn-remove_first u v p.node.active_conns w.distinct,
          has_conn-remove_first u v p.closing w.once,
        )
        (elim (Bool-cases (eqb v u)) [
          | inl e ↦
              let closed : (p.node.virtuals u).closed ≡ true =
                ap (λ (x : ℕ). (p.node.virtuals x).closed) (sym (eqb→eq v u e)) ∙ w.shut v c in
              ground (arith, e, closed)
          | inr e ↦ ground (arith, e, w.listed u)
        ]);
  routed = λ k u h.
      let (was, other) = kept_route k u v p.node.routes w.unique h in
      rw (has_conn-remove_first u v p.node.active_conns w.distinct, other)
        (ground (arith, w.routed k u was));
  fresh = w.fresh;
  shut = λ u h. w.shut u (ground (arith, has_conn-remove_first u v p.closing w.once, h));
  given = λ u h. ground (arith, has_conn-remove_first u v p.closing w.once, w.given u h);
  distinct = remove_first-IsDistinct v p.node.active_conns w.distinct;
  once = remove_first-IsDistinct v p.closing w.once;
  buffered = w.buffered;
}

move-IsTraced : (e : Move) (p : Port) → IsTraced p → IsTraced (move e p)
unfolding move
move-IsTraced attaches p w = attach-IsTraced p w
move-IsTraced (routes v addr) p w = routes-IsTraced v addr p w
move-IsTraced (permits ip) p w = permits-IsTraced ip p w
move-IsTraced (queues pkt v) p w = queues-IsTraced pkt v p w
move-IsTraced (reads v) p w = reads-IsTraced v p w
move-IsTraced (flags v) p w = flags-IsTraced v p w
move-IsTraced (unregisters v) p w =
    if_cases IsTraced (has_conn v p.closing) (λ c. unregistered-IsTraced v p c w) (λ _. w)

move_all-IsTraced : (es : List Move) (p : Port) → IsTraced p → IsTraced (move_all es p)
unfolding move_all
move_all-IsTraced [] p w = w
move_all-IsTraced (e ∷ es) p w = move_all-IsTraced es (move e p) (move-IsTraced e p w)

-- At a new port of the relay, while it is not shut down and the program runs, allocations,
-- writes, permissions, packets, reads and closings do one access to it at a time, in whatever
-- order: the active connections are then those that are open or being closed, each once; a route
-- leads to one of these, or to one for which a write noted a route after it was flagged as
-- closed; and no buffer is over its capacity.
pub move_all-new_port : (es : List Move) (port : ℕ) → IsTraced (move_all es (new_port port))
move_all-new_port es port = move_all-IsTraced es (new_port port) (new_port-IsTraced port)
