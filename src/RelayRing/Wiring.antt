-- ===== src/RelayRing/Wiring.antt =====
-- What holds of a node at all times, and is kept by every operation.
use p2pt_server.Prelude.{
  ℕ, suc, ◌≤◌, String, Bool, true, false, ◌&&◌, ◌||◌, not, Option, none, some, List, [], ◌∷◌, ◌++◌,
  ◌==◌, ◌≡◌, refl, ap, sym, subst, ◌∙◌, arith, eqb, ltb, length, if_cases, Bool-cases, Option-cases,
  inl, inr,
}
use p2pt_server.GoMap.{GoMap, get, put, keep, IsUnique}
use p2pt_server.GoMap.Laws.{get-put, get-keep, put-IsUnique, keep-IsUnique}
use p2pt_server.Net.{extract_ip}
use p2pt_server.RelayRing.{
  InboundPacket, VirtualPacketConn, RingPortNode, capacity, new_node, update, last, latest,
  find_target, add_route, drop_virtual, attach, deliver, receive, read_from, permit,
}
use p2pt_server.RelayRing.Conns.{
  has_conn, IsDistinct, has_conn-append, append-IsDistinct, has_conn-remove_first,
  remove_first-IsDistinct,
}

-- Every route leads to an open connection, the active connections are the open ones, each once, no
-- buffer is over its capacity, no route is noted twice, and nobody holds the mutex.
pub record IsWired (n : RingPortNode) : Type 0 where
  pub unlocked : n.locked ≡ false
  pub unique : IsUnique n.routes
  pub routed : (k : String) (v : ℕ) → get k n.routes ≡ some v → (n.virtuals v).closed ≡ false
  pub listed : (v : ℕ) → has_conn v n.active_conns ≡ not (n.virtuals v).closed
  pub fresh : (v : ℕ) → n.made ≤ v → (n.virtuals v).closed ≡ true
  pub distinct : IsDistinct n.active_conns
  pub buffered : (v : ℕ) → length (n.virtuals v).inbound ≤ capacity

pub new_node-IsWired : (port : ℕ) → IsWired (new_node port)
unfolding new_node get
new_node-IsWired port = record {
  unlocked = refl;
  unique = tt;
  routed = λ k v h. absurd (cc h);
  listed = λ v. refl;
  fresh = λ v h. refl;
  distinct = tt;
  buffered = λ v. omega arith;
}

pub put-routed :
    (k0 : String) (v0 : ℕ) (m : GoMap ℕ) (f : ℕ → VirtualPacketConn)
    → (f v0).closed ≡ false
    → ((k : String) (v : ℕ) → get k m ≡ some v → (f v).closed ≡ false)
    → (k : String) (v : ℕ) → get k (put k0 v0 m) ≡ some v
    → (f v).closed ≡ false
put-routed k0 v0 m f o r k v h = elim (Bool-cases (k0 == k)) [
  | inl e ↦
      let same : v0 ≡ v = ground (arith, e, h, get-put k k0 v0 m) in
      subst (λ (w : ℕ). (f w).closed ≡ false) same o
  | inr e ↦ r k v (ground (arith, e, h, get-put k k0 v0 m))
]

pub add_route-IsWired :
    (remote : String) (v : ℕ) (n : RingPortNode)
    → (n.virtuals v).closed ≡ false
    → IsWired n
    → IsWired (add_route remote v n)
unfolding add_route
add_route-IsWired remote v n o w = record {
  unlocked = w.unlocked;
  unique =
      if_cases IsUnique (extract_ip remote == "") (λ _. put-IsUnique remote v n.routes w.unique)
        (λ _. put-IsUnique (extract_ip remote) v _ (put-IsUnique remote v n.routes w.unique));
  routed =
      if_cases
        (λ (m : GoMap ℕ). (k : String) (x : ℕ) → get k m ≡ some x → (n.virtuals x).closed ≡ false)
        (extract_ip remote == "") (λ _. put-routed remote v n.routes n.virtuals o w.routed)
        (λ _.
          put-routed (extract_ip remote) v _ n.virtuals o
            (put-routed remote v n.routes n.virtuals o w.routed));
  listed = w.listed;
  fresh = w.fresh;
  distinct = w.distinct;
  buffered = w.buffered;
}

pub eqb→eq : (v u : ℕ) → eqb v u ≡ true → v ≡ u
eqb→eq v u e = ground arith

pub closed-update :
    (v : ℕ) (x : VirtualPacketConn) (f : ℕ → VirtualPacketConn) (u : ℕ)
    → x.closed ≡ (f v).closed
    → (update v x f u).closed ≡ (f u).closed
unfolding update
closed-update v x f u c =
    if_cases (λ (y : VirtualPacketConn). y.closed ≡ (f u).closed) (eqb v u)
      (λ e. c ∙ ap (λ (t : ℕ). (f t).closed) (eqb→eq v u e)) (λ _. refl)

pub inbound-update :
    (v : ℕ) (x : VirtualPacketConn) (f : ℕ → VirtualPacketConn) (u : ℕ)
    → length x.inbound ≤ capacity
    → length (f u).inbound ≤ capacity
    → length (update v x f u).inbound ≤ capacity
unfolding update
inbound-update v x f u l m =
    if_cases (λ (y : VirtualPacketConn). length y.inbound ≤ capacity) (eqb v u) (λ _. l) (λ _. m)

-- A change to a connection that leaves it open or closed as it is, and its buffer within bounds.
pub update-IsWired :
    (v : ℕ) (x : VirtualPacketConn) (n : RingPortNode)
    → x.closed ≡ (n.virtuals v).closed
    → length x.inbound ≤ capacity
    → IsWired n
    → IsWired (record n { virtuals = update v x n.virtuals })
update-IsWired v x n c l w = record {
  unlocked = w.unlocked;
  unique = w.unique;
  routed = λ k u h. closed-update v x n.virtuals u c ∙ w.routed k u h;
  listed = λ u. w.listed u ∙ ap not (sym (closed-update v x n.virtuals u c));
  fresh = λ u h. closed-update v x n.virtuals u c ∙ w.fresh u h;
  distinct = w.distinct;
  buffered = λ u. inbound-update v x n.virtuals u l (w.buffered u);
}

pub length-append-one :
    (l : List InboundPacket) (p : InboundPacket) → length (l ++ (p ∷ [])) ≡ suc (length l)
length-append-one [] p = refl
length-append-one (x ∷ l) p = ap suc (length-append-one l p)

pub deliver-IsWired :
    (pkt : InboundPacket) (v : ℕ) (n : RingPortNode) → IsWired n → IsWired (deliver pkt v n).0
unfolding deliver
deliver-IsWired pkt v n w =
    let x = n.virtuals v in
    let queued : VirtualPacketConn = record x { inbound = x.inbound ++ (pkt ∷ []) } in
    if_cases (λ (r : RingPortNode × Bool). IsWired r.0)
      (not x.closed && ltb (length x.inbound) capacity)
      (λ e. update-IsWired v queued n refl (ground (arith, e, length-append-one x.inbound pkt)) w)
      (λ _. w)

pub receive-IsWired :
    (pkt : InboundPacket) (n : RingPortNode) → IsWired n → IsWired (receive pkt n).0
unfolding receive
receive-IsWired pkt n w =
    elim (find_target pkt.addr n)
      as (λ o.
        IsWired
          (elim o as (λ _. RingPortNode × Bool) [
            | none ↦ (n, false)
            | some v ↦ deliver pkt v n
          ]).0) [ none ↦ w | some v ↦ deliver-IsWired pkt v n w ]

pub read-IsWired : (v : ℕ) (n : RingPortNode) → IsWired n → IsWired (read_from v n).0
unfolding read_from
read-IsWired v n w = by_inbound (n.virtuals v).inbound (w.buffered v)
  where
    by_inbound :
        (l : List InboundPacket)
        → length l ≤ capacity
        → IsWired
            (elim l as (λ _. RingPortNode × Option InboundPacket) [
              | [] ↦ (n, none)
              | pkt ∷ rest ↦ (
                record n {
                  virtuals = update v (record (n.virtuals v) { inbound = rest }) n.virtuals;
                },
                some pkt,
              )
            ]).0
    by_inbound [] l = w
    by_inbound (pkt ∷ rest) l = update-IsWired v _ n refl (omega (arith, l)) w

pub last-has_conn : (l : List ℕ) (v : ℕ) → last l ≡ some v → has_conn v l ≡ true
unfolding last
last-has_conn [] v h = absurd (cc h)
last-has_conn (x ∷ []) v h = ground arith
last-has_conn (x ∷ y ∷ l) v h = ground (arith, last-has_conn (y ∷ l) v h)

pub latest_open :
    (n : RingPortNode) (v : ℕ) → IsWired n → latest n ≡ some v → (n.virtuals v).closed ≡ false
unfolding latest
latest_open n v w h = ground (arith, w.listed v, last-has_conn n.active_conns v h)

pub permit-IsWired : (ip : String) (n : RingPortNode) → IsWired n → IsWired (permit ip n)
unfolding permit
permit-IsWired ip n w = by_latest (latest n) (λ v e. latest_open n v w e)
  where
    by_latest :
        (o : Option ℕ)
        → ((v : ℕ) → o ≡ some v → (n.virtuals v).closed ≡ false)
        → IsWired (elim o as (λ _. RingPortNode) [
          | none ↦ n
          | some v ↦ record n { routes = put ip v n.routes }
        ])
    by_latest none f = w
    by_latest (some v) f = record {
      unlocked = w.unlocked;
      unique = put-IsUnique ip v n.routes w.unique;
      routed = put-routed ip v n.routes n.virtuals (f v refl) w.routed;
      listed = w.listed;
      fresh = w.fresh;
      distinct = w.distinct;
      buffered = w.buffered;
    }

pub attach-IsWired : (n : RingPortNode) → IsWired n → IsWired (attach n)
unfolding attach update
attach-IsWired n w = record {
  unlocked = w.unlocked;
  unique = w.unique;
  routed = λ k v h.
      if_cases (λ (y : VirtualPacketConn). y.closed ≡ false) (eqb n.made v) (λ _. refl)
        (λ _. w.routed k v h);
  listed = λ v.
      has_conn-append v n.made n.active_conns
      ∙ if_cases
          (λ (y : VirtualPacketConn). (has_conn v n.active_conns || eqb n.made v) ≡ not y.closed)
          (eqb n.made v) (λ e. ground (arith, e)) (λ e. ground (arith, e, w.listed v));
  fresh = λ v h. ground (arith, w.fresh v);
  distinct =
      append-IsDistinct n.made n.active_conns w.distinct
        (ground (arith, w.listed n.made, w.fresh n.made));
  buffered = λ v.
      if_cases (λ (y : VirtualPacketConn). length y.inbound ≤ capacity) (eqb n.made v)
        (λ _. omega arith) (λ _. w.buffered v);
}

pub open_listed :
    (v : ℕ) (n : RingPortNode)
    → IsWired n
    → (n.virtuals v).closed ≡ false
    → has_conn v n.active_conns ≡ true
open_listed v n w o = ground (arith, o, w.listed v)

-- A node whose connection `v` is marked as closed, and then dropped.
pub close-IsWired :
    (v : ℕ) (n : RingPortNode)
    → IsWired n
    → IsWired (
        drop_virtual v
          (record n { virtuals = update v (record (n.virtuals v) { closed = true }) n.virtuals }))
unfolding drop_virtual update
close-IsWired v n w = record {
  unlocked = w.unlocked;
  unique = keep-IsUnique (λ k target. not (eqb target v)) n.routes w.unique;
  routed = λ k u h.
      let was : (get k n.routes ≡ some u) × (eqb u v ≡ false) = kept_other k u h in
      if_cases (λ (y : VirtualPacketConn). y.closed ≡ false) (eqb v u)
        (λ e. absurd (ground (arith, e, was.1))) (λ _. w.routed k u was.0);
  listed = λ u.
      has_conn-remove_first u v n.active_conns w.distinct
      ∙ if_cases
          (λ (y : VirtualPacketConn). (has_conn u n.active_conns && not (eqb v u)) ≡ not y.closed)
          (eqb v u) (λ e. ground (arith, e)) (λ e. ground (arith, e, w.listed u));
  fresh = λ u h.
      if_cases (λ (y : VirtualPacketConn). y.closed ≡ true) (eqb v u) (λ _. refl)
        (λ _. w.fresh u h);
  distinct = remove_first-IsDistinct v n.active_conns w.distinct;
  buffered = λ u.
      if_cases (λ (y : VirtualPacketConn). length y.inbound ≤ capacity) (eqb v u)
        (λ _. w.buffered v) (λ _. w.buffered u);
}
  where
    kept_other :
        (k : String) (u : ℕ)
        → get k (keep (λ k target. not (eqb target v)) n.routes) ≡ some u
        → (get k n.routes ≡ some u) × (eqb u v ≡ false)
    kept_other k u h = elim (Option-cases (get k n.routes)) [
      | inl e ↦ absurd (
          ground (
            arith,
            e,
            h,
            get-keep k (λ (k : String) (target : ℕ). not (eqb target v)) n.routes w.unique,
          ))
      | inr (x, e) ↦ ground (
        arith,
        e,
        h,
        get-keep k (λ (k : String) (target : ℕ). not (eqb target v)) n.routes w.unique,
      )
    ]
