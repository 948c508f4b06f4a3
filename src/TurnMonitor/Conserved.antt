-- ===== src/TurnMonitor/Conserved.antt =====
-- No byte that passes a metered relay socket is lost or counted twice.
use p2pt_server.Prelude.{
  ℕ, ◌+◌, ◌%◌, ◌^◌, ◌<◌, String, true, Option, none, some, List, [], ◌∷◌, ◌≡◌, refl, ap, arith,
  ◌==◌, eqb, inl, inr, Bool-cases, if_cases,
}
use p2pt_server.Clock.{Time}
use p2pt_server.GoMap.{GoMap, get, put, size, IsUnique, Visits}
use p2pt_server.GoMap.Laws.{put-IsUnique, size-put}
use p2pt_server.TurnMonitor.{TurnSession, TurnMonitor}
use p2pt_server.TurnMonitor.Charging.{
  charge, by_relay, by_client, charge_at, charge_adopting, adopt, credit, record_relay_traffic,
}
use p2pt_server.TurnMonitor.Traffic.{
  IsEntry, AllEntries-of_Visits, by_relay-IsEntry, by_client-IsEntry, newest-entry,
}
use p2pt_server.TurnMonitor.Meter.{
  MeteredPacketConn, Transfer, read_from, write_to, transfer, transfer_all,
}

-- The bytes that the sessions have relayed.
pub total : GoMap TurnSession → ℕ
total [] = 0
total ((k, s) ∷ m) = s.bytes_relayed + total m

pub sum_bytes : List Transfer → ℕ
sum_bytes [] = 0
sum_bytes (t ∷ ts) = t.n + sum_bytes ts

some_inj {ℓ} : {A : Type ℓ} → {a b : A} → some a ≡ some b → a ≡ b
some_inj e = cc

total-put :
    (k : String) (s s' : TurnSession) (m : GoMap TurnSession)
    → get k m ≡ some s
    → total (put k s' m) + s.bytes_relayed ≡ total m + s'.bytes_relayed
unfolding total get put
total-put k s s' [] e = cc
total-put k s s' ((j, r) ∷ m) e = elim (Bool-cases (j == k)) [
  | inl y ↦
      let same : some r ≡ some s = rw y at e in
      let b : r.bytes_relayed ≡ s.bytes_relayed =
        ap (λ (x : TurnSession). x.bytes_relayed) (some_inj same) in
      rw (y) (omega arith)
  | inr n ↦
      let there : get k m ≡ some s = rw n at e in
      let t = total-put k s s' m there in rw (n) (omega arith)
]

-- The bytes are added once, and the sessions stay as they are otherwise.
record IsAdded (bytes : ℕ) (m m' : GoMap TurnSession) : Type 0 where
  sum : total m' % 2 ^ 64 ≡ (total m + bytes) % 2 ^ 64
  unique : IsUnique m'
  same_size : size m' ≡ size m

put-IsAdded :
    (bytes : ℕ) (m : GoMap TurnSession) (k : String) (s s' : TurnSession)
    → IsUnique m
    → get k m ≡ some s
    → s'.bytes_relayed ≡ (s.bytes_relayed + bytes) % 2 ^ 64
    → IsAdded bytes m (put k s' m)
put-IsAdded bytes m k s s' u e b =
    let t = total-put k s s' m e in
    record {
      sum = omega (arith, t, b);
      unique = put-IsUnique k s' m u;
      same_size = rw (size-put k s' m, e) refl;
    }

charge_at-IsAdded :
    (bytes : ℕ) (now : Time) (m : GoMap TurnSession) (key : String) (s : TurnSession)
    → IsUnique m
    → get key m ≡ some s
    → IsAdded bytes m (charge_at bytes now (some (key, s)) m)
unfolding charge_at
charge_at-IsAdded bytes now m key s u e = put-IsAdded bytes m key s (charge bytes now s) u e refl

credit-IsAdded :
    (bytes : ℕ) (now : Time) (relay : String) (m : GoMap TurnSession)
    (r c : Option (String × TurnSession)) (k : String) (s : TurnSession)
    → IsUnique m
    → IsEntry m r
    → IsEntry m c
    → get k m ≡ some s
    → IsAdded bytes m (credit bytes now relay r c (some (k, s)) m)
unfolding credit charge_adopting
credit-IsAdded bytes now relay m (some (j, x)) c k s u hr hc hn =
    charge_at-IsAdded bytes now m j x u hr
credit-IsAdded bytes now relay m none (some (j, x)) k s u hr hc hn =
    put-IsAdded bytes m j x (adopt relay (charge bytes now x)) u hc (ground arith)
credit-IsAdded bytes now relay m none none k s u hr hc hn = charge_at-IsAdded bytes now m k s u hn

module _ (range : GoMap TurnSession → GoMap TurnSession)
    (visits : (m : GoMap TurnSession) → IsUnique m → Visits (range m) m) where
  record_relay_traffic-IsAdded :
      (relay : String) (remote : Option String) (bytes : ℕ) (now : Time) (tm : TurnMonitor)
      → IsUnique tm.sessions
      → 0 < size tm.sessions
      → IsAdded bytes tm.sessions (record_relay_traffic range relay remote bytes now tm).sessions
  unfolding record_relay_traffic
  record_relay_traffic-IsAdded relay remote bytes now tm u n =
      let m = tm.sessions in
      let v = visits m u in
      let h = AllEntries-of_Visits m (range m) v in
      let (k, s, q, e) = newest-entry now m (range m) h (omega (arith, v.all)) in
      elim (Bool-cases (eqb bytes 0)) [
        | inl z ↦
            let zero : bytes ≡ 0 = ground arith in
            rw (z) (record { sum = omega (arith, zero); unique = u; same_size = refl })
        | inr z ↦
            rw (z, q)
              (credit-IsAdded bytes now relay m (by_relay relay (range m))
                (by_client remote (range m)) k s u
                (by_relay-IsEntry range relay remote bytes now tm m (range m) h)
                (by_client-IsEntry range relay remote bytes now tm m (range m) remote h) e)
      ]

  transfer-IsAdded :
      (c : MeteredPacketConn) (t : Transfer) (tm : TurnMonitor)
      → c.has_monitor ≡ true
      → c.is_relay ≡ true
      → IsUnique tm.sessions
      → 0 < size tm.sessions
      → IsAdded t.n tm.sessions (transfer range c t tm).sessions
  unfolding transfer read_from write_to
  transfer-IsAdded c t tm hm hr u n =
      rw (hm, hr)
        (if_cases (λ (x : TurnMonitor). IsAdded t.n tm.sessions x.sessions) t.incoming
          (λ _. record_relay_traffic-IsAdded c.relay_addr t.addr t.n t.at_time tm u n)
          (λ _. record_relay_traffic-IsAdded c.relay_addr t.addr t.n t.at_time tm u n))

  -- All that passes a relay socket with a monitor, in and out, is counted once, as long as there
  -- is a session and none is listed twice: together the sessions have that many more bytes,
  -- modulo 2^64, whatever the addresses are, and in whatever order the runtime walks the
  -- sessions.
  total-transfer_all :
      (c : MeteredPacketConn) (ts : List Transfer) (tm : TurnMonitor)
      → c.has_monitor ≡ true
      → c.is_relay ≡ true
      → IsUnique tm.sessions
      → 0 < size tm.sessions
      → total (transfer_all range c ts tm).sessions % 2 ^ 64
        ≡ (total tm.sessions + sum_bytes ts) % 2 ^ 64
  unfolding transfer_all sum_bytes
  total-transfer_all c [] tm hm hr u n = omega arith
  total-transfer_all c (t ∷ ts) tm hm hr u n =
      let a = transfer-IsAdded c t tm hm hr u n in
      let rest =
        total-transfer_all c ts (transfer range c t tm) hm hr a.unique
          (omega (arith, a.same_size)) in
      omega (arith, a.sum, rest)
