-- ===== src/TurnMonitor/Traffic.antt =====
-- To whom the relayed bytes are charged.
use p2pt_server.Prelude.{
  ℕ, ◌+◌, ◌%◌, ◌^◌, ◌<◌, String, Bool, true, false, Option, none, some, [], ◌∷◌, ◌++◌, ◌≡◌, ◌≢◌,
  refl, sym, ◌∙◌, arith, ◌==◌, eqb, eq_iff, eq_refl, ==_ne, inl, inr, Bool-cases, if_cases,
  if◌then◌else◌, ◌⊎◌, ◌&&◌, not,
}
use p2pt_server.Clock.{Time, before}
use p2pt_server.GoMap.{GoMap, get, put, size, IsUnique, Visits}
use p2pt_server.GoMap.Laws.{get-put}
use p2pt_server.Net.{extract_ip}
use p2pt_server.TurnMonitor.{TurnSession, TurnMonitor}
use p2pt_server.TurnMonitor.Charging.{
  charge, first_match, newest, by_relay, by_client, charge_at, charge_adopting, adopt, credit,
  record_relay_traffic,
}

-- An entry of the map, as a loop that stops at a match finds it.
abbrev pub IsEntry : GoMap TurnSession → Option (String × TurnSession) → Type 0
IsEntry m none = Unit
IsEntry m (some (key, s)) = get key m ≡ some s

-- Every pair of the list is an entry of the map.
abbrev pub AllEntries : GoMap TurnSession → GoMap TurnSession → Type 0
AllEntries m [] = Unit
AllEntries m ((k, s) ∷ l) = (get k m ≡ some s) × AllEntries m l

AllEntries-of_get :
    (m l : GoMap TurnSession)
    → IsUnique l
    → ((k : String) (s : TurnSession) → get k l ≡ some s → get k m ≡ some s)
    → AllEntries m l
unfolding get
AllEntries-of_get m [] u h = tt
AllEntries-of_get m ((k, s) ∷ l) u h = (
  h k s (rw (eq_refl k)),
  AllEntries-of_get m l u.1 (λ j r e. h j r (ground (arith, eq_iff k j, u.0, e))),
)

pub AllEntries-of_Visits : (m l : GoMap TurnSession) → Visits l m → AllEntries m l
AllEntries-of_Visits m l v = AllEntries-of_get m l v.once (λ k s e. sym (v.same k) ∙ e)

first_match-IsEntry :
    (p : TurnSession → Bool) (m l : GoMap TurnSession)
    → AllEntries m l
    → IsEntry m (first_match p l)
unfolding first_match
first_match-IsEntry p m [] h = tt
first_match-IsEntry p m ((k, s) ∷ l) h =
    if_cases (λ o. IsEntry m o) (p s) (λ _. h.0) (λ _. first_match-IsEntry p m l h.1)

first_match-hit :
    (p : TurnSession → Bool) (l : GoMap TurnSession) (j : String) (s : TurnSession)
    → get j l ≡ some s
    → p s ≡ true
    → (k : String) × (r : TurnSession) × (first_match p l ≡ some (k, r)) × (p r ≡ true)
unfolding first_match get
first_match-hit p [] j s e h = cc
first_match-hit p ((k, r) ∷ l) j s e h = elim (Bool-cases (p r)) [
  | inl y ↦ (k, r, rw y, y)
  | inr n ↦
      let (k', r', q, y) = first_match-hit p l j s (ground arith) h in (k', r', ground arith, y)
]

newest-IsEntry :
    (now : Time) (m : GoMap TurnSession) (best : Option (String × TurnSession))
    (l : GoMap TurnSession)
    → AllEntries m l
    → IsEntry m best
    → IsEntry m (newest now best l)
unfolding newest
newest-IsEntry now m best [] h b = b
newest-IsEntry now m none ((k, s) ∷ l) h b = newest-IsEntry now m (some (k, s)) l h.1 h.0
newest-IsEntry now m (some (j, r)) ((k, s) ∷ l) h b =
    newest-IsEntry now m (if before s.last_activity now then some (k, s) else some (j, r)) l h.1
      (if_cases (λ o. IsEntry m o) (before s.last_activity now) (λ _. h.0) (λ _. b))

newest-some :
    (now : Time) (e : String × TurnSession) (l : GoMap TurnSession)
    → (k : String) × (s : TurnSession) × (newest now (some e) l ≡ some (k, s))
unfolding newest
newest-some now e [] = (e.0, e.1, refl)
newest-some now e (d ∷ l) =
    if_cases (λ o. (k : String) × (s : TurnSession) × (newest now o l ≡ some (k, s)))
      (before (d.1).last_activity now) (λ _. newest-some now d l) (λ _. newest-some now e l)

-- From `m` to `m'`, the session at `key` alone changes: by `bytes` and one packet more, by the time
-- of its last activity, and by the address `relay`, which it may take if it has none.
pub record IsCharged (relay : String) (bytes : ℕ) (now : Time) (m m' : GoMap TurnSession)
    (key : String) : Type 0 where
  pub old : TurnSession
  pub new : TurnSession
  pub was : get key m ≡ some old
  pub now_is : get key m' ≡ some new
  pub relay_addr : String
  pub new_is : new ≡ record old {
    bytes_relayed = (old.bytes_relayed + bytes) % 2 ^ 64;
    packets_count = (old.packets_count + 1) % 2 ^ 64;
    last_activity = now;
    relay_addr = relay_addr;
  }
  pub relay_kept : (relay_addr ≡ old.relay_addr) ⊎ ((old.relay_addr ≡ "") × (relay_addr ≡ relay))
  pub others : (j : String) → key ≢ j → get j m' ≡ get j m

put-IsCharged :
    (relay : String) (bytes : ℕ) (now : Time) (m : GoMap TurnSession) (key : String)
    (s : TurnSession) (addr : String)
    → get key m ≡ some s
    → (addr ≡ s.relay_addr) ⊎ ((s.relay_addr ≡ "") × (addr ≡ relay))
    → IsCharged relay bytes now m
        (put key (record (charge bytes now s) { relay_addr = addr }) m)
        key
unfolding charge
put-IsCharged relay bytes now m key s addr e k = record {
  old = s;
  new = record (charge bytes now s) { relay_addr = addr };
  was = e;
  now_is =
      ground
        (arith, get-put key key (record (charge bytes now s) { relay_addr = addr }) m, eq_refl key);
  relay_addr = addr;
  new_is = refl;
  relay_kept = k;
  others = λ j n.
      ground
        (arith, get-put j key (record (charge bytes now s) { relay_addr = addr }) m, ==_ne key j n);
}

charge_at-IsCharged :
    (relay : String) (bytes : ℕ) (now : Time) (m : GoMap TurnSession) (key : String)
    (s : TurnSession)
    → get key m ≡ some s
    → IsCharged relay bytes now m (charge_at bytes now (some (key, s)) m) key
unfolding charge_at charge
charge_at-IsCharged relay bytes now m key s e =
    put-IsCharged relay bytes now m key s s.relay_addr e (inl refl)

charge_adopting-IsCharged :
    (relay : String) (bytes : ℕ) (now : Time) (m : GoMap TurnSession) (key : String)
    (s : TurnSession)
    → get key m ≡ some s
    → IsCharged relay bytes now m (charge_adopting bytes now relay (some (key, s)) m) key
unfolding charge_adopting adopt charge
charge_adopting-IsCharged relay bytes now m key s e =
    if_cases (λ (x : TurnSession). IsCharged relay bytes now m (put key x m) key)
      (s.relay_addr == "" && not (relay == ""))
      (λ y.
        put-IsCharged relay bytes now m key s relay e
          (inr ((eq_iff s.relay_addr "").0 (ground arith), refl)))
      (λ _. put-IsCharged relay bytes now m key s s.relay_addr e (inl refl))

credit-IsCharged :
    (bytes : ℕ) (now : Time) (relay : String) (m : GoMap TurnSession)
    (r c : Option (String × TurnSession)) (k : String) (s : TurnSession)
    → IsEntry m r
    → IsEntry m c
    → get k m ≡ some s
    → (key : String) × IsCharged relay bytes now m (credit bytes now relay r c (some (k, s)) m) key
unfolding credit
credit-IsCharged bytes now relay m (some (j, x)) c k s hr hc hn =
    (j, charge_at-IsCharged relay bytes now m j x hr)
credit-IsCharged bytes now relay m none (some (j, x)) k s hr hc hn =
    (j, charge_adopting-IsCharged relay bytes now m j x hc)
credit-IsCharged bytes now relay m none none k s hr hc hn =
    (k, charge_at-IsCharged relay bytes now m k s hn)

pub newest-entry :
    (now : Time) (m l : GoMap TurnSession)
    → AllEntries m l
    → 0 < size l
    → (k : String) × (s : TurnSession) × (newest now none l ≡ some (k, s)) × (get k m ≡ some s)
unfolding newest
newest-entry now m [] h n = elim n [ ]
newest-entry now m (e ∷ l) h n =
    let (k, s, q) = newest-some now e l in
    (k, s, q, rw q at (newest-IsEntry now m (some e) l h.1 h.0))

module _ (range : GoMap TurnSession → GoMap TurnSession) (relay : String) (remote : Option String)
    (bytes : ℕ) (now : Time) (tm : TurnMonitor) where
  pub by_relay-IsEntry : (m l : GoMap TurnSession) → AllEntries m l → IsEntry m (by_relay relay l)
  unfolding by_relay
  by_relay-IsEntry m l h =
      if_cases (λ o. IsEntry m o) (relay == "") (λ _. tt)
        (λ _. first_match-IsEntry (λ s. s.relay_addr == relay) m l h)

  pub by_client-IsEntry :
      (m l : GoMap TurnSession) (o : Option String) → AllEntries m l → IsEntry m (by_client o l)
  unfolding by_client
  by_client-IsEntry m l none h = tt
  by_client-IsEntry m l (some r) h = first_match-IsEntry (λ s. s.client_ip == extract_ip r) m l h

  -- Relayed bytes are charged to exactly one session, whatever order the runtime walks the sessions
  -- in, as long as there is a session at all: its counters go up by them and by one packet, modulo
  -- 2^64, its last activity is now, and it may take the relay's address if it has none. All else of
  -- this session, the other sessions, the reputations and the revocations stay as they were.
  pub relay_traffic-IsCharged :
      Visits (range tm.sessions) tm.sessions
      → 0 < size tm.sessions
      → 0 < bytes
      → let tm' = record_relay_traffic range relay remote bytes now tm in
        (key : String) × IsCharged relay bytes now tm.sessions tm'.sessions key
        × (tm' ≡ record tm { sessions = tm'.sessions })
  unfolding record_relay_traffic
  relay_traffic-IsCharged v n b =
      let m = tm.sessions in
      let h = AllEntries-of_Visits m (range m) v in
      let (k, s, q, e) = newest-entry now m (range m) h (omega (arith, v.all)) in
      let some_bytes : eqb bytes 0 ≡ false = ground arith in
      let (key, charged) =
        credit-IsCharged bytes now relay m (by_relay relay (range m)) (by_client remote (range m)) k
          s (by_relay-IsEntry m (range m) h) (by_client-IsEntry m (range m) remote h) e in
      rw (some_bytes, q) (key, charged, refl)

  -- If some session holds the relay address, one that holds it is charged, whatever the client's
  -- address is.
  relay_traffic_by_relay :
      (holder : String) (s : TurnSession)
      → Visits (range tm.sessions) tm.sessions
      → 0 < bytes
      → relay ≢ ""
      → get holder tm.sessions ≡ some s
      → s.relay_addr ≡ relay
      → (key : String) × (r : TurnSession) × (get key tm.sessions ≡ some r)
        × (r.relay_addr ≡ relay)
        × IsCharged relay bytes now tm.sessions
            (record_relay_traffic range relay remote bytes now tm).sessions
            key
  unfolding record_relay_traffic by_relay credit
  relay_traffic_by_relay holder s v b n e held =
      let m = tm.sessions in
      let h = AllEntries-of_Visits m (range m) v in
      let is_holder = λ (x : TurnSession). x.relay_addr == relay in
      let (k, r, q, y) =
        first_match-hit is_holder (range m) holder s (v.same holder ∙ e)
          ((eq_iff s.relay_addr relay).1 held) in
      let some_bytes : eqb bytes 0 ≡ false = ground arith in
      let entry : get k m ≡ some r = rw q at (first_match-IsEntry is_holder m (range m) h) in
      (
        k,
        r,
        entry,
        (eq_iff r.relay_addr relay).0 y,
        rw (some_bytes, ==_ne relay "" n, q) (charge_at-IsCharged relay bytes now m k r entry),
      )

newest_last-lem :
    (now : Time) (best : Option (String × TurnSession)) (l : GoMap TurnSession) (k : String)
    (s : TurnSession)
    → s.last_activity < now
    → newest now best (l ++ (k, s) ∷ []) ≡ some (k, s)
unfolding newest
newest_last-lem now none [] k s h = refl
newest_last-lem now (some b) [] k s h = ground arith
newest_last-lem now none (e ∷ l) k s h = newest_last-lem now (some e) l k s h
newest_last-lem now (some b) (e ∷ l) k s h =
    newest_last-lem now (if before (e.1).last_activity now then some e else some b) l k s h

-- Where neither the relay nor the client is known, the session that the runtime visits last is charged
-- if it was last active before now: the one that was active most recently is not looked for.
fallback_takes_last :
    (range : GoMap TurnSession → GoMap TurnSession) (bytes now : ℕ) (tm : TurnMonitor)
    (l : GoMap TurnSession) (key : String) (s : TurnSession)
    → 0 < bytes
    → range tm.sessions ≡ l ++ (key, s) ∷ []
    → s.last_activity < now
    → get key tm.sessions ≡ some s
    → IsCharged "" bytes now tm.sessions
        (record_relay_traffic range "" none bytes now tm).sessions
        key
unfolding record_relay_traffic by_relay by_client credit
fallback_takes_last range bytes now tm l key s b walked earlier e =
    let some_bytes : eqb bytes 0 ≡ false = ground arith in
    rw (some_bytes, walked, newest_last-lem now none l key s earlier)
      (charge_at-IsCharged "" bytes now tm.sessions key s e)
