-- ===== src/TurnMonitor/Abuse.antt =====
-- Repeated failures, and blocked addresses.
use p2pt_server.Prelude.{
  ◌+◌, ◌*◌, ◌≤◌, String, false, ◌&&◌, not, none, some, List, [], ◌∷◌, ◌≡◌, ◌≢◌, ◌∙◌, arith, ◌==◌,
  eqb, ltb, leb, length, eq_refl, ==_ne, inl, inr, Option-cases, if◌then◌else◌,
}
use p2pt_server.Clock.{Time, minute, hour, zero_time}
use p2pt_server.GoMap.{get, IsUnique}
use p2pt_server.GoMap.Laws.{get-put, get-keep, kept}
use p2pt_server.Net.{extract_ip}
use p2pt_server.TurnMonitor.{
  TurnMonitor, reputation, check_ip_blocked, failed, record_failure, record_auth_attempt, block_ip,
  unblock_ip,
}

-- The blocked test reads the reputation, or that of an address with no history.
check_ip_blocked_lem :
    (addr : String) (now : Time) (tm : TurnMonitor)
    → zero_time ≤ now
    → check_ip_blocked (some addr) now tm ≡ ltb now (reputation (extract_ip addr) tm).blocked_until
unfolding check_ip_blocked
check_ip_blocked_lem addr now tm h = ground arith

-- Failed attempts from one address, at the times given, by any users.
pub fail_all : String → List (String × Time) → TurnMonitor → TurnMonitor
fail_all addr [] tm = tm
fail_all addr ((user, t) ∷ ts) tm =
    fail_all addr ts (record_auth_attempt user (some addr) false t tm)

abbrev pub last_time : Time → List (String × Time) → Time
last_time d [] = d
last_time d ((user, t) ∷ ts) = last_time t ts

reputation-record_failure :
    (ip : String) (now : Time) (tm : TurnMonitor)
    → reputation ip (record_failure ip now tm) ≡ failed now (reputation ip tm)
unfolding record_failure
reputation-record_failure ip now tm =
    ground (arith, get-put ip ip (failed now (reputation ip tm)) tm.reputations, eq_refl ip)

-- After all the failures: their number is added, and the last one decides on the block.
fail_all_failures :
    (addr : String) (ts : List (String × Time)) (tm : TurnMonitor)
    → (reputation (extract_ip addr) (fail_all addr ts tm)).failures
      ≡ (reputation (extract_ip addr) tm).failures + length ts
unfolding fail_all record_auth_attempt
fail_all_failures addr [] tm = omega arith
fail_all_failures addr ((user, t) ∷ ts) tm =
    fail_all_failures addr ts (record_failure (extract_ip addr) t tm)
    ∙ ground (arith, reputation-record_failure (extract_ip addr) t tm)

fail_all_blocked_until :
    (addr : String) (d : Time) (ts : List (String × Time)) (tm : TurnMonitor)
    → (reputation (extract_ip addr) tm).blocked_until
      ≡ (if leb 20 (reputation (extract_ip addr) tm).failures then d + 10 * minute else zero_time)
    → (reputation (extract_ip addr) (fail_all addr ts tm)).blocked_until ≡ (
        if leb 20 ((reputation (extract_ip addr) tm).failures + length ts)
        then last_time d ts + 10 * minute
        else zero_time)
unfolding fail_all record_auth_attempt
fail_all_blocked_until addr d [] tm h = ground arith
fail_all_blocked_until addr d ((user, t) ∷ ts) tm h =
    fail_all_blocked_until addr t ts (record_failure (extract_ip addr) t tm) blocked
    ∙ ground (arith, reputation-record_failure (extract_ip addr) t tm)
  where
    blocked :
        (reputation (extract_ip addr) (record_failure (extract_ip addr) t tm)).blocked_until ≡ (
          if leb 20 (reputation (extract_ip addr) (record_failure (extract_ip addr) t tm)).failures
          then t + 10 * minute
          else zero_time)
    blocked = ground (arith, reputation-record_failure (extract_ip addr) t tm)

-- An address with no history that fails to authenticate any number of times, whoever it claims to be
-- and however far apart the attempts are, is blocked exactly if it has failed twenty times or more,
-- up to ten minutes after the last failure.
pub check_ip_blocked-fail_all :
    (addr user : String) (t now : Time) (ts : List (String × Time)) (tm : TurnMonitor)
    → get (extract_ip addr) tm.reputations ≡ none
    → zero_time ≤ now
    → let attempts = (user, t) ∷ ts in
      check_ip_blocked (some addr) now (fail_all addr attempts tm)
      ≡ (leb 20 (length attempts) && ltb now (last_time t ts + 10 * minute))
check_ip_blocked-fail_all addr user t now ts tm fresh recent = ground (
  arith,
  check_ip_blocked_lem addr now (fail_all addr ((user, t) ∷ ts) tm) recent,
  fail_all_blocked_until addr t ((user, t) ∷ ts) tm (ground arith),
)

-- A manual block holds for its duration, 24 hours if none is given, takes away the address's sessions
-- and leaves the other sessions as they are.
block_ip_lem :
    (addr key : String) (duration now t : Time) (tm : TurnMonitor)
    → IsUnique tm.sessions
    → zero_time ≤ t
    → extract_ip addr ≢ ""
    → let tm' = block_ip (extract_ip addr) duration now tm in
      (check_ip_blocked (some addr) t tm'
        ≡ ltb t (now + (if eqb duration 0 then 24 * hour else duration)))
      × (get key tm'.sessions
          ≡ kept (λ k s. not (s.client_ip == extract_ip addr)) key (get key tm.sessions))
unfolding block_ip check_ip_blocked
block_ip_lem addr key duration now t tm u recent n =
    let ip = extract_ip addr in
    rw (==_ne ip "" n) (
      ground (
        arith,
        get-put ip ip
            (record (reputation ip tm) {
              blocked_until = now + (if eqb duration 0 then 24 * hour else duration);
            })
            tm.reputations,
        eq_refl ip,
      ),
      get-keep key (λ k s. not (s.client_ip == ip)) tm.sessions u,
    )

-- Lifting the block of an address lifts a manual one and that of its failures.
unblock_ip_lem :
    (addr : String) (t : Time) (tm : TurnMonitor)
    → zero_time ≤ t
    → let tm' = unblock_ip (extract_ip addr) tm in
      (check_ip_blocked (some addr) t tm' ≡ false)
      × ((reputation (extract_ip addr) tm').failures ≡ 0)
unfolding unblock_ip check_ip_blocked
unblock_ip_lem addr t tm recent =
    let ip = extract_ip addr in
    elim (Option-cases (get ip tm.reputations)) [
      | inl e ↦ rw (e, unblock_ip) (ground (arith, e), ground (arith, e))
      | inr (rep, e) ↦
          let law =
            get-put ip ip (record rep { blocked_until = zero_time; failures = 0 }) tm.reputations in
          rw (e, unblock_ip) (ground (arith, law, eq_refl ip), ground (arith, law, eq_refl ip))
    ]
