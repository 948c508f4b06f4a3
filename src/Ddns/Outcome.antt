-- ===== src/Ddns/Outcome.antt =====
-- What an update of the DuckDNS name returns, sends and notes.
use Prim.Native.String.{[] as empty, ◌∷◌ as ◌::◌}
use Prim.Native.String.append
use p2pt_server.GoText.Cut.{contains}
use p2pt_server.Ddns.{
  DuckDnsManager, Reply, failed, unread, body, Request, World, Updated, blames_certificate, answer,
  requests, says_ok, has_credentials, update_url, set_status, conclude, attempt, update, unsent,
  missing_credentials, format_full_domain,
}
use p2pt_server.Prelude.{
  String, Bool, true, false, not, ◌&&◌, ◌||◌, Option, none, some, List, [], ◌∷◌, ◌≡◌, refl, ◌==◌,
  if◌then◌else◌, Bool-cases, inl, inr,
}

-- A body that holds "OK".
abbrev pub reply_ok : Reply → Bool
reply_ok (body text) = says_ok text
reply_ok _ = false

abbrev pub can_send : Option String → Bool
can_send none = true
can_send (some e) = false

-- There are credentials, and the request can be made.
abbrev pub sends : World → DuckDnsManager → Bool
sends w m = has_credentials m && can_send (w.request_error)

-- What there is to say of an update with the outcome `ok` that sends or does not.
pub record HasOutcome (w : World) (ip : String) (m : DuckDnsManager) (b ok : Bool) (u : Updated)
    : Type 0 where
  pub success : u.success ≡ ok
  pub notified : u.notified ≡ (if ok then some (format_full_domain (m.domain), ip) else none)
  pub sent : u.sent ≡ (if b then requests (update_url m ip (w.ipv6)) (w.first) else [])
  pub last_success : u.manager.status.last_success ≡ (if b then ok else m.status.last_success)
  pub last_update : u.manager.status.last_update ≡ (if b then w.now else m.status.last_update)

conclude-HasOutcome :
    (w : World) (ip : String) (m : DuckDnsManager) (r : Reply)
    → HasOutcome w ip m true
        (reply_ok r)
        (conclude (w.now) ip (w.ipv6) (requests (update_url m ip (w.ipv6)) (w.first)) m r)
unfolding conclude set_status
conclude-HasOutcome w ip m (failed e) = record {
  success = refl;
  notified = refl;
  sent = refl;
  last_success = refl;
  last_update = refl;
}
conclude-HasOutcome w ip m (unread e) = record {
  success = refl;
  notified = refl;
  sent = refl;
  last_success = refl;
  last_update = refl;
}
conclude-HasOutcome w ip m (body text) = elim (Bool-cases (says_ok text)) [
  | inl e ↦ rw e (record {
    success = refl;
    notified = refl;
    sent = refl;
    last_success = refl;
    last_update = refl;
  })
  | inr e ↦ rw e (record {
    success = refl;
    notified = refl;
    sent = refl;
    last_success = refl;
    last_update = refl;
  })
]

attempt-HasOutcome :
    (w : World) (ip : String) (m : DuckDnsManager) (e : Option String)
    → HasOutcome w ip m
        (can_send e)
        (can_send e && reply_ok (answer (w.first) (w.retry)))
        (attempt w ip m e)
unfolding attempt
attempt-HasOutcome w ip m (some e) = record {
  success = refl;
  notified = refl;
  sent = refl;
  last_success = refl;
  last_update = refl;
}
attempt-HasOutcome w ip m none = conclude-HasOutcome w ip m (answer (w.first) (w.retry))

-- The domain is empty, or the token, or neither.
guarded-HasOutcome :
    (w : World) (ip : String) (m : DuckDnsManager) (a b : Bool) (e : Option String)
    → HasOutcome w ip m
        (not a && not b && can_send e)
        ((not a && not b && can_send e) && reply_ok (answer (w.first) (w.retry)))
        (if a || b then unsent missing_credentials m else attempt w ip m e)
guarded-HasOutcome w ip m true b e = record {
  success = refl;
  notified = refl;
  sent = refl;
  last_success = refl;
  last_update = refl;
}
guarded-HasOutcome w ip m false true e = record {
  success = refl;
  notified = refl;
  sent = refl;
  last_success = refl;
  last_update = refl;
}
guarded-HasOutcome w ip m false false e = attempt-HasOutcome w ip m e

-- An update succeeds exactly if there are credentials, the request can be made, and the reply, that to the
-- second request if the first one's error blames the certificate, has a body that holds "OK". It calls the
-- callback exactly if it succeeds, sends nothing without credentials or request, and then also leaves
-- the time and the success in the status as they were; else it notes its own.
pub update-HasOutcome :
    (w : World) (ip : String) (m : DuckDnsManager)
    → HasOutcome w ip m
        (sends w m)
        (sends w m && reply_ok (answer (w.first) (w.retry)))
        (update w ip m)
unfolding update
update-HasOutcome w ip m =
    guarded-HasOutcome w ip m (m.domain == "") (m.token == "") (w.request_error)

-- A request for which the server's certificate was not verified.
abbrev pub any_unverified : List Request → Bool
any_unverified [] = false
any_unverified (r ∷ rs) = not (r.verified) || any_unverified rs

-- What holds of every request that was sent.
abbrev pub AllSent : (Request → Type 0) → List Request → Type 0
AllSent P [] = Unit
AllSent P (r ∷ rs) = P r × AllSent P rs

abbrev pub refuses_certificate : Reply → Bool
refuses_certificate (failed e) = blames_certificate e
refuses_certificate _ = false

-- Of a list of requests, with the outcome of the update that has sent it.
abbrev pub HasLeak : World → DuckDnsManager → Bool → List Request → Bool → Type 0
HasLeak w m b sent ok =
    AllSent (λ r. contains (m.token) (r.url) ≡ true) sent
    × (any_unverified sent ≡ (b && refuses_certificate (w.first)))
    × (ok ≡ (b && reply_ok (if any_unverified sent then w.retry else w.first)))
