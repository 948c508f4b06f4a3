-- ===== src/Ddns/Updates.antt =====
-- Updates of the DuckDNS name, one after the other.
use Prim.Native.Char.{Char}
use p2pt_server.Clock.{Time}
use p2pt_server.Ddns.{
  DuckDnsManager, Message, Reply, failed, unread, body, Request, World, Updated, answer, update_url,
  requests, says_ok, has_credentials, set_status, conclude, attempt, update, renew, set_credentials,
  new_duck_dns_manager, format_full_domain,
}
use p2pt_server.Prelude.{
  String, Bool, true, false, ◌||◌, Option, none, some, List, [], ◌∷◌, ◌≡◌, refl, ◌==◌, if_cases,
}

-- What the program does with a manager: an update in the background, or new credentials.
pub data Op : Type 0 where
  background : World → Op
  credentials : World → String → String → Op

unfoldable pub step : (Char → Char) → Op → DuckDnsManager → Updated
unfolding update set_credentials
step to_lower (background w) m = update w "" m
step to_lower (credentials w domain token) m = set_credentials to_lower w domain token m

unfoldable pub run : (Char → Char) → List Op → DuckDnsManager → DuckDnsManager
unfolding step
run to_lower [] m = m
run to_lower (o ∷ os) m = run to_lower os ((step to_lower o m).manager)

-- The status tells the credentials in use, and no IPv4 address.
pub record IsCurrent (m : DuckDnsManager) : Type 0 where
  pub enabled : m.status.enabled ≡ has_credentials m
  pub domain : m.status.domain ≡ m.domain
  pub full_domain : m.status.full_domain ≡ format_full_domain (m.domain)
  pub no_ip : m.status.current_ip ≡ ""

set_status-IsCurrent :
    (now : Time) (success : Bool) (msg : Message) (ipv6 : String) (m : DuckDnsManager)
    → IsCurrent m
    → IsCurrent (set_status now success msg "" ipv6 m)
unfolding set_status
set_status-IsCurrent now success msg ipv6 m c = record {
  enabled = refl;
  domain = refl;
  full_domain = refl;
  no_ip = c.no_ip;
}

conclude-IsCurrent :
    (now : Time) (ipv6 : String) (sent : List Request) (m : DuckDnsManager) (r : Reply)
    → IsCurrent m
    → IsCurrent ((conclude now "" ipv6 sent m r).manager)
unfolding conclude
conclude-IsCurrent now ipv6 sent m (failed e) c = set_status-IsCurrent now false _ "" m c
conclude-IsCurrent now ipv6 sent m (unread e) c = set_status-IsCurrent now false _ "" m c
conclude-IsCurrent now ipv6 sent m (body text) c =
    if_cases (λ (u : Updated). IsCurrent (u.manager)) (says_ok text)
      (λ e. set_status-IsCurrent now true _ ipv6 m c) (λ e. set_status-IsCurrent now false _ "" m c)

attempt-IsCurrent :
    (w : World) (m : DuckDnsManager) (e : Option String)
    → IsCurrent m
    → IsCurrent ((attempt w "" m e).manager)
unfolding attempt
attempt-IsCurrent w m (some e) c = c
attempt-IsCurrent w m none c =
    conclude-IsCurrent (w.now) (w.ipv6) (requests (update_url m "" (w.ipv6)) (w.first)) m
      (answer (w.first) (w.retry)) c

update-IsCurrent :
    (w : World) (m : DuckDnsManager) → IsCurrent m → IsCurrent ((update w "" m).manager)
unfolding update
update-IsCurrent w m c =
    if_cases (λ (u : Updated). IsCurrent (u.manager)) (m.domain == "" || m.token == "") (λ e. c)
      (λ e. attempt-IsCurrent w m (w.request_error) c)

step-IsCurrent :
    (to_lower : Char → Char) (o : Op) (m : DuckDnsManager)
    → IsCurrent m
    → IsCurrent ((step to_lower o m).manager)
unfolding step set_credentials renew
step-IsCurrent to_lower (background w) m c = update-IsCurrent w m c
step-IsCurrent to_lower (credentials w domain token) m c =
    update-IsCurrent w (renew to_lower domain token m)
      (record { enabled = refl; domain = refl; full_domain = refl; no_ip = c.no_ip })

run-keeps :
    (to_lower : Char → Char) (os : List Op) (m : DuckDnsManager)
    → IsCurrent m
    → IsCurrent (run to_lower os m)
unfolding run
run-keeps to_lower [] m c = c
run-keeps to_lower (o ∷ os) m c =
    run-keeps to_lower os ((step to_lower o m).manager) (step-IsCurrent to_lower o m c)

-- After any background updates and changes of the credentials, whatever the servers answer, the status of
-- a new manager is of the credentials in use: whether there are any, their name and its full domain. It
-- never has an IPv4 address.
run-new_duck_dns_manager :
    (to_lower : Char → Char) (domain token : String) (os : List Op)
    → IsCurrent (run to_lower os (new_duck_dns_manager to_lower domain token))
unfolding new_duck_dns_manager
run-new_duck_dns_manager to_lower domain token os =
    run-keeps to_lower os (new_duck_dns_manager to_lower domain token)
      (record { enabled = refl; domain = refl; full_domain = refl; no_ip = refl })
