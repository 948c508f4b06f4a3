-- ===== src/Ddns/Reports.antt =====
-- What the heartbeats leave in the status.
use p2pt_server.Clock.{Time}
use p2pt_server.Ddns.CloudHub.{
  CloudHubDdnsManager, HubReply, unsendable, failed, unread, answered, HubResult, HubUpdated,
  set_status, accept, conclude, update,
}
use p2pt_server.Prelude.{
  String, Option, none, some, List, [], ◌∷◌, ◌≡◌, ◌≢◌, ==_ne, subst, sym, refl, ◌∙◌, ap, ◌==◌, eqb,
  if◌then◌else◌, inl, inr, Bool-cases,
}

-- What a reply reports, if it is a report.
abbrev pub report : (String → Option HubResult) → HubReply → Option HubResult
report unmarshal (answered code text) = if eqb code 200 then unmarshal text else none
report unmarshal _ = none

-- A text, or the one before if it is empty.
abbrev pub newer : String → String → String
newer before t = if t == "" then before else t

abbrev pub newer_field : (HubResult → String) → String → Option HubResult → String
newer_field field before none = before
newer_field field before (some res) = newer before (field res)

-- The last text that is not empty among one field of the reports in the replies.
unfoldable pub last_reported :
    (String → Option HubResult) → (HubResult → String) → String → List (Time × HubReply) → String
last_reported unmarshal field before [] = before
last_reported unmarshal field before ((now, r) ∷ rs) =
    last_reported unmarshal field (newer_field field before (report unmarshal r)) rs

unfoldable pub run :
    (String → Option HubResult) → List (Time × HubReply) → CloudHubDdnsManager → CloudHubDdnsManager
unfolding update
run unmarshal [] c = c
run unmarshal ((now, r) ∷ rs) c = run unmarshal rs ((update unmarshal now c r).manager)

-- What one update leaves, if the reply reports `o`.
record Leaves (c : CloudHubDdnsManager) (o : Option HubResult) (u : CloudHubDdnsManager)
    : Type 0 where
  credentials : (u.appliance_id ≡ c.appliance_id) × (u.secret_token ≡ c.secret_token)
  current_ip : u.status.current_ip ≡ newer_field (λ (r : HubResult). r.ip) (c.status.current_ip) o
  subdomain :
      u.status.subdomain ≡ newer_field (λ (r : HubResult). r.subdomain) (c.status.subdomain) o

accept-Leaves :
    (now : Time) (text : String) (c : CloudHubDdnsManager) (o : Option HubResult)
    → Leaves c o ((accept now text c o).manager)
unfolding accept set_status
accept-Leaves now text c none = record {
  credentials = (refl, refl);
  current_ip = refl;
  subdomain = refl;
}
accept-Leaves now text c (some r) = record {
  credentials = (refl, refl);
  current_ip = refl;
  subdomain = refl;
}

conclude-Leaves :
    (unmarshal : String → Option HubResult) (now : Time) (c : CloudHubDdnsManager) (r : HubReply)
    → Leaves c (report unmarshal r) ((conclude unmarshal now c r).manager)
unfolding conclude set_status
conclude-Leaves unmarshal now c (unsendable e) = record {
  credentials = (refl, refl);
  current_ip = refl;
  subdomain = refl;
}
conclude-Leaves unmarshal now c (failed e) = record {
  credentials = (refl, refl);
  current_ip = refl;
  subdomain = refl;
}
conclude-Leaves unmarshal now c (unread e) = record {
  credentials = (refl, refl);
  current_ip = refl;
  subdomain = refl;
}
conclude-Leaves unmarshal now c (answered code text) = elim (Bool-cases (eqb code 200)) [
  | inl e ↦ rw e (accept-Leaves now text c (unmarshal text))
  | inr e ↦ rw e (record { credentials = (refl, refl); current_ip = refl; subdomain = refl })
]

update-conclude :
    (unmarshal : String → Option HubResult) (now : Time) (c : CloudHubDdnsManager) (r : HubReply)
    → c.appliance_id ≢ ""
    → c.secret_token ≢ ""
    → update unmarshal now c r ≡ conclude unmarshal now c r
unfolding update
update-conclude unmarshal now c r i t =
    rw (==_ne (c.appliance_id) "" i, ==_ne (c.secret_token) "" t) refl

-- Of an appliance with an identifier and a token, after any heartbeats: the name and the address
-- in the status are the last ones that are not empty among those which the hub reported, with 200
-- and well-formed JSON; failed heartbeats in between or behind leave them, and without any report
-- they are what they were.
pub run-last_reported :
    (unmarshal : String → Option HubResult) (rs : List (Time × HubReply)) (c : CloudHubDdnsManager)
    → c.appliance_id ≢ ""
    → c.secret_token ≢ ""
    → ((run unmarshal rs c).status.current_ip
        ≡ last_reported unmarshal (λ (r : HubResult). r.ip) (c.status.current_ip) rs)
      × ((run unmarshal rs c).status.subdomain
          ≡ last_reported unmarshal (λ (r : HubResult). r.subdomain) (c.status.subdomain) rs)
unfolding run last_reported
run-last_reported unmarshal [] c i t = (refl, refl)
run-last_reported unmarshal ((now, r) ∷ rs) c i t =
    let u = (conclude unmarshal now c r).manager in
    let l = conclude-Leaves unmarshal now c r in
    let first =
      ap (λ (x : HubUpdated). run unmarshal rs (x.manager))
        (update-conclude unmarshal now c r i t) in
    let rest =
      run-last_reported unmarshal rs u (subst (λ (s : String). s ≢ "") (sym (l.credentials.0)) i)
        (subst (λ (s : String). s ≢ "") (sym (l.credentials.1)) t) in
    (
      ap (λ (x : CloudHubDdnsManager). x.status.current_ip) first
          ∙ rest.0
          ∙ ap (λ (s : String). last_reported unmarshal (λ (r : HubResult). r.ip) s rs)
              (l.current_ip),
      ap (λ (x : CloudHubDdnsManager). x.status.subdomain) first
          ∙ rest.1
          ∙ ap (λ (s : String). last_reported unmarshal (λ (r : HubResult). r.subdomain) s rs)
              (l.subdomain),
    )
