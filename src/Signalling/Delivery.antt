-- ===== src/Signalling/Delivery.antt =====
-- Where messages are delivered.
use p2pt_server.Prelude.{
  String, true, false, Option, some, List, [], ◌∷◌, ◌==◌, ◌≡◌, ◌≢◌, refl, ap, ◌∙◌, arith, eq_iff,
  eq_refl, ==_ne, Option-cases, inl, inr, Bool-cases,
}
use p2pt_server.Clock.{Time}
use p2pt_server.GoMap.{get}
use p2pt_server.GoMap.Laws.{get-put, get-put_other, get-delete}
use p2pt_server.Signalling.{
  Conn, PeerMessage, Client, SignalingServer, send, add_client, is_client, remove_client,
  kick_client, get_client, open_connection, close_connection, is_relayed, forward, on_message,
  Event, opened, closed, kicked, step, run,
}

-- What leaves the peer's connection alone: nobody opens another one as that peer, it is not closed,
-- and the peer is not kicked.
unfoldable pub Spares : String → Conn → Event → Type 0
Spares id conn (opened i token c now greeted) = i ≢ id
Spares id conn (closed i token c) = c ≢ conn
Spares id conn (kicked i) = i ≢ id

unfoldable pub AllSpare : String → Conn → List Event → Type 0
AllSpare id conn [] = Unit
AllSpare id conn (e ∷ es) = Spares id conn e × AllSpare id conn es

remove-other :
    (id i token : String) (o : Option Conn) (s : SignalingServer)
    → i ≢ id
    → get id (remove_client i token o s).clients ≡ get id s.clients
unfolding remove_client
remove-other id i token o s n = elim (Option-cases (get i s.clients)) [
  | inl e ↦ ground (arith, e)
  | inr (c, e) ↦ ground (arith, e, get-delete id i s.clients, ==_ne i id n)
]

remove_conn-other :
    (id i token : String) (conn : Conn) (c : Client) (s : SignalingServer)
    → conn ≢ c.conn
    → get id s.clients ≡ some c
    → get id (remove_client i token (some conn) s).clients ≡ some c
unfolding remove_client is_client
remove_conn-other id i token conn c s n h = elim (Option-cases (get i s.clients)) [
  | inl e ↦ ground (arith, e, h)
  | inr (c', e) ↦ ground (arith, e, h, get-delete id i s.clients, eq_iff i id)
]

step-keeps :
    (id : String) (c : Client) (e : Event) (s : SignalingServer)
    → Spares id c.conn e
    → get id s.clients ≡ some c
    → get id (step e s).clients ≡ some c
unfolding step Spares open_connection add_client close_connection kick_client
step-keeps id c (opened i token conn now true) s n h = get-put_other id i _ s.clients n ∙ h
step-keeps id c (opened i token conn now false) s n h =
    remove-other id i token (some conn) _ n ∙ get-put_other id i _ s.clients n ∙ h
step-keeps id c (closed i token conn) s n h = remove_conn-other id i token conn c s n h
step-keeps id c (kicked i) s n h = ground (arith, h, get-delete id i s.clients, ==_ne i id n)

run-keeps :
    (id : String) (c : Client) (es : List Event) (s : SignalingServer)
    → AllSpare id c.conn es
    → get id s.clients ≡ some c
    → get id (run es s).clients ≡ some c
unfolding run AllSpare
run-keeps id c [] s a h = h
run-keeps id c (e ∷ es) s a h = run-keeps id c es (step e s) a.1 (step-keeps id c e s a.0 h)

relayed-ne : (t : String) → is_relayed t ≡ true → (t == "HEARTBEAT") ≡ false
unfolding is_relayed
relayed-ne t r = elim (Bool-cases (t == "HEARTBEAT")) [
  | inl e ↦
      let q : t ≡ "HEARTBEAT" = ground (arith, e, eq_iff t "HEARTBEAT") in
      let no : is_relayed "HEARTBEAT" ≡ false = refl in absurd (cc (r, ap is_relayed q, no))
  | inr e ↦ e
]

-- A peer that connects gets the messages that are sent to it on that connection, under the name of
-- their sender, as long as the connection is not closed, the peer is not kicked, and nobody connects
-- under its name: other connections of the same peer that end before or after change nothing.
pub delivered :
    (id token src : String) (conn from : Conn) (now : Time) (es : List Event) (msg : PeerMessage)
    (s : SignalingServer)
    → AllSpare id conn es
    → is_relayed msg.type ≡ true
    → msg.dst ≡ id
    → id ≢ ""
    → on_message src from msg (run es (open_connection id token conn now true s).0)
      ≡ send conn (record msg { src = src }) ∷ []
unfolding on_message forward get_client open_connection add_client
delivered id token src conn from now es msg s a r d n =
    let c : Client = record { id = id; token = token; conn = conn } in
    let s' = (open_connection id token conn now true s).0 in
    let here : get id s'.clients ≡ some c = ground (arith, get-put id id c s.clients, eq_refl id) in
    ground (arith, r, d, relayed-ne msg.type r, ==_ne id "" n, run-keeps id c es s' a here)
