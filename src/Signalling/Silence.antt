-- ===== src/Signalling/Silence.antt =====
-- A connection that has ended is not written to again.
use p2pt_server.Prelude.{
  String, Bool, true, false, Option, none, some, List, [], ◌∷◌, ◌==◌, ◌≡◌, ◌≢◌, refl, subst, arith,
  eq_iff, eq_refl, Option-cases, inl, inr, Bool-cases,
}
use p2pt_server.Clock.{Time}
use p2pt_server.GoMap.{GoMap, get, put}
use p2pt_server.GoMap.Laws.{get-put, get-delete}
use p2pt_server.Signalling.{
  Conn, Client, SignalingServer, add_client, is_client, remove_client, kick_client, open_connection,
  close_connection, Event, opened, closed, kicked, step, run,
}

-- Whatever the server holds of a client has the property.
unfoldable AllClients : (String → Client → Type 0) → SignalingServer → Type 0
AllClients Q s = (k : String) (c : Client) → get k s.clients ≡ some c → Q k c

remove-sub :
    (k i token : String) (o : Option Conn) (c : Client) (s : SignalingServer)
    → get k (remove_client i token o s).clients ≡ some c
    → get k s.clients ≡ some c
unfolding remove_client
remove-sub k i token o c s h = elim (Option-cases (get i s.clients)) [
  | inl e ↦ ground (arith, e)
  | inr (c', e) ↦ ground (arith, e, get-delete k i s.clients, eq_iff i k)
]

put-AllClients :
    (Q : String → Client → Type 0) (i : String) (d : Client) (m : GoMap Client) (k : String)
    (c : Client)
    → Q i d
    → ((j : String) (e : Client) → get j m ≡ some e → Q j e)
    → get k (put i d m) ≡ some c
    → Q k c
put-AllClients Q i d m k c q a h = elim (Bool-cases (i == k)) [
  | inl e ↦
      let same : i ≡ k = ground (arith, e, eq_iff i k) in
      let it : d ≡ c = ground (arith, e, h, get-put k i d m) in
      subst (λ (x : Client). Q k x) it (subst (λ (x : String). Q x d) same q)
  | inr e ↦ a k c (ground (arith, e, h, get-put k i d m))
]

-- The client that an event brings in, if it does, has the property.
Brings : (String → Client → Type 0) → Event → Type 0
Brings Q (opened id token conn now greeted) = Q id (record { id = id; token = token; conn = conn })
Brings Q _ = Unit

step-AllClients :
    (Q : String → Client → Type 0) (e : Event) (s : SignalingServer)
    → Brings Q e
    → AllClients Q s
    → AllClients Q (step e s)
unfolding step Brings AllClients open_connection add_client close_connection kick_client
step-AllClients Q (opened i token conn now true) s b a k c h =
    put-AllClients Q i _ s.clients k c b a h
step-AllClients Q (opened i token conn now false) s b a k c h =
    put-AllClients Q i _ s.clients k c b a (remove-sub k i token (some conn) c _ h)
step-AllClients Q (closed i token conn) s b a k c h = a k c (remove-sub k i token (some conn) c s h)
step-AllClients Q (kicked i) s b a k c h =
    a k c (ground (arith, h, get-delete k i s.clients, eq_iff i k))

-- The connection is not opened again.
unfoldable pub Others : Conn → List Event → Type 0
Others conn [] = Unit
Others conn (opened id token c now greeted ∷ es) = (c ≢ conn) × Others conn es
Others conn (e ∷ es) = Others conn es

-- No client has the connection.
unfoldable pub Fresh : Conn → SignalingServer → Type 0
unfolding AllClients
Fresh conn = AllClients (λ k c. c.conn ≢ conn)

-- The client is the one that opened the connection, if it has it.
Opener : String → String → Conn → String → Client → Type 0
Opener id token conn k c = c.conn ≡ conn → (k ≡ id) × (c.token ≡ token)

run-Opener :
    (id token : String) (conn : Conn) (es : List Event) (s : SignalingServer)
    → Others conn es
    → AllClients (Opener id token conn) s
    → AllClients (Opener id token conn) (run es s)
unfolding run Others Brings Opener
run-Opener id token conn [] s o a = a
run-Opener id token conn (opened i t c now g ∷ es) s o a =
    run-Opener id token conn es _ o.1
      (step-AllClients (Opener id token conn) (opened i t c now g) s (λ e. absurd (o.0 e)) a)
run-Opener id token conn (closed i t c ∷ es) s o a =
    run-Opener id token conn es _ o (step-AllClients (Opener id token conn) (closed i t c) s tt a)
run-Opener id token conn (kicked i ∷ es) s o a =
    run-Opener id token conn es _ o (step-AllClients (Opener id token conn) (kicked i) s tt a)

run-Fresh :
    (conn : Conn) (es : List Event) (s : SignalingServer)
    → Others conn es
    → Fresh conn s
    → Fresh conn (run es s)
unfolding run Others Brings Fresh
run-Fresh conn [] s o a = a
run-Fresh conn (opened i t c now g ∷ es) s o a =
    run-Fresh conn es _ o.1 (step-AllClients (λ k c. c.conn ≢ conn) (opened i t c now g) s o.0 a)
run-Fresh conn (closed i t c ∷ es) s o a =
    run-Fresh conn es _ o (step-AllClients (λ k c. c.conn ≢ conn) (closed i t c) s tt a)
run-Fresh conn (kicked i ∷ es) s o a =
    run-Fresh conn es _ o (step-AllClients (λ k c. c.conn ≢ conn) (kicked i) s tt a)

remove_own :
    (id token : String) (conn : Conn) (c : Client) (s : SignalingServer)
    → c.token ≡ token
    → c.conn ≡ conn
    → get id s.clients ≡ some c
    → get id (remove_client id token (some conn) s).clients ≡ none
unfolding remove_client is_client
remove_own id token conn c s t e h =
    ground (arith, t, e, h, eq_iff c.token token, get-delete id id s.clients, eq_refl id)

-- What is left behind when the opener's connection ends.
close-Fresh :
    (id token : String) (conn : Conn) (s : SignalingServer)
    → AllClients (Opener id token conn) s
    → Fresh conn (close_connection id token conn s).0
unfolding close_connection Fresh AllClients Opener
close-Fresh id token conn s a k c h e =
    let before : get k s.clients ≡ some c = remove-sub k id token (some conn) c s h in
    let (own, fits) = a k c before e in
    let gone : get id (remove_client id token (some conn) s).clients ≡ none =
      remove_own id token conn c s fits e
        (subst (λ (x : String). get x s.clients ≡ some c) own before) in
    absurd (
      cc (
        gone,
        subst (λ (x : String). get x (remove_client id token (some conn) s).clients ≡ some c) own h,
      ))

open-Opener :
    (id token : String) (conn : Conn) (now : Time) (greeted : Bool) (s : SignalingServer)
    → Fresh conn s
    → AllClients (Opener id token conn) (open_connection id token conn now greeted s).0
unfolding step Brings Opener Fresh AllClients
open-Opener id token conn now greeted s f =
    step-AllClients (Opener id token conn) (opened id token conn now greeted) s (λ _. (refl, refl))
      (λ k c h e. absurd (f k c h e))

-- Once a connection has ended, no client has it any more, whatever happens before and after, so that
-- no message is sent on it: the connection is opened once, under any name.
pub closed_is_silent :
    (id token : String) (conn : Conn) (now : Time) (greeted : Bool) (es fs : List Event)
    (s : SignalingServer)
    → Fresh conn s
    → Others conn es
    → Others conn fs
    → Fresh conn (
        run fs
          (close_connection id token conn
            (run es (open_connection id token conn now greeted s).0)).0)
closed_is_silent id token conn now greeted es fs s f o p =
    let s1 = (open_connection id token conn now greeted s).0 in
    let s2 = run es s1 in
    run-Fresh conn fs (close_connection id token conn s2).0 p (
      close-Fresh id token conn s2
        (run-Opener id token conn es s1 o (open-Opener id token conn now greeted s f)))
