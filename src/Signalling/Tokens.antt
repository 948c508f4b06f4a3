-- ===== src/Signalling/Tokens.antt =====
-- How long the token of a peer is accepted.
use p2pt_server.Prelude.{
  ◌-◌, ◌+◌, ◌*◌, String, Bool, true, false, not, ◌&&◌, Option, some, List, [], ◌∷◌, ◌==◌, ◌≡◌, ◌≢◌,
  ap, sym, ◌∙◌, subst, arith, eq_iff, eq_refl, ==_ne, Option-cases, if_cases, inl, inr, Bool-cases,
  get_or, if◌then◌else◌,
}
use p2pt_server.Clock.{Time}
use p2pt_server.GoMap.{GoMap, get, put}
use p2pt_server.GoMap.Laws.{get-put}
use p2pt_server.Signalling.{
  Conn, SignalingServer, add_client, remove_client, kick_client, open_connection, close_connection,
  note_token, validate_peer_token, seen_lately, Event, opened, closed, kicked, step, run,
}
use p2pt_server.Prelude.{◌≤◌, ◌<◌}
use p2pt_server.Clock.{minute, before}
use p2pt_server.GoMap.{IsUnique}
use p2pt_server.GoMap.Laws.{get-keep, kept, put-IsUnique, keep-IsUnique}

-- Connections are opened between the two times.
unfoldable pub Between : Time → Time → List Event → Type 0
Between since t [] = Unit
Between since t (opened id token conn now greeted ∷ es) =
    (since ≤ now) × (now ≤ t) × Between since t es
Between since t (e ∷ es) = Between since t es

-- The peer's recent tokens.
abbrev recent : String → SignalingServer → GoMap Time
recent id s = get_or [] (get id s.recent_tokens)

-- The token has been seen at `since` or later.
record Seen (token : String) (since : Time) (m : GoMap Time) : Type 0 where
  at : Time
  late : since ≤ at
  stands : get token m ≡ some at
  unique : IsUnique m

abbrev fresh_enough : Time → String → Time → Bool
fresh_enough now t seen = not (before seen (now - 10 * minute))

note-IsUnique :
    (token : String) (now : Time) (m : GoMap Time) → IsUnique m → IsUnique (note_token token now m)
unfolding note_token
note-IsUnique token now m u =
    keep-IsUnique (fresh_enough now) (put token now m) (put-IsUnique token now m u)

get-note_token :
    (token other : String) (now : Time) (m : GoMap Time)
    → IsUnique m
    → get token (note_token other now m)
      ≡ kept (fresh_enough now) token (if other == token then some now else get token m)
unfolding note_token
get-note_token token other now m u =
    get-keep token (fresh_enough now) (put other now m) (put-IsUnique other now m u)
    ∙ ap (kept (fresh_enough now) token) (get-put token other now m)

note-Seen :
    (token other : String) (now since : Time) (m : GoMap Time)
    → since ≤ now
    → now ≤ since + 5 * minute
    → Seen token since m
    → Seen token since (note_token other now m)
note-Seen token other now since m n l x = elim (Bool-cases (other == token)) [
  | inl e ↦ record {
    at = now;
    late = n;
    stands = ground (arith, e, get-note_token token other now m x.unique);
    unique = note-IsUnique other now m x.unique;
  }
  | inr e ↦ record {
    at = x.at;
    late = x.late;
    stands = ground (arith, e, x.stands, x.late, get-note_token token other now m x.unique);
    unique = note-IsUnique other now m x.unique;
  }
]

recent-remove :
    (i token : String) (o : Option Conn) (s : SignalingServer)
    → (remove_client i token o s).recent_tokens ≡ s.recent_tokens
unfolding remove_client
recent-remove i token o s = elim (Option-cases (get i s.clients)) [
  | inl e ↦ ground (arith, e)
  | inr (c, e) ↦ ground (arith, e)
]

-- The tokens that are noted when a connection is opened.
recent-open :
    (id i token : String) (conn : Conn) (now : Time) (greeted : Bool) (s : SignalingServer)
    → recent id (open_connection i token conn now greeted s).0
      ≡ (if i == id && not (token == "") then note_token token now (recent i s) else recent id s)
unfolding open_connection add_client remove_client
recent-open id i token conn now true s =
    ground (arith, get-put id i (note_token token now (recent i s)) s.recent_tokens)
recent-open id i token conn now false s =
    ap (λ (m : GoMap (GoMap Time)). get_or [] (get id m)) (recent-remove i token (some conn) _)
    ∙ ground (arith, get-put id i (note_token token now (recent i s)) s.recent_tokens)

open-Seen :
    (id token i other : String) (conn : Conn) (now since : Time) (greeted : Bool)
    (s : SignalingServer)
    → since ≤ now
    → now ≤ since + 5 * minute
    → Seen token since (recent id s)
    → Seen token since (recent id (open_connection i other conn now greeted s).0)
open-Seen id token i other conn now since greeted s n l x =
    subst (Seen token since) (sym (recent-open id i other conn now greeted s)) (
      if_cases (Seen token since) (i == id && not (other == ""))
        (λ q.
          note-Seen token other now since (recent i s) n l
            (subst (λ (j : String). Seen token since (recent j s)) (sym (same q)) x))
        (λ _. x))
  where
    same : (i == id && not (other == "")) ≡ true → i ≡ id
    same q = ground (arith, q, eq_iff i id)

run-Seen :
    (id token : String) (since t : Time) (es : List Event) (s : SignalingServer)
    → t ≤ since + 5 * minute
    → Between since t es
    → Seen token since (recent id s)
    → Seen token since (recent id (run es s))
unfolding run step Between close_connection kick_client
run-Seen id token since t [] s l b x = x
run-Seen id token since t (opened i other conn now g ∷ es) s l b x =
    run-Seen id token since t es _ l b.2
      (open-Seen id token i other conn now since g s b.0 (omega (arith, l, b.1)) x)
run-Seen id token since t (closed i other conn ∷ es) s l b x = run-Seen id token since t es _ l b (
    subst (λ (m : GoMap (GoMap Time)). Seen token since (get_or [] (get id m)))
      (sym (recent-remove i other (some conn) s)) x)
run-Seen id token since t (kicked i ∷ es) s l b x = run-Seen id token since t es _ l b x

first-Seen :
    (id token : String) (conn : Conn) (since : Time) (greeted : Bool) (s : SignalingServer)
    → token ≢ ""
    → IsUnique (recent id s)
    → Seen token since (recent id (open_connection id token conn since greeted s).0)
first-Seen id token conn since greeted s n u =
    let m = recent id s in
    let now_noted : get token (note_token token since m) ≡ some since =
      ground (arith, get-note_token token token since m u, eq_refl token) in
    let all : recent id (open_connection id token conn since greeted s).0
        ≡ note_token token since m =
      ground (arith, recent-open id id token conn since greeted s, eq_refl id, ==_ne token "" n) in
    subst (Seen token since) (sym all) (record {
      at = since;
      late = omega arith;
      stands = now_noted;
      unique = note-IsUnique token since m u;
    })

-- For five minutes after a connection opens, the token that it came with is accepted for its peer,
-- whatever connections open and close in between, and even if the peer is kicked.
token_grace :
    (id token : String) (conn : Conn) (since t : Time) (greeted : Bool) (es : List Event)
    (s : SignalingServer)
    → id ≢ ""
    → token ≢ ""
    → IsUnique (get_or [] (get id s.recent_tokens))
    → t < since + 5 * minute
    → Between since t es
    → validate_peer_token id token t (run es (open_connection id token conn since greeted s).0)
      ≡ true
unfolding validate_peer_token seen_lately
token_grace id token conn since t greeted es s n m u l b =
    let s' = (open_connection id token conn since greeted s).0 in
    let x =
      run-Seen id token since t es s' (omega (arith, l)) b
        (first-Seen id token conn since greeted s m u) in
    ground (arith, ==_ne id "" n, ==_ne token "" m, x.stands, x.late, l)
