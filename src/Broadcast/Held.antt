-- ===== src/Broadcast/Held.antt =====
-- What is kept of a publication that is under way, whatever comes to the other names.
use p2pt_server.Prelude.{
  ℕ, String, true, false, none, some, List, [], ◌∷◌, ◌==◌, ◌≡◌, ◌≢◌, eqb, refl, arith, ==_ne,
  if_cases, Option, ◌<◌, ap, ◌∙◌, not, leb,
}
use p2pt_server.Clock.{Time}
use p2pt_server.GoMap.{get, size}
use p2pt_server.GoMap.Laws.{get-delete}
use p2pt_server.Broadcast.{
  BroadcastManager, BroadcastStream, Call, no_body, no_codecs, no_connection, connected, answered,
  remote_refused, no_answer, local_refused, set_stream, close_handle, close_found, close_stream,
  reserve, prepare_publisher, finish_whip, whip_id, begin_whip, WhipStart, on_track, add_subscriber,
  remove_found, remove_subscriber,
}
use p2pt_server.Broadcast.Whep.{
  begin_whep, finish_whep, remove_named, begin_whep_at, begin_whep_named, WhepStart, whep_names,
}
use p2pt_server.GoText.{split, trim_char}
use p2pt_server.Broadcast.Events.{
  Event, whip, whip_prepared, whip_finished, publisher_ended, old_closed, track_arrived, whep,
  subscriber_added, whep_finished, subscriber_ended, is_closing, finish_closing, step, run,
}
use p2pt_server.Broadcast.Sound.{get-reserve}

pub eqb_refl : (h : ℕ) → eqb h h ≡ true
eqb_refl h = ground arith

pub set_stream_same :
    (h : ℕ) (s : BroadcastStream) (heap : ℕ → BroadcastStream) → set_stream h s heap h ≡ s
unfolding set_stream
set_stream_same h s heap = rw (eqb_refl h) refl

-- What a manager has of a publication under the name `id`: its stream `h`, with the connection `o`.
pub record IsHeld (id : String) (h : ℕ) (o : Option ℕ) (bm : BroadcastManager) : Type 0 where
  pub named : get id bm.streams ≡ some h
  pub connection : (bm.heap h).publisher_pc ≡ o
  pub below : h < bm.made

-- An event of another name and, where it gives a stream its connection, of another stream.
unfoldable pub Spares : String → ℕ → Event → Type 0
unfolding whip_id
Spares id h (whip method path now) = whip_id path ≢ id
Spares id h (whip_prepared j g p) = (j ≢ id) × (g ≢ h)
Spares id h (whip_finished j n) = j ≢ id
Spares id h (publisher_ended j) = j ≢ id
Spares id h _ = Unit

abbrev pub AllSpare : String → ℕ → List Event → Type 0
AllSpare id h [] = Unit
AllSpare id h (e ∷ es) = Spares id h e × AllSpare id h es

module _ (id : String) (h : ℕ) (o : Option ℕ) where
  -- A change to the heap that leaves the stream's connection.
  heap-IsHeld :
      (g : ℕ) (s : BroadcastStream) (bm : BroadcastManager)
      → s.publisher_pc ≡ (bm.heap g).publisher_pc
      → IsHeld id h o bm
      → IsHeld id h o (record bm { heap = set_stream g s bm.heap })
  unfolding set_stream
  heap-IsHeld g s bm e w = record {
    named = w.named;
    connection =
        if_cases (λ (x : BroadcastStream). x.publisher_pc ≡ o) (eqb g h)
          (λ q. e ∙ ap (λ (x : ℕ). (bm.heap x).publisher_pc) (ground arith) ∙ w.connection)
          (λ _. w.connection);
    below = w.below;
  }

  close_handle-IsHeld :
      (g : ℕ) (bm : BroadcastManager) → IsHeld id h o bm → IsHeld id h o (close_handle g bm).0
  unfolding close_handle
  close_handle-IsHeld g bm w = heap-IsHeld g _ bm refl w

  close_stream-IsHeld :
      (j : String) (bm : BroadcastManager)
      → j ≢ id
      → IsHeld id h o bm
      → IsHeld id h o (close_stream j bm).0
  unfolding close_stream close_found
  close_stream-IsHeld j bm n w = by_found (get j bm.streams)
    where
      by_found : (f : Option ℕ) → IsHeld id h o (close_found j f bm).0
      by_found none = w
      by_found (some g) = close_handle-IsHeld g _ (record {
        named = rw (get-delete id j bm.streams, ==_ne j id n) w.named;
        connection = w.connection;
        below = w.below;
      })

  reserve-IsHeld :
      (j : String) (now : Time) (bm : BroadcastManager)
      → j ≢ id
      → IsHeld id h o bm
      → IsHeld id h o (reserve j now bm)
  unfolding reserve set_stream
  reserve-IsHeld j now bm n w = record {
    named = rw (get-reserve j id now bm, ==_ne j id n) (w.named);
    connection =
        let other : eqb bm.made h ≡ false = ground (arith, w.below) in rw other w.connection;
    below = omega (arith, w.below);
  }

  remove_subscriber-IsHeld :
      (g : ℕ) (sub : String) (bm : BroadcastManager)
      → IsHeld id h o bm
      → IsHeld id h o (remove_subscriber g sub bm).0
  unfolding remove_subscriber
  remove_subscriber-IsHeld g sub bm w = by_found (get sub (bm.heap g).subscribers)
    where
      by_found : (f : Option ℕ) → IsHeld id h o (remove_found g sub f bm).0
      by_found none = w
      by_found (some pc) = heap-IsHeld g _ bm refl w

  begin_whip-IsHeld :
      (method path : String) (now : Time) (bm : BroadcastManager)
      → whip_id path ≢ id
      → IsHeld id h o bm
      → IsHeld id h o (begin_whip method path now bm).0.0
  unfolding begin_whip
  begin_whip-IsHeld method path now bm n w =
      let held = λ (x : (BroadcastManager × List Call) × WhipStart). IsHeld id h o x.0.0 in
      if_cases held (method == "OPTIONS") (λ _. w)
        (λ _.
          if_cases held (whip_id path == "") (λ _. w)
            (λ _.
              if_cases held (method == "DELETE") (λ _. close_stream-IsHeld (whip_id path) bm n w)
                (λ _.
                  if_cases held (not (method == "POST")) (λ _. w)
                    (λ _.
                      if_cases held (leb bm.max_streams (size bm.streams)) (λ _. w)
                        (λ _. reserve-IsHeld (whip_id path) now bm n w)))))

  remove_named-IsHeld :
      (g : ℕ) (sub : Option String) (bm : BroadcastManager)
      → IsHeld id h o bm
      → IsHeld id h o (remove_named g sub bm).0
  remove_named-IsHeld g none bm w = w
  remove_named-IsHeld g (some sub) bm w = remove_subscriber-IsHeld g sub bm w

  begin_whep_at-IsHeld :
      (method : String) (f : Option ℕ) (sub : Option String) (bm : BroadcastManager)
      → IsHeld id h o bm
      → IsHeld id h o (begin_whep_at method f sub bm).0.0
  begin_whep_at-IsHeld method none sub bm w = w
  begin_whep_at-IsHeld method (some g) sub bm w =
      let held = λ (x : (BroadcastManager × List Call) × WhepStart). IsHeld id h o x.0.0 in
      if_cases held (method == "DELETE") (λ _. remove_named-IsHeld g sub bm w)
        (λ _. if_cases held (not (method == "POST")) (λ _. w) (λ _. w))

  begin_whep_named-IsHeld :
      (method : String) (f : Option (String × Option String)) (bm : BroadcastManager)
      → IsHeld id h o bm
      → IsHeld id h o (begin_whep_named method f bm).0.0
  begin_whep_named-IsHeld method none bm w = w
  begin_whep_named-IsHeld method (some (j, sub)) bm w =
      begin_whep_at-IsHeld method (get j bm.streams) sub bm w

  begin_whep-IsHeld :
      (method path : String) (bm : BroadcastManager)
      → IsHeld id h o bm
      → IsHeld id h o (begin_whep method path bm).0.0
  unfolding begin_whep
  begin_whep-IsHeld method path bm w =
      if_cases (λ (x : (BroadcastManager × List Call) × WhepStart). IsHeld id h o x.0.0)
        (method == "OPTIONS") (λ _. w)
        (λ _. begin_whep_named-IsHeld method (whep_names (split "/" (trim_char "/" path))) bm w)

  step-IsHeld :
      (e : Event) (bm : BroadcastManager)
      → Spares id h e
      → IsHeld id h o bm
      → IsHeld id h o (step e bm).0
  unfolding step Spares set_stream prepare_publisher finish_whip finish_closing on_track
      add_subscriber finish_whep
  step-IsHeld (whip method path now) bm n w = begin_whip-IsHeld method path now bm n w
  step-IsHeld (whip_prepared j g (connected pc)) bm n w =
      let other : eqb g h ≡ false = ground (arith, n.1) in
      record { named = w.named; connection = rw other w.connection; below = w.below }
  step-IsHeld (whip_prepared j g no_body) bm n w = close_stream-IsHeld j bm n.0 w
  step-IsHeld (whip_prepared j g no_codecs) bm n w = close_stream-IsHeld j bm n.0 w
  step-IsHeld (whip_prepared j g no_connection) bm n w = close_stream-IsHeld j bm n.0 w
  step-IsHeld (whip_finished j answered) bm n w = w
  step-IsHeld (whip_finished j remote_refused) bm n w = close_stream-IsHeld j bm n w
  step-IsHeld (whip_finished j no_answer) bm n w = close_stream-IsHeld j bm n w
  step-IsHeld (whip_finished j local_refused) bm n w = close_stream-IsHeld j bm n w
  step-IsHeld (publisher_ended j) bm n w = close_stream-IsHeld j bm n w
  step-IsHeld (old_closed g) bm n w =
      if_cases (λ (x : BroadcastManager × List Call). IsHeld id h o x.0) (is_closing g bm.closing)
        (λ _. close_handle-IsHeld g bm w) (λ _. w)
  step-IsHeld (track_arrived g none) bm n w = w
  step-IsHeld (track_arrived g (some t)) bm n w = heap-IsHeld g _ bm refl w
  step-IsHeld (whep method path) bm n w = begin_whep-IsHeld method path bm w
  step-IsHeld (subscriber_added g sub pc) bm n w = heap-IsHeld g _ bm refl w
  step-IsHeld (whep_finished g sub answered) bm n w = w
  step-IsHeld (whep_finished g sub remote_refused) bm n w = remove_subscriber-IsHeld g sub bm w
  step-IsHeld (whep_finished g sub no_answer) bm n w = remove_subscriber-IsHeld g sub bm w
  step-IsHeld (whep_finished g sub local_refused) bm n w = remove_subscriber-IsHeld g sub bm w
  step-IsHeld (subscriber_ended g sub) bm n w = remove_subscriber-IsHeld g sub bm w

  pub run-IsHeld :
      (es : List Event) (bm : BroadcastManager)
      → AllSpare id h es
      → IsHeld id h o bm
      → IsHeld id h o (run es bm)
  unfolding run
  run-IsHeld [] bm a w = w
  run-IsHeld (e ∷ es) bm a w = run-IsHeld es (step e bm).0 a.1 (step-IsHeld e bm a.0 w)
