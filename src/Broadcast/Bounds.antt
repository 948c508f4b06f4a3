-- ===== src/Broadcast/Bounds.antt =====
-- The broadcasts stay within their limit, whatever comes in what order.
use p2pt_server.Prelude.{
  ℕ, String, not, Option, none, some, List, [], ◌∷◌, ◌==◌, leb, refl, arith, inl, inr, if_cases,
  Option-cases,
}
use p2pt_server.Clock.{Time}
use p2pt_server.GoMap.{get, size}
use p2pt_server.Broadcast.{
  BroadcastManager, Call, no_body, no_codecs, no_connection, connected, answered, remote_refused,
  no_answer, local_refused, begin_whip, whip_id, prepare_publisher, finish_whip, on_track,
  add_subscriber, remove_subscriber, new_broadcast_manager, limit,
}
use p2pt_server.Broadcast.Whep.{
  begin_whep, begin_whep_at, begin_whep_named, whep_names, finish_whep,
}
use p2pt_server.GoText.{ℤ, split, trim_char}
use p2pt_server.Broadcast.Events.{
  Event, whip, whip_prepared, whip_finished, publisher_ended, old_closed, track_arrived, whep,
  subscriber_added, whep_finished, subscriber_ended, is_closing, finish_closing, step, run,
}
use p2pt_server.Broadcast.Sound.{
  IsSound, set_stream-IsSound, close_handle-IsSound, close_stream-IsSound, reserve-IsSound,
}

module _ (m : ℕ) where
  -- A manager and the calls, of which the manager is sound.
  abbrev Sound : BroadcastManager × List Call → Type 0
  Sound r = IsSound m r.0

  abbrev SoundStart {ℓ} : {A : Type ℓ} → (BroadcastManager × List Call) × A → Type 0
  SoundStart r = IsSound m r.0.0

  begin_whip-IsSound :
      (method path : String) (now : Time) (bm : BroadcastManager)
      → IsSound m bm
      → Sound (begin_whip method path now bm).0
  unfolding begin_whip
  begin_whip-IsSound method path now bm i =
      if_cases SoundStart (method == "OPTIONS") (λ e. i)
        (λ e.
          if_cases SoundStart (whip_id path == "") (λ e. i)
            (λ e.
              if_cases SoundStart (method == "DELETE")
                (λ e. close_stream-IsSound m (whip_id path) bm i)
                (λ e.
                  if_cases SoundStart (not (method == "POST")) (λ e. i)
                    (λ e.
                      if_cases SoundStart (leb bm.max_streams (size bm.streams)) (λ e. i)
                        (λ e. reserve-IsSound m (whip_id path) now bm e i)))))

  remove_subscriber-IsSound :
      (h : ℕ) (sub : String) (bm : BroadcastManager)
      → IsSound m bm
      → Sound (remove_subscriber h sub bm)
  unfolding remove_subscriber
  remove_subscriber-IsSound h sub bm i = elim (Option-cases (get sub (bm.heap h).subscribers)) [
    | inl e ↦ rw (e) i
    | inr (pc, e) ↦ rw (e) (set_stream-IsSound m h _ bm refl i)
  ]

  begin_whep_at-IsSound :
      (method : String) (o : Option ℕ) (sub : Option String) (bm : BroadcastManager)
      → IsSound m bm
      → SoundStart (begin_whep_at method o sub bm)
  begin_whep_at-IsSound method none sub bm i = i
  begin_whep_at-IsSound method (some h) none bm i =
      if_cases SoundStart (method == "DELETE") (λ e. i)
        (λ e. if_cases SoundStart (not (method == "POST")) (λ e. i) (λ e. i))
  begin_whep_at-IsSound method (some h) (some sub) bm i =
      if_cases SoundStart (method == "DELETE") (λ e. remove_subscriber-IsSound h sub bm i)
        (λ e. if_cases SoundStart (not (method == "POST")) (λ e. i) (λ e. i))

  begin_whep_named-IsSound :
      (method : String) (o : Option (String × Option String)) (bm : BroadcastManager)
      → IsSound m bm
      → SoundStart (begin_whep_named method o bm)
  begin_whep_named-IsSound method none bm i = i
  begin_whep_named-IsSound method (some (id, sub)) bm i =
      begin_whep_at-IsSound method (get id bm.streams) sub bm i

  begin_whep-IsSound :
      (method path : String) (bm : BroadcastManager)
      → IsSound m bm
      → SoundStart (begin_whep method path bm)
  unfolding begin_whep
  begin_whep-IsSound method path bm i =
      if_cases SoundStart (method == "OPTIONS") (λ e. i)
        (λ e. begin_whep_named-IsSound method (whep_names (split "/" (trim_char "/" path))) bm i)

  step-IsSound : (e : Event) (bm : BroadcastManager) → IsSound m bm → Sound (step e bm)
  unfolding step finish_closing prepare_publisher finish_whip on_track add_subscriber finish_whep
  step-IsSound (whip method path now) bm i = begin_whip-IsSound method path now bm i
  step-IsSound (whip_prepared id h (connected pc)) bm i = set_stream-IsSound m h _ bm refl i
  step-IsSound (whip_prepared id h no_body) bm i = close_stream-IsSound m id bm i
  step-IsSound (whip_prepared id h no_codecs) bm i = close_stream-IsSound m id bm i
  step-IsSound (whip_prepared id h no_connection) bm i = close_stream-IsSound m id bm i
  step-IsSound (whip_finished id answered) bm i = i
  step-IsSound (whip_finished id remote_refused) bm i = close_stream-IsSound m id bm i
  step-IsSound (whip_finished id no_answer) bm i = close_stream-IsSound m id bm i
  step-IsSound (whip_finished id local_refused) bm i = close_stream-IsSound m id bm i
  step-IsSound (publisher_ended id) bm i = close_stream-IsSound m id bm i
  step-IsSound (old_closed h) bm i =
      if_cases Sound (is_closing h bm.closing)
        (λ e. close_handle-IsSound m h bm (λ n q. ground (arith, i.kept n h)) i) (λ e. i)
  step-IsSound (track_arrived h none) bm i = i
  step-IsSound (track_arrived h (some t)) bm i = set_stream-IsSound m h _ bm refl i
  step-IsSound (whep method path) bm i = begin_whep-IsSound method path bm i
  step-IsSound (subscriber_added h sub pc) bm i = set_stream-IsSound m h _ bm refl i
  step-IsSound (whep_finished h sub answered) bm i = i
  step-IsSound (whep_finished h sub remote_refused) bm i = remove_subscriber-IsSound h sub bm i
  step-IsSound (whep_finished h sub no_answer) bm i = remove_subscriber-IsSound h sub bm i
  step-IsSound (whep_finished h sub local_refused) bm i = remove_subscriber-IsSound h sub bm i
  step-IsSound (subscriber_ended h sub) bm i = remove_subscriber-IsSound h sub bm i

  run-IsSound : (es : List Event) (bm : BroadcastManager) → IsSound m bm → IsSound m (run es bm)
  unfolding run
  run-IsSound [] bm i = i
  run-IsSound (e ∷ es) bm i = run-IsSound es (step e bm).0 (step-IsSound e bm i)

new_broadcast_manager-IsSound :
    (max_streams : ℤ) → IsSound (limit max_streams) (new_broadcast_manager max_streams)
unfolding new_broadcast_manager get
new_broadcast_manager-IsSound max_streams = record {
  limited = refl;
  bounded = omega arith;
  unique = tt;
  single = λ j k h p q. cc;
  below = λ j h p. cc;
  live = λ j h p. cc;
  kept = λ j h p. cc;
  past = λ h p. cc;
}

-- From a new manager on, whatever comes in what order: there are at most as many streams as were
-- allowed, or two where that is not positive; no stream has two names; and a stream that has a name
-- is open, and no thread is about to close it.
pub run-new_broadcast_manager :
    (max_streams : ℤ) (es : List Event)
    → IsSound (limit max_streams) (run es (new_broadcast_manager max_streams))
run-new_broadcast_manager max_streams es =
    run-IsSound (limit max_streams) es (new_broadcast_manager max_streams)
      (new_broadcast_manager-IsSound max_streams)
