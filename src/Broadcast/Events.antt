-- ===== src/Broadcast/Events.antt =====
-- What comes to the broadcasts, from clients, from pion and from threads, in any order.
use p2pt_server.Prelude.{ℕ, String, Bool, false, ◌||◌, Option, List, [], ◌∷◌, eqb, if◌then◌else◌}
use p2pt_server.Clock.{Time}
use p2pt_server.Broadcast.{
  BroadcastManager, Call, Prepared, Negotiated, close_handle, close_stream, begin_whip,
  prepare_publisher, finish_whip, on_track, add_subscriber, remove_subscriber,
}
use p2pt_server.Broadcast.Whep.{begin_whep, finish_whep}

pub data Event : Type 0 where
  -- a request for /api/whip/: its method, its path and the time; and what follows for the stream
  whip : String → String → Time → Event
  whip_prepared : String → ℕ → Prepared → Event
  whip_finished : String → Negotiated → Event
  -- the publisher's connection has failed or is closed
  publisher_ended : String → Event
  -- a thread of `go existing.Close()` runs
  old_closed : ℕ → Event
  track_arrived : ℕ → Option ℕ → Event
  whep : String → String → Event
  subscriber_added : ℕ → String → ℕ → Event
  whep_finished : ℕ → String → Negotiated → Event
  subscriber_ended : ℕ → String → Event

abbrev pub is_closing : ℕ → List ℕ → Bool
is_closing h [] = false
is_closing h (j ∷ l) = eqb j h || is_closing h l

-- One thread of those that are to close `h`.
unfoldable pub finish_closing : ℕ → BroadcastManager → BroadcastManager × List Call
finish_closing h bm = if is_closing h bm.closing then close_handle h bm else (bm, [])

unfoldable pub step : Event → BroadcastManager → BroadcastManager × List Call
step (whip method path now) bm = (begin_whip method path now bm).0
step (whip_prepared id h p) bm = prepare_publisher id h p bm
step (whip_finished id n) bm = finish_whip id n bm
step (publisher_ended id) bm = close_stream id bm
step (old_closed h) bm = finish_closing h bm
step (track_arrived h t) bm = on_track h t bm
step (whep method path) bm = (begin_whep method path bm).0
step (subscriber_added h sub pc) bm = (add_subscriber h sub pc bm, [])
step (whep_finished h sub n) bm = finish_whep h sub n bm
step (subscriber_ended h sub) bm = remove_subscriber h sub bm

unfoldable pub run : List Event → BroadcastManager → BroadcastManager
run [] bm = bm
run (e ∷ es) bm = run es (step e bm).0
