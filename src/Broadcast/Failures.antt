-- ===== src/Broadcast/Failures.antt =====
-- A publication that fails leaves nothing behind.
use p2pt_server.Prelude.{
  ℕ, String, Bool, true, false, none, some, List, [], ◌∷◌, ◌≡◌, ◌≢◌, refl, arith, eq_refl, ==_ne,
  Option, ◌++◌, map,
}
use p2pt_server.Broadcast.Held.{set_stream_same, IsHeld, AllSpare, run-IsHeld}
use p2pt_server.Clock.{Time}
use p2pt_server.GoMap.{get}
use p2pt_server.GoMap.Laws.{get-delete}
use p2pt_server.Broadcast.{
  BroadcastManager, Call, close_pc, Prepared, no_body, no_codecs, no_connection, connected,
  Negotiated, answered, remote_refused, no_answer, local_refused, no_stream, close_publisher,
  close_calls, close_handle, close_found, close_stream, reserve, prepare_publisher, finish_whip,
}
use p2pt_server.Broadcast.Events.{Event, run}
use p2pt_server.Broadcast.Sound.{get-reserve}

-- The connection that was made, if the attempt went so far.
unfoldable pub opened : Prepared → List Call
opened (connected pc) = close_pc pc ∷ []
opened _ = []

unfoldable pub has_failed : Prepared → Negotiated → Bool
has_failed (connected pc) answered = false
has_failed _ _ = true

pub connected_calls :
    (id : String) (now : Time) (pc : ℕ) (bm : BroadcastManager)
    → close_calls ((prepare_publisher id bm.made (connected pc) (reserve id now bm)).0.heap bm.made)
      ≡ close_pc pc ∷ []
unfolding prepare_publisher reserve close_calls
connected_calls id now pc bm =
    rw
      (
        set_stream_same bm.made
            (record ((reserve id now bm).heap bm.made) { publisher_pc = some pc })
            (reserve id now bm).heap,
        set_stream_same bm.made (record no_stream { id = id; created_at = now; cancelled = false })
            bm.heap,
      )
      refl

reserve-IsHeld_new :
    (id : String) (now : Time) (bm : BroadcastManager) → IsHeld id bm.made none (reserve id now bm)
unfolding reserve
reserve-IsHeld_new id now bm = record {
  named = rw (get-reserve id id now bm, eq_refl id) refl;
  connection =
      rw
        (set_stream_same bm.made (record no_stream { id = id; created_at = now; cancelled = false })
          bm.heap)
        refl;
  below = omega arith;
}

prepare-IsHeld :
    (id : String) (h pc : ℕ) (bm : BroadcastManager)
    → IsHeld id h none bm
    → IsHeld id h (some pc) (prepare_publisher id h (connected pc) bm).0
unfolding prepare_publisher
prepare-IsHeld id h pc bm w = record {
  named = w.named;
  connection = rw (set_stream_same h (record (bm.heap h) { publisher_pc = some pc }) bm.heap) refl;
  below = w.below;
}

-- A publication as its handler steps through it, with `es` before its connection is prepared and
-- `fs` before the negotiation ends: the manager before its last step, and what this step does.
abbrev pub publish_between :
    String
    → Time
    → List Event
    → Prepared
    → List Event
    → Negotiated
    → BroadcastManager
    → BroadcastManager × (BroadcastManager × List Call)
publish_between id now es (connected pc) fs n bm =
    let before =
      run fs (prepare_publisher id bm.made (connected pc) (run es (reserve id now bm))).0 in
    (before, finish_whip id n before)
publish_between id now es p fs n bm =
    let before = run es (reserve id now bm) in (before, prepare_publisher id bm.made p before)

-- Between `bm` and `r`, the name `id` was taken back from the stream `h`.
pub record IsFreed (id : String) (h : ℕ) (p : Prepared) (bm : BroadcastManager)
    (r : BroadcastManager × List Call) : Type 0 where
  pub listed : get id bm.streams ≡ some h
  pub unlisted : get id r.0.streams ≡ none
  pub untouched : (j : String) → id ≢ j → get j r.0.streams ≡ get j bm.streams
  pub cancelled : (r.0.heap h).cancelled ≡ true
  pub subscribers : List Call
  pub called : r.1 ≡ opened p ++ subscribers

close_stream-IsFreed :
    (id : String) (h : ℕ) (p : Prepared) (o : Option ℕ) (bm : BroadcastManager)
    → close_publisher o ≡ opened p
    → IsHeld id h o bm
    → IsFreed id h p bm (close_stream id bm)
unfolding close_stream close_found close_handle close_calls
close_stream-IsFreed id h p o bm e w = rw w.named (record {
  listed = w.named;
  unlisted = rw (get-delete id id bm.streams, eq_refl id) refl;
  untouched = λ j n. rw (get-delete j id bm.streams, ==_ne id j n) refl;
  cancelled =
      rw (set_stream_same h (record (bm.heap h) { cancelled = true; subscribers = [] }) bm.heap)
        refl;
  subscribers = map (λ (s : String × ℕ). close_pc s.1) (bm.heap h).subscribers;
  called = rw (w.connection, e) refl;
})

-- A publication fails, at whatever point, and in between there comes anything to the manager but
-- WHIP requests of its name, with what follows them, ends of publishers of its name, and other
-- connections for its stream: then the name, which the new stream has until then, is free again,
-- the last step leaves all other names as they are before it, the connection that was made, if
-- any, is closed, and the stream is ended.
pub publish-IsFreed :
    (id : String) (now : Time) (es : List Event) (p : Prepared) (fs : List Event) (n : Negotiated)
    (bm : BroadcastManager)
    → has_failed p n ≡ true
    → AllSpare id bm.made es
    → AllSpare id bm.made fs
    → let (before, r) = publish_between id now es p fs n bm in IsFreed id bm.made p before r
unfolding prepare_publisher finish_whip opened has_failed
publish-IsFreed id now es p fs n bm e a b = by_cases p n e
  where
    held : IsHeld id bm.made none (run es (reserve id now bm))
    held = run-IsHeld id bm.made none es (reserve id now bm) a (reserve-IsHeld_new id now bm)

    still :
        (pc : ℕ)
        → IsHeld id bm.made
            (some pc)
            (run fs (prepare_publisher id bm.made (connected pc) (run es (reserve id now bm))).0)
    still pc =
        run-IsHeld id bm.made (some pc) fs _ b
          (prepare-IsHeld id bm.made pc (run es (reserve id now bm)) held)

    by_cases :
        (p : Prepared) (n : Negotiated)
        → has_failed p n ≡ true
        → let (before, r) = publish_between id now es p fs n bm in IsFreed id bm.made p before r
    by_cases no_body n e = close_stream-IsFreed id bm.made no_body none _ refl held
    by_cases no_codecs n e = close_stream-IsFreed id bm.made no_codecs none _ refl held
    by_cases no_connection n e = close_stream-IsFreed id bm.made no_connection none _ refl held
    by_cases (connected pc) answered e = cc
    by_cases (connected pc) remote_refused e =
        close_stream-IsFreed id bm.made (connected pc) (some pc) _ refl (still pc)
    by_cases (connected pc) no_answer e =
        close_stream-IsFreed id bm.made (connected pc) (some pc) _ refl (still pc)
    by_cases (connected pc) local_refused e =
        close_stream-IsFreed id bm.made (connected pc) (some pc) _ refl (still pc)
