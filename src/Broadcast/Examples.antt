-- ===== src/Broadcast/Examples.antt =====
-- Broadcasts on concrete inputs.
use p2pt_server.Prelude.{String, ◌≢◌, arith, eq_iff, some, List, [], ◌∷◌, ◌≡◌, refl}
use p2pt_server.GoMap.{get, put, delete}
use p2pt_server.GoText.{
  pos, strip_prefix?, trim_space, trim_left, trim_right, trim_char, drop_char, drop_last, split,
}
use p2pt_server.Broadcast.{
  BroadcastManager, connected, answered, no_answer, new_broadcast_manager, close_handle,
  close_stream, close_found, close_calls, close_pc, set_stream, reserve, begin_whip, whip_id,
  prepare_publisher, finish_whip, publish, limit, limit_reached, add_subscriber, on_track,
}
use p2pt_server.Broadcast.Whep.{whep_names}
use p2pt_server.Broadcast.Events.{
  Event, whip, whip_prepared, whip_finished, old_closed, track_arrived, subscriber_added,
  finish_closing, step, run,
}
use p2pt_server.Broadcast.Sound.{IsSound}
use p2pt_server.Broadcast.Bounds.{run-new_broadcast_manager}
use p2pt_server.Broadcast.Failures.{IsFreed, has_failed, publish_between, publish-IsFreed}
use p2pt_server.Broadcast.Held.{Spares}
use p2pt_server.Broadcast.Republish.{IsUndone, publish-IsUndone}

abbrev events : List Event
events =
    whip "POST" "/api/whip/ cam " 7
    ∷ whip_prepared "cam" 0 (connected 100)
    ∷ whip_finished "cam" answered
    ∷ track_arrived 0 (some 5)
    ∷ subscriber_added 0 "sub" 101
    ∷ whip "POST" "/api/whip/cam" 8
    ∷ old_closed 0
    ∷ whip "POST" "/api/whip/yard" 9
    ∷ []

abbrev after_events : BroadcastManager
after_events = run events (new_broadcast_manager (pos 2))

-- Both names are taken: the second stream has replaced the first, the third has the number 2.
streams_after : after_events.streams ≡ ("cam", 1) ∷ ("yard", 2) ∷ []
unfolding run step begin_whip whip_id trim_space trim_left trim_right strip_prefix? reserve get put
    delete prepare_publisher finish_whip on_track finish_closing close_handle new_broadcast_manager
    add_subscriber
streams_after = refl

-- At the limit the publisher of a stream cannot publish it again.
full : (begin_whip "POST" "/api/whip/cam" 10 after_events).1 ≡ limit_reached
unfolding run step begin_whip whip_id trim_space trim_left trim_right strip_prefix? reserve get put
    delete prepare_publisher finish_whip on_track finish_closing close_handle new_broadcast_manager
    add_subscriber
full = refl

-- A path with a subscriber and slashes at its ends.
subscriber_path :
    whep_names (split "/" (trim_char "/" "/api/whep/cam/sub/")) ≡ some ("cam", some "sub")
unfolding whep_names split trim_char drop_char drop_last
subscriber_path = refl

run-new_broadcast_manager_example :
    IsSound (limit (pos 2)) (run events (new_broadcast_manager (pos 2)))
run-new_broadcast_manager_example = run-new_broadcast_manager (pos 2) events

-- Another stream comes in between, and a subscriber of this one.
abbrev meanwhile : List Event
meanwhile = subscriber_added 2 "sub" 101 ∷ whip_finished "yard" answered ∷ []

publish-IsFreed_example :
    let (before, r) =
      publish_between "cam" 10 meanwhile (connected 200) meanwhile no_answer after_events in
    IsFreed "cam" after_events.made (connected 200) before r
unfolding Spares has_failed
publish-IsFreed_example =
    publish-IsFreed "cam" 10 meanwhile (connected 200) meanwhile no_answer after_events refl
      (tt, (apart, tt)) (tt, (apart, tt))
  where
    apart : ◌≢◌ {A = String} "yard" "cam"
    apart = ground (arith, eq_iff "yard" "cam")

-- Two publications of one name at once: the first one fails, and closes the other's connection.
abbrev overtaken : BroadcastManager
overtaken =
    run
      (whip "POST" "/api/whip/cam" 7
        ∷ whip "POST" "/api/whip/cam" 8
        ∷ old_closed 0
        ∷ whip_prepared "cam" 0 (connected 100)
        ∷ whip_prepared "cam" 1 (connected 101)
        ∷ [])
      (new_broadcast_manager (pos 3))

other_is_closed : (finish_whip "cam" no_answer overtaken).1 ≡ close_pc 101 ∷ []
unfolding run step begin_whip whip_id trim_space trim_left trim_right strip_prefix? reserve get put
    delete prepare_publisher finish_whip close_stream close_found close_handle close_calls
    set_stream finish_closing new_broadcast_manager
other_is_closed = refl

-- One stream that is published, with a third place left.
abbrev one_stream : BroadcastManager
one_stream =
    run (whip "POST" "/api/whip/cam" 7 ∷ whip_prepared "cam" 0 (connected 100) ∷ [])
      (new_broadcast_manager (pos 3))

publish-IsUndone_example :
    (let first = publish "cam" 8 (connected 101) answered one_stream in
      let second = finish_closing 0 first.0 in
      IsUndone "cam" 0 101 one_stream first second (close_stream "cam" second.0))
unfolding run step begin_whip whip_id trim_space trim_left trim_right strip_prefix? reserve get put
    delete prepare_publisher new_broadcast_manager
publish-IsUndone_example =
    publish-IsUndone 3 "cam" 8 0 101 one_stream
      (run-new_broadcast_manager (pos 3)
        (whip "POST" "/api/whip/cam" 7 ∷ whip_prepared "cam" 0 (connected 100) ∷ []))
      refl
