-- ===== src/Broadcast/Republish.antt =====
-- A stream that is published again under its name.
use p2pt_server.Prelude.{
  ℕ, String, true, false, none, some, List, [], ◌∷◌, ◌≡◌, ap, ◌∙◌, eqb, refl, arith, eq_refl,
}
use p2pt_server.Clock.{Time}
use p2pt_server.GoMap.{get, delete}
use p2pt_server.GoMap.Laws.{get-delete}
use p2pt_server.Broadcast.{
  BroadcastManager, BroadcastStream, Call, close_pc, connected, answered, set_stream, close_calls,
  close_handle, close_found, close_stream, reserve, prepare_publisher, finish_whip, publish,
}
use p2pt_server.Broadcast.Events.{finish_closing}
use p2pt_server.Broadcast.Sound.{IsSound, get-reserve}
use p2pt_server.Broadcast.Failures.{connected_calls}
use p2pt_server.Broadcast.Held.{set_stream_same, eqb_refl}

set_stream_other :
    (h j : ℕ) (s : BroadcastStream) (heap : ℕ → BroadcastStream)
    → eqb h j ≡ false
    → set_stream h s heap j ≡ heap j
unfolding set_stream
set_stream_other h j s heap e = rw (e) refl

abbrev published : String → Time → ℕ → BroadcastManager → BroadcastManager × List Call
published id now pc bm = publish id now (connected pc) answered bm

get-published :
    (id : String) (now : Time) (pc : ℕ) (bm : BroadcastManager)
    → get id (published id now pc bm).0.streams ≡ some bm.made
unfolding publish prepare_publisher finish_whip
get-published id now pc bm = rw (get-reserve id id now bm, eq_refl id) refl

calls-published :
    (id : String) (now : Time) (pc : ℕ) (bm : BroadcastManager)
    → close_calls ((published id now pc bm).0.heap bm.made) ≡ close_pc pc ∷ []
unfolding publish finish_whip
calls-published id now pc bm = connected_calls id now pc bm

heap-published :
    (id : String) (now : Time) (pc old : ℕ) (bm : BroadcastManager)
    → eqb bm.made old ≡ false
    → (published id now pc bm).0.heap old ≡ bm.heap old
unfolding publish prepare_publisher finish_whip reserve
heap-published id now pc old bm e =
    set_stream_other bm.made old _ _ e ∙ set_stream_other bm.made old _ bm.heap e

-- The thread is under way.
closing-published :
    (id : String) (now : Time) (pc old : ℕ) (bm : BroadcastManager)
    → get id bm.streams ≡ some old
    → finish_closing old (published id now pc bm).0 ≡ close_handle old (published id now pc bm).0
unfolding publish prepare_publisher finish_whip reserve finish_closing
closing-published id now pc old bm e = rw (e, eqb_refl old) refl

-- A stream that has the name `id` and is closed by it.
close_stream-listed :
    (id : String) (h : ℕ) (bm : BroadcastManager)
    → get id bm.streams ≡ some h
    → close_stream id bm ≡ close_handle h (record bm { streams = delete id bm.streams })
unfolding close_stream close_found
close_stream-listed id h bm e = rw (e) refl

-- What comes of a name `id` that `old` had and that is published again with the connection `pc`: first
-- the new publication, then the thread that closes the old stream, then the end of the old
-- publisher's connection, which pion reports when it is closed.
pub record IsUndone (id : String) (old pc : ℕ) (bm : BroadcastManager)
    (first second third : BroadcastManager × List Call) : Type 0 where
  pub replaced : get id first.0.streams ≡ some bm.made
  pub old_calls : second.1 ≡ close_calls (bm.heap old)
  pub new_calls : third.1 ≡ close_pc pc ∷ []
  pub gone : get id third.0.streams ≡ none
  pub cancelled : (third.0.heap bm.made).cancelled ≡ true

-- In a sound manager, a stream that is published again under its name is closed by the end of the
-- publisher that it has replaced.
pub publish-IsUndone :
    (m : ℕ) (id : String) (now : Time) (old pc : ℕ) (bm : BroadcastManager)
    → IsSound m bm
    → get id bm.streams ≡ some old
    → (let first = publish id now (connected pc) answered bm in
        let second = finish_closing old first.0 in
        IsUndone id old pc bm first second (close_stream id second.0))
unfolding close_handle
publish-IsUndone m id now old pc bm i e =
    let first = published id now pc bm in
    let apart : eqb bm.made old ≡ false = ground (arith, i.below id old e) in
    let apart' : eqb old bm.made ≡ false = ground (arith, i.below id old e) in
    rw
      (
        closing-published id now pc old bm e,
        close_stream-listed id bm.made (close_handle old first.0).0 (get-published id now pc bm),
      )
      (record {
        replaced = get-published id now pc bm;
        old_calls = rw (heap-published id now pc old bm apart) refl;
        new_calls =
            ap close_calls (set_stream_other old bm.made _ first.0.heap apart')
            ∙ calls-published id now pc bm;
        gone = rw (get-delete id id first.0.streams, eq_refl id) refl;
        cancelled = ap (λ (s : BroadcastStream). s.cancelled) (set_stream_same bm.made _ _);
      })
