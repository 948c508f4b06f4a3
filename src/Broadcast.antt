-- ===== src/Broadcast.antt =====
-- broadcast_relay.go: streams with one publisher and their subscribers.
--
-- A `*BroadcastStream` is the number under which it was made, and `heap` holds what the pointer leads
-- to. A `PeerConnection` is a number that the package pion gives out; what it is told is a result, a
-- list of calls. `HandleWHIP` and `HandleWHEP` are cut where other handlers can come in between: into
-- what they do under the manager's mutex, up to the connection, and with the answer of pion.
-- `closing` are the streams that `go existing.Close()` has been started for and has not run yet. The
-- connections of a stream's subscribers are closed in some order.
pub mod Whep
pub mod Events
pub mod Sound
pub mod Bounds
pub mod Held
pub mod Failures
pub mod Republish
mod Examples
use p2pt_server.Prelude.{
  ℕ, zero, suc, ◌+◌, String, Bool, true, false, not, Option, none, some, List, [], ◌∷◌, ◌++◌, map,
  ◌==◌, eqb, leb, get_or, length, if◌then◌else◌,
}
use p2pt_server.Clock.{Time}
use p2pt_server.GoMap.{GoMap, get, put, delete, size}
use p2pt_server.GoText.{ℤ, pos, negsuc, strip_prefix?, trim_space, trim_char, split}

pub record BroadcastStream : Type 0 where
  pub id : String
  pub publisher_pc : Option ℕ
  pub local_tracks : List ℕ
  pub subscribers : GoMap ℕ
  pub created_at : Time
  -- whether the context is done
  pub cancelled : Bool

pub record BroadcastManager : Type 0 where
  pub streams : GoMap ℕ
  pub max_streams : ℕ
  pub heap : ℕ → BroadcastStream
  -- the number of streams made so far
  pub made : ℕ
  pub closing : List ℕ

-- What a connection is told.
pub data Call : Type 0 where
  add_track : ℕ → ℕ → Call
  close_pc : ℕ → Call

abbrev pub no_stream : BroadcastStream
no_stream = record {
  id = "";
  publisher_pc = none;
  local_tracks = [];
  subscribers = [];
  created_at = 0;
  cancelled = true;
}

abbrev pub limit : ℤ → ℕ
limit (pos zero) = 2
limit (pos (suc n)) = suc n
limit (negsuc n) = 2

unfoldable pub new_broadcast_manager : ℤ → BroadcastManager
new_broadcast_manager max_streams = record {
  streams = [];
  max_streams = limit max_streams;
  heap = λ h. no_stream;
  made = 0;
  closing = [];
}

unfoldable pub set_stream : ℕ → BroadcastStream → (ℕ → BroadcastStream) → ℕ → BroadcastStream
set_stream h s heap j = if eqb h j then s else heap j

abbrev pub close_publisher : Option ℕ → List Call
close_publisher none = []
close_publisher (some pc) = close_pc pc ∷ []

unfoldable pub close_calls : BroadcastStream → List Call
close_calls s =
    close_publisher s.publisher_pc ++ map (λ (e : String × ℕ). close_pc e.1) s.subscribers

-- BroadcastStream.Close
unfoldable pub close_handle : ℕ → BroadcastManager → BroadcastManager × List Call
close_handle h bm = (
  record bm {
    heap = set_stream h (record (bm.heap h) { cancelled = true; subscribers = [] }) bm.heap;
  },
  close_calls (bm.heap h),
)

unfoldable pub close_found : String → Option ℕ → BroadcastManager → BroadcastManager × List Call
close_found id none bm = (bm, [])
close_found id (some h) bm = close_handle h (record bm { streams = delete id bm.streams })

unfoldable pub close_stream : String → BroadcastManager → BroadcastManager × List Call
close_stream id bm = close_found id (get id bm.streams) bm

unfoldable pub add_subscriber : ℕ → String → ℕ → BroadcastManager → BroadcastManager
add_subscriber h sub pc bm = record bm {
  heap =
      set_stream h (record (bm.heap h) { subscribers = put sub pc (bm.heap h).subscribers })
        bm.heap;
}

abbrev pub remove_found : ℕ → String → Option ℕ → BroadcastManager → BroadcastManager × List Call
remove_found h sub none bm = (bm, [])
remove_found h sub (some pc) bm = (
  record bm {
    heap =
        set_stream h (record (bm.heap h) { subscribers = delete sub (bm.heap h).subscribers })
          bm.heap;
  },
  close_pc pc ∷ [],
)

unfoldable pub remove_subscriber : ℕ → String → BroadcastManager → BroadcastManager × List Call
remove_subscriber h sub bm = remove_found h sub (get sub (bm.heap h).subscribers) bm

unfoldable pub active_streams_count : BroadcastManager → ℕ
active_streams_count bm = size bm.streams

-- What HandleWHIP comes to under the mutex: an answer, or a new stream for the name.
pub data WhipStart : Type 0 where
  preflight_ok : WhipStart
  id_required : WhipStart
  deleted : WhipStart
  not_allowed : WhipStart
  limit_reached : WhipStart
  reserved : String → ℕ → WhipStart

abbrev pub replaced : Option ℕ → List ℕ → List ℕ
replaced none closing = closing
replaced (some h) closing = h ∷ closing

-- The new stream; one that has the name is closed in a thread of its own.
unfoldable pub reserve : String → Time → BroadcastManager → BroadcastManager
reserve id now bm = record bm {
  streams = put id bm.made (delete id bm.streams);
  heap =
      set_stream bm.made (record no_stream { id = id; created_at = now; cancelled = false })
        bm.heap;
  made = suc bm.made;
  closing = replaced (get id bm.streams) bm.closing;
}

unfoldable pub whip_id : String → String
whip_id path = trim_space (get_or path (strip_prefix? "/api/whip/" path))

unfoldable pub begin_whip :
    String → String → Time → BroadcastManager → (BroadcastManager × List Call) × WhipStart
begin_whip method path now bm =
    let id = whip_id path in
    if method == "OPTIONS"
    then ((bm, []), preflight_ok)
    else if id == ""
    then ((bm, []), id_required)
    else if method == "DELETE"
    then (close_stream id bm, deleted)
    else if not (method == "POST")
    then ((bm, []), not_allowed)
    else if leb bm.max_streams (size bm.streams)
    then ((bm, []), limit_reached)
    else ((reserve id now bm, []), reserved id bm.made)

-- Up to the connection: what is wrong with the offer, or the connection that pion has made.
pub data Prepared : Type 0 where
  no_body : Prepared
  no_codecs : Prepared
  no_connection : Prepared
  connected : ℕ → Prepared

unfoldable pub prepare_publisher :
    String → ℕ → Prepared → BroadcastManager → BroadcastManager × List Call
prepare_publisher id h (connected pc) bm =
    (record bm { heap = set_stream h (record (bm.heap h) { publisher_pc = some pc }) bm.heap }, [])
prepare_publisher id h no_body bm = close_stream id bm
prepare_publisher id h no_codecs bm = close_stream id bm
prepare_publisher id h no_connection bm = close_stream id bm

-- What pion makes of the offer.
pub data Negotiated : Type 0 where
  remote_refused : Negotiated
  no_answer : Negotiated
  local_refused : Negotiated
  answered : Negotiated

unfoldable pub finish_whip : String → Negotiated → BroadcastManager → BroadcastManager × List Call
finish_whip id answered bm = (bm, [])
finish_whip id remote_refused bm = close_stream id bm
finish_whip id no_answer bm = close_stream id bm
finish_whip id local_refused bm = close_stream id bm

-- A publication with nothing in between, from the new stream on.
unfoldable pub publish :
    String → Time → Prepared → Negotiated → BroadcastManager → BroadcastManager × List Call
publish id now (connected pc) n bm =
    finish_whip id n (prepare_publisher id bm.made (connected pc) (reserve id now bm)).0
publish id now p n bm = prepare_publisher id bm.made p (reserve id now bm)

-- OnTrack: a local track for the remote one, if it could be made.
unfoldable pub on_track : ℕ → Option ℕ → BroadcastManager → BroadcastManager × List Call
on_track h none bm = (bm, [])
on_track h (some track) bm = (
  record bm {
    heap =
        set_stream h
          (record (bm.heap h) { local_tracks = (bm.heap h).local_tracks ++ (track ∷ []) }) bm.heap;
  },
  map (λ (e : String × ℕ). add_track e.1 track) (bm.heap h).subscribers,
)
