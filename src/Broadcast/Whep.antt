-- ===== src/Broadcast/Whep.antt =====
-- broadcast_relay.go: `HandleWHEP`, up to the answer of pion.
use p2pt_server.Prelude.{
  ℕ, String, not, Option, none, some, List, [], ◌∷◌, map, ◌==◌, if◌then◌else◌,
}
use p2pt_server.GoMap.{get}
use p2pt_server.GoText.{trim_char, split}
use p2pt_server.Broadcast.{
  BroadcastManager, Call, add_track, Prepared, connected, Negotiated, answered, remote_refused,
  no_answer, local_refused, remove_subscriber,
}

-- What HandleWHEP comes to before the offer is read: an answer, or the stream.
pub data WhepStart : Type 0 where
  preflight_ok : WhepStart
  id_required : WhepStart
  not_found : WhepStart
  removed : WhepStart
  not_allowed : WhepStart
  subscribing : ℕ → WhepStart

-- The names in the path api/whep/{streamId}/{subscriberId}.
unfoldable pub whep_names : List String → Option (String × Option String)
whep_names (api ∷ whep ∷ id ∷ []) = some (id, none)
whep_names (api ∷ whep ∷ id ∷ sub ∷ rest) = some (id, some sub)
whep_names _ = none

abbrev pub remove_named : ℕ → Option String → BroadcastManager → BroadcastManager × List Call
remove_named h none bm = (bm, [])
remove_named h (some sub) bm = remove_subscriber h sub bm

abbrev pub begin_whep_at :
    String
    → Option ℕ
    → Option String
    → BroadcastManager
    → (BroadcastManager × List Call) × WhepStart
begin_whep_at method none sub bm = ((bm, []), not_found)
begin_whep_at method (some h) sub bm =
    if method == "DELETE"
    then (remove_named h sub bm, removed)
    else if not (method == "POST")
    then ((bm, []), not_allowed)
    else ((bm, []), subscribing h)

abbrev pub begin_whep_named :
    String
    → Option (String × Option String)
    → BroadcastManager
    → (BroadcastManager × List Call) × WhepStart
begin_whep_named method none bm = ((bm, []), id_required)
begin_whep_named method (some (id, sub)) bm = begin_whep_at method (get id bm.streams) sub bm

unfoldable pub begin_whep :
    String → String → BroadcastManager → (BroadcastManager × List Call) × WhepStart
begin_whep method path bm =
    if method == "OPTIONS"
    then ((bm, []), preflight_ok)
    else begin_whep_named method (whep_names (split "/" (trim_char "/" path))) bm

-- Up to the subscriber's connection, which is given the tracks that the stream has.
unfoldable pub prepare_subscriber : ℕ → Prepared → BroadcastManager → List Call
prepare_subscriber h (connected pc) bm = map (add_track pc) (bm.heap h).local_tracks
prepare_subscriber h _ bm = []

unfoldable pub finish_whep :
    ℕ → String → Negotiated → BroadcastManager → BroadcastManager × List Call
finish_whep h sub answered bm = (bm, [])
finish_whep h sub remote_refused bm = remove_subscriber h sub bm
finish_whep h sub no_answer bm = remove_subscriber h sub bm
finish_whep h sub local_refused bm = remove_subscriber h sub bm
