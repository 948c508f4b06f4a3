-- ===== src/RelayRing/Race.antt =====
-- ring_relay.go: `Close`, `deliver` and `WriteTo` of one virtual connection, which run in threads of
-- their own. Each step is one access to what they share: the flag `closed`, the routes under the
-- node's mutex, and the channel. `routed` says whether the node finds the connection, by a route or
-- among the active ones.
use p2pt_server.Prelude.{ℕ, suc, ◌<◌, Bool, true, false, ◌≡◌, refl, ◌≢◌, ltb}
use p2pt_server.RelayRing.{capacity}

-- Where the socket's reader stands: it looks for a target, is about to read its flag, and is about to
-- send.
pub data Receiver : Type 0 where
  waiting found sending : Receiver

-- Where `Close` stands: before the flag, the routes and the channel, and at the end.
pub data Closer : Type 0 where
  unclosed flagged unrouted finished : Closer

-- Where a call of `WriteTo` stands: before its test of the flag, and before its route.
pub data Writer : Type 0 where
  writing routing : Writer

pub record Shared : Type 0 where
  pub receiver : Receiver
  pub closer : Closer
  pub writer : Writer
  pub flag : Bool
  pub routed : Bool
  pub channel_closed : Bool
  pub queued : ℕ
  -- a send on a closed channel ends the program
  pub panicked : Bool

-- `waiting` and a packet that some other connection gets are the same.
pub data Move (s : Shared) : Shared → Type 0 where
  find :
      s.receiver ≡ Receiver.waiting
      → s.routed ≡ true
      → Move s (record s { receiver = Receiver.found })
  refuse :
      s.receiver ≡ Receiver.found
      → s.flag ≡ true
      → Move s (record s { receiver = Receiver.waiting })
  accept :
      s.receiver ≡ Receiver.found
      → s.flag ≡ false
      → Move s (record s { receiver = Receiver.sending })
  enqueue :
      s.receiver ≡ Receiver.sending
      → s.channel_closed ≡ false
      → s.queued < capacity
      → Move s (record s { receiver = Receiver.waiting; queued = suc s.queued })
  drop :
      s.receiver ≡ Receiver.sending
      → s.channel_closed ≡ false
      → ltb s.queued capacity ≡ false
      → Move s (record s { receiver = Receiver.waiting })
  crash :
      s.receiver ≡ Receiver.sending
      → s.channel_closed ≡ true
      → Move s (record s { panicked = true })
  set_flag : s.closer ≡ Closer.unclosed → Move s (record s { closer = Closer.flagged; flag = true })
  unroute :
      s.closer ≡ Closer.flagged → Move s (record s { closer = Closer.unrouted; routed = false })
  close_channel :
      s.closer ≡ Closer.unrouted
      → Move s (record s { closer = Closer.finished; channel_closed = true })
  give_up : s.writer ≡ Writer.writing → s.flag ≡ true → Move s s
  go_on : s.writer ≡ Writer.writing → s.flag ≡ false → Move s (record s { writer = Writer.routing })
  route : s.writer ≡ Writer.routing → Move s (record s { writer = Writer.writing; routed = true })

-- What can come of a state, whoever moves when.
pub data Reach (s : Shared) : Shared → Type 0 where
  here : Reach s s
  later : {t u : Shared} → Reach s t → Move t u → Reach s u

-- While the reader of the socket waits, and a connection is open, found by its node and not being
-- closed, a packet for it can be overtaken by Close, and the program ends.
panic_reachable :
    (s : Shared)
    → s.receiver ≡ Receiver.waiting
    → s.closer ≡ Closer.unclosed
    → s.flag ≡ false
    → s.routed ≡ true
    → (t : Shared) × Reach s t × (t.panicked ≡ true)
panic_reachable s w u f r = (
  _,
  later
      (later
        (later (later (later (later here (find w r)) (accept refl f)) (set_flag u)) (unroute refl))
        (close_channel refl))
      (crash refl refl),
  refl,
)

-- The flag is read before the send, so that only a send that was under way when `Close` began can meet
-- the closed channel.
record Shut (s : Shared) : Type 0 where
  flagged : s.flag ≡ true
  past : s.receiver ≢ Receiver.sending
  alive : s.panicked ≡ false

Move-Shut : {s t : Shared} → Move s t → Shut s → Shut t
Move-Shut (find w r) h = record { flagged = h.flagged; past = λ e. cc; alive = h.alive }
Move-Shut (refuse w r) h = record { flagged = h.flagged; past = λ e. cc; alive = h.alive }
Move-Shut (accept w r) h = absurd (cc (r, h.flagged))
Move-Shut (enqueue w c q) h = absurd (h.past w)
Move-Shut (drop w c q) h = absurd (h.past w)
Move-Shut (crash w c) h = absurd (h.past w)
Move-Shut (set_flag u) h = record { flagged = refl; past = h.past; alive = h.alive }
Move-Shut (unroute u) h = record { flagged = h.flagged; past = h.past; alive = h.alive }
Move-Shut (close_channel u) h = record { flagged = h.flagged; past = h.past; alive = h.alive }
Move-Shut (give_up w f) h = h
Move-Shut (go_on w f) h = record { flagged = h.flagged; past = h.past; alive = h.alive }
Move-Shut (route w) h = record { flagged = h.flagged; past = h.past; alive = h.alive }

Reach-Shut : {s t : Shared} → Reach s t → Shut s → Shut t
Reach-Shut here h = h
Reach-Shut (later r m) h = Move-Shut m (Reach-Shut r h)

-- Once a connection is flagged as closed and no send to it is under way, the program does not end,
-- whoever moves when.
closed_never_panics :
    (s t : Shared)
    → s.flag ≡ true
    → s.receiver ≢ Receiver.sending
    → s.panicked ≡ false
    → Reach s t
    → t.panicked ≡ false
closed_never_panics s t f p a r = (Reach-Shut r (record { flagged = f; past = p; alive = a })).alive

-- A write that passed its test before `Close` leaves a route to the closed connection behind.
pub stale_route :
    (s : Shared)
    → s.writer ≡ Writer.writing
    → s.closer ≡ Closer.unclosed
    → s.flag ≡ false
    → (t : Shared) × Reach s t × (t.closer ≡ Closer.finished) × (t.routed ≡ true)
stale_route s w u f = (
  _,
  later
      (later (later (later (later here (go_on w f)) (set_flag u)) (unroute refl))
        (close_channel refl))
      (route refl),
  refl,
  refl,
)
