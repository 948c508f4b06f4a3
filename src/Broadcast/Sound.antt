-- ===== src/Broadcast/Sound.antt =====
-- What holds of the broadcasts at all times, and the steps that keep it.
use p2pt_server.Prelude.{
  ℕ, suc, ◌≤◌, ◌<◌, String, true, false, Option, none, some, List, [], ◌==◌, ◌≡◌, ◌≢◌, ◌∙◌, eqb,
  leb, ap, refl, arith, inl, inr, eq_iff, if_cases, Bool-cases, if◌then◌else◌,
}
use p2pt_server.Clock.{Time}
use p2pt_server.GoMap.{GoMap, get, delete, size, IsUnique}
use p2pt_server.GoMap.Laws.{
  get-put, get-delete, put-IsUnique, delete-IsUnique, size-put, size-delete,
}
use p2pt_server.Broadcast.{
  BroadcastManager, BroadcastStream, no_stream, set_stream, close_handle, close_found, close_stream,
  reserve, replaced,
}
use p2pt_server.Broadcast.Events.{is_closing}

-- There are at most `m` streams, the limit that was set, no stream has two names, and none that has a name is closed
-- or about to be closed by a thread.
pub record IsSound (m : ℕ) (bm : BroadcastManager) : Type 0 where
  pub limited : bm.max_streams ≡ m
  pub bounded : size bm.streams ≤ m
  pub unique : IsUnique bm.streams
  pub single :
      (i j : String) (h : ℕ) → get i bm.streams ≡ some h → get j bm.streams ≡ some h → i ≡ j
  pub below : (i : String) (h : ℕ) → get i bm.streams ≡ some h → h < bm.made
  pub live : (i : String) (h : ℕ) → get i bm.streams ≡ some h → (bm.heap h).cancelled ≡ false
  pub kept : (i : String) (h : ℕ) → get i bm.streams ≡ some h → is_closing h bm.closing ≡ false
  pub past : (h : ℕ) → is_closing h bm.closing ≡ true → h < bm.made

eqb→eq : (a b : ℕ) → eqb a b ≡ true → a ≡ b
eqb→eq a b e = ground arith

cancelled-set_stream :
    (h j : ℕ) (s : BroadcastStream) (heap : ℕ → BroadcastStream)
    → (set_stream h s heap j).cancelled ≡ (if eqb h j then s.cancelled else (heap j).cancelled)
unfolding set_stream
cancelled-set_stream h j s heap =
    if_cases
      (λ (t : BroadcastStream). t.cancelled ≡ (if eqb h j then s.cancelled else (heap j).cancelled))
      (eqb h j) (λ e. rw (e) refl) (λ e. rw (e) refl)

get_kept :
    (id j : String) (h : ℕ) (m : GoMap ℕ)
    → get j (delete id m) ≡ some h
    → (get j m ≡ some h) × (id ≢ j)
get_kept id j h m p =
    (ground (arith, get-delete j id m), ground (arith, get-delete j id m, eq_iff id j))

size-delete_le : (id : String) (m : GoMap ℕ) → IsUnique m → size (delete id m) ≤ size m
size-delete_le id m u = ground (arith, size-delete id m u)

pub get-reserve :
    (id j : String) (now : Time) (bm : BroadcastManager)
    → get j (reserve id now bm).streams ≡ (if id == j then some bm.made else get j bm.streams)
unfolding reserve
get-reserve id j now bm =
    ground (arith, get-put j id bm.made (delete id bm.streams), get-delete j id bm.streams)

-- The threads that are to close a stream, with one more if the name was taken.
replaced_not :
    (h : ℕ) (o : Option ℕ) (l : List ℕ)
    → o ≢ some h
    → is_closing h l ≡ false
    → is_closing h (replaced o l) ≡ false
replaced_not h none l n e = e
replaced_not h (some k) l n e = elim (Bool-cases (eqb k h)) [
  | inl c ↦ absurd (n (ap some (eqb→eq k h c)))
  | inr c ↦ rw (c) e
]

replaced_past :
    (h made : ℕ) (o : Option ℕ) (l : List ℕ)
    → ((k : ℕ) → o ≡ some k → k < made)
    → (is_closing h l ≡ true → h < made)
    → is_closing h (replaced o l) ≡ true
    → h < suc made
replaced_past h made none l f g e = ground arith
replaced_past h made (some k) l f g e = ground (arith, f k refl)

module _ (m : ℕ) where
  -- A change to a stream that does not close it.
  pub set_stream-IsSound :
      (h : ℕ) (s : BroadcastStream) (bm : BroadcastManager)
      → s.cancelled ≡ (bm.heap h).cancelled
      → IsSound m bm
      → IsSound m (record bm { heap = set_stream h s bm.heap })
  set_stream-IsSound h s bm e i = record {
    limited = i.limited;
    bounded = i.bounded;
    unique = i.unique;
    single = i.single;
    below = i.below;
    live = λ n j q. rw (cancelled-set_stream h j s bm.heap) (
        if_cases (λ b. b ≡ false) (eqb h j) (λ c. e ∙ i.live n h (rw (eqb→eq h j c) q))
          (λ c. i.live n j q));
    kept = i.kept;
    past = i.past;
  }

  -- A stream without a name may be closed.
  pub close_handle-IsSound :
      (h : ℕ) (bm : BroadcastManager)
      → ((i : String) → get i bm.streams ≢ some h)
      → IsSound m bm
      → IsSound m (close_handle h bm).0
  unfolding close_handle
  close_handle-IsSound h bm f i = record {
    limited = i.limited;
    bounded = i.bounded;
    unique = i.unique;
    single = i.single;
    below = i.below;
    live = λ n j q.
        rw
          (cancelled-set_stream h j (record (bm.heap h) { cancelled = true; subscribers = [] })
            bm.heap)
          (if_cases (λ b. b ≡ false) (eqb h j) (λ c. absurd (f n (rw (eqb→eq h j c) q)))
            (λ c. i.live n j q));
    kept = i.kept;
    past = i.past;
  }

  delete-IsSound :
      (id : String) (bm : BroadcastManager)
      → IsSound m bm
      → IsSound m (record bm { streams = delete id bm.streams })
  delete-IsSound id bm i = record {
    limited = i.limited;
    bounded = ground (arith, size-delete_le id bm.streams i.unique, i.bounded);
    unique = delete-IsUnique id bm.streams i.unique;
    single = λ j k h p q.
        i.single j k h (get_kept id j h bm.streams p).0 (get_kept id k h bm.streams q).0;
    below = λ j h p. i.below j h (get_kept id j h bm.streams p).0;
    live = λ j h p. i.live j h (get_kept id j h bm.streams p).0;
    kept = λ j h p. i.kept j h (get_kept id j h bm.streams p).0;
    past = i.past;
  }

  close_found-IsSound :
      (id : String) (o : Option ℕ) (bm : BroadcastManager)
      → get id bm.streams ≡ o
      → IsSound m bm
      → IsSound m (close_found id o bm).0
  unfolding close_found
  close_found-IsSound id none bm e i = i
  close_found-IsSound id (some h) bm e i =
      close_handle-IsSound h (record bm { streams = delete id bm.streams })
        (λ j p. let (q, n) = get_kept id j h bm.streams p in n (i.single id j h e q))
        (delete-IsSound id bm i)

  pub close_stream-IsSound :
      (id : String) (bm : BroadcastManager) → IsSound m bm → IsSound m (close_stream id bm).0
  unfolding close_stream
  close_stream-IsSound id bm i = close_found-IsSound id (get id bm.streams) bm refl i

  pub reserve-IsSound :
      (id : String) (now : Time) (bm : BroadcastManager)
      → leb bm.max_streams (size bm.streams) ≡ false
      → IsSound m bm
      → IsSound m (reserve id now bm)
  unfolding reserve
  reserve-IsSound id now bm e i = record {
    limited = i.limited;
    bounded = ground (
      arith,
      size-put id bm.made (delete id bm.streams),
      size-delete_le id bm.streams i.unique,
      i.bounded,
      i.limited,
    );
    unique =
        put-IsUnique id bm.made (delete id bm.streams) (delete-IsUnique id bm.streams i.unique);
    single = λ j k h p q. ground (
      arith,
      get-reserve id j now bm,
      get-reserve id k now bm,
      eq_iff id j,
      eq_iff id k,
      i.single j k h,
      i.below j h,
      i.below k h,
    );
    below = λ j h p. ground (arith, get-reserve id j now bm, i.below j h);
    live = λ j h p.
        rw
          (cancelled-set_stream bm.made h
            (record no_stream { id = id; created_at = now; cancelled = false }) bm.heap)
          (ground (arith, get-reserve id j now bm, i.live j h));
    kept = λ j h p.
        replaced_not h (get id bm.streams) bm.closing
          (λ q. ground (arith, get-reserve id j now bm, eq_iff id j, i.single id j h, i.below id h))
          (ground (arith, get-reserve id j now bm, i.kept j h, i.past h));
    past = λ h p.
        replaced_past h bm.made (get id bm.streams) bm.closing (λ k e. i.below id k e) (i.past h) p;
  }
