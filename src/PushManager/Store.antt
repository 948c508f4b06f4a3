-- ===== src/PushManager/Store.antt =====
-- push_manager.go: what the records come to over subscriptions, answers of push services and
-- restarts: `Op` and `run` are a sequence of them, `replay` the map that it stands for.
use p2pt_server.Prelude.{
  ℕ, String, Bool, true, false, not, ◌&&◌, ◌||◌, Option, none, some, List, [], ◌∷◌, ◌==◌, ◌≡◌, ◌∙◌,
  subst, Bool-cases, inl, inr, sym, refl, arith, if_cases, if◌then◌else◌, eq_iff,
}
use p2pt_server.Clock.{Time}
use p2pt_server.GoMap.{get, put}
use p2pt_server.GoMap.Laws.{get-put, get-delete}
use p2pt_server.PushManager.{
  PushManager, SubscribeReply, PushSubscriptionRecord, Subscribe, load_from_disk, save_to_disk,
  restart, new_record, handle_subscribe, is_gone, finish_send,
}

pub data Op : Type 0 where
  -- a request for /push/subscribe: its method, its body if it decodes, and the time
  subscribe_op : String → Option Subscribe → Time → Op
  -- what the push service of a peer has answered to a notification
  answer_op : String → Option ℕ → Op
  restart_op : Op

unfoldable pub step : Op → PushManager → PushManager
step (subscribe_op method body now) pm = (handle_subscribe method body now pm).0
step (answer_op target status) pm = finish_send target status pm
step restart_op pm = restart pm

unfoldable pub run : List Op → PushManager → PushManager
run [] pm = pm
run (o ∷ os) pm = run os (step o pm)

-- The specification: who is subscribed, as a function of the peer.
abbrev pub Subscribed : Type 0
Subscribed = String → Option PushSubscriptionRecord

abbrev set : String → Option PushSubscriptionRecord → Subscribed → Subscribed
set j o f k = if j == k then o else f k

abbrev is_registered : String → Subscribe → Bool
is_registered method body =
    (method == "POST") && not (body.user_public_key == "") && not (body.endpoint == "")

-- A well-formed POST names its peer; 404 and 410 forget it; nothing else matters.
unfoldable pub effect : Op → Subscribed → Subscribed
effect (subscribe_op method none now) f = f
effect (subscribe_op method (some body) now) f =
    if is_registered method body then set body.user_public_key (some (new_record body now)) f else f
effect (answer_op target none) f = f
effect (answer_op target (some status)) f = if is_gone status then set target none f else f
effect restart_op f = f

unfoldable pub replay : List Op → Subscribed → Subscribed
replay [] f = f
replay (o ∷ os) f = replay os (effect o f)

-- The file holds the records, or there is none yet and there are no records.
pub data IsSynced : PushManager → Type 0 where
  saved : (pm : PushManager) → pm.file ≡ some pm.records → IsSynced pm
  fresh : (pm : PushManager) → pm.file ≡ none → pm.records ≡ [] → IsSynced pm

-- A request that does not register leaves the manager alone.
handle_subscribe-unregistered :
    (method : String) (body : Subscribe) (now : Time) (pm : PushManager)
    → is_registered method body ≡ false
    → (handle_subscribe method (some body) now pm).0 ≡ pm
unfolding handle_subscribe
handle_subscribe-unregistered method body now pm e =
    if_cases (λ (r : PushManager × SubscribeReply). r.0 ≡ pm) (method == "OPTIONS") (λ o. refl)
      (λ o.
        if_cases (λ (r : PushManager × SubscribeReply). r.0 ≡ pm) (method == "POST")
          (λ f.
            if_cases (λ (r : PushManager × SubscribeReply). r.0 ≡ pm)
              (body.user_public_key == "" || body.endpoint == "") (λ g. refl)
              (λ g. absurd (ground arith)))
          (λ f. refl))

handle_subscribe-registered :
    (method : String) (body : Subscribe) (now : Time) (pm : PushManager)
    → is_registered method body ≡ true
    → (handle_subscribe method (some body) now pm).0
      ≡ save_to_disk
          (record pm { records = put body.user_public_key (new_record body now) pm.records })
unfolding handle_subscribe
handle_subscribe-registered method body now pm e =
    let b : (method == "POST") ≡ true = ground arith in
    let a : (method == "OPTIONS") ≡ false = rw ((eq_iff method "POST").0 b) refl in
    let c : (body.user_public_key == "" || body.endpoint == "") ≡ false = ground arith in
    rw (a, b, c) refl

handle_subscribe-none :
    (method : String) (now : Time) (pm : PushManager) → (handle_subscribe method none now pm).0 ≡ pm
unfolding handle_subscribe
handle_subscribe-none method now pm =
    if_cases (λ (r : PushManager × SubscribeReply). r.0 ≡ pm) (method == "OPTIONS") (λ o. refl)
      (λ o.
        if_cases (λ (r : PushManager × SubscribeReply). r.0 ≡ pm) (method == "POST") (λ f. refl)
          (λ f. refl))

step-IsSynced : (o : Op) (pm : PushManager) → IsSynced pm → IsSynced (step o pm)
unfolding step finish_send restart load_from_disk save_to_disk
step-IsSynced (subscribe_op method none now) pm s =
    subst IsSynced (sym (handle_subscribe-none method now pm)) s
step-IsSynced (subscribe_op method (some body) now) pm s =
    elim (Bool-cases (is_registered method body)) [
      | inl e ↦
          subst IsSynced (sym (handle_subscribe-registered method body now pm e)) (saved _ refl)
      | inr e ↦ subst IsSynced (sym (handle_subscribe-unregistered method body now pm e)) s
    ]
step-IsSynced (answer_op target none) pm s = s
step-IsSynced (answer_op target (some status)) pm s =
    if_cases IsSynced (is_gone status) (λ e. saved _ refl) (λ e. s)
step-IsSynced restart_op pm (saved _ e) = rw (e) (saved _ e)
step-IsSynced restart_op pm (fresh _ e f) = rw (e) (fresh _ e refl)

subscribe-effect :
    (method : String) (body : Option Subscribe) (now : Time) (pm : PushManager) (k : String)
    → get k (handle_subscribe method body now pm).0.records
      ≡ effect (subscribe_op method body now) (λ j. get j pm.records) k
unfolding effect save_to_disk
subscribe-effect method none now pm k = rw (handle_subscribe-none method now pm) refl
subscribe-effect method (some body) now pm k = elim (Bool-cases (is_registered method body)) [
  | inl e ↦
      rw (handle_subscribe-registered method body now pm e, e)
        (get-put k body.user_public_key (new_record body now) pm.records)
  | inr e ↦ rw (handle_subscribe-unregistered method body now pm e, e) refl
]

step-effect :
    (o : Op) (pm : PushManager) (k : String)
    → IsSynced pm
    → get k (step o pm).records ≡ effect o (λ j. get j pm.records) k
unfolding step effect finish_send restart load_from_disk save_to_disk
step-effect (subscribe_op method body now) pm k s = subscribe-effect method body now pm k
step-effect (answer_op target none) pm k s = refl
step-effect (answer_op target (some status)) pm k s = ground (arith, get-delete k target pm.records)
step-effect restart_op pm k (saved _ e) = rw (e) refl
step-effect restart_op pm k (fresh _ e f) = rw (e, f) refl

effect_cong :
    (o : Op) (f g : Subscribed)
    → ((k : String) → f k ≡ g k)
    → (k : String) → effect o f k ≡ effect o g k
unfolding effect
effect_cong (subscribe_op method none now) f g h k = h k
effect_cong (subscribe_op method (some body) now) f g h k = ground (arith, h k)
effect_cong (answer_op target none) f g h k = h k
effect_cong (answer_op target (some status)) f g h k = ground (arith, h k)
effect_cong restart_op f g h k = h k

run_lem :
    (os : List Op) (pm : PushManager) (f : Subscribed)
    → IsSynced pm
    → ((k : String) → get k pm.records ≡ f k)
    → (k : String) → get k (run os pm).records ≡ replay os f k
unfolding run replay
run_lem [] pm f s h k = h k
run_lem (o ∷ os) pm f s h k =
    run_lem os (step o pm) (effect o f) (step-IsSynced o pm s)
      (λ j. step-effect o pm j s ∙ effect_cong o (λ i. get i pm.records) f h j) k

-- A manager whose file holds its records keeps, over any sequence of subscriptions, answers of push
-- services and restarts, the subscriptions that the same sequence without its restarts comes to.
pub run-replay :
    (os : List Op) (pm : PushManager) (k : String)
    → IsSynced pm
    → get k (run os pm).records ≡ replay os (λ j. get j pm.records) k
run-replay os pm k s = run_lem os pm (λ j. get j pm.records) s (λ j. refl) k
