-- ===== src/Auth/Guesses.antt =====
-- How many guesses the lock-out of an address leaves.
use native.Mathlib.Nat.{mul-le-mul_right}
use p2pt_server.Prelude.{
  ℕ, zero, suc, none, ◌+◌, ◌-◌, ◌*◌, ◌/◌, ◌≤◌, ◌<◌, String, some, List, [], ◌∷◌, ◌≡◌, refl, ◌∙◌,
  arith, ltb, leb, eq_iff, inl, inr, Bool-cases, if◌then◌else◌, ◌⊎◌,
}
use p2pt_server.Clock.{Time, second, zero_time}
use p2pt_server.Auth.{
  AuthManager, Request, too_many, max_login_failures, lockout_duration, validate_password,
  record_failed_attempt, check_password,
}
use p2pt_server.Auth.Lockout.{
  standing, check_rate_limit_lem, standing-record_failed_attempt, IsWrongGuess, begin_login,
  end_login, LoginEvent, checked, answered, Desk, left, serve, serve_all,
}

abbrev request_of : LoginEvent → Request
request_of (checked r now) = r
request_of (answered r later) = r

abbrev time_of : LoginEvent → Time
time_of (checked r now) = now
time_of (answered r later) = later

-- A check comes before `m` lock-outs have passed since `t₀`.
abbrev InTime : ℕ → ℕ → LoginEvent → Type 0
InTime t₀ m (checked r now) = now < t₀ + m * lockout_duration
InTime t₀ m (answered r later) = Unit

module _ (ip : String) (start : AuthManager) (t₀ m k : ℕ) where
  -- Wrong guesses from `ip`, whose times do not decrease from `clock` on; when each of these events
  -- is over, at most `k` logins have passed the check and are not answered.
  unfoldable pub AreGuesses : Time → List LoginEvent → Desk → Type 0
  unfolding serve
  AreGuesses clock [] d = Unit
  AreGuesses clock (e ∷ es) d =
      IsWrongGuess ip start (request_of e)
      × (clock ≤ time_of e)
      × InTime t₀ m e
      × ((serve e d).pending ≤ k)
      × AreGuesses (time_of e) es (serve e d)

  -- After `rounds` lock-outs that were imposed after a check had found the address free: since the
  -- last of them no check has (`settled`), or one has (`opened`).
  data Phase (clock : Time) (d : Desk) (rounds : ℕ) : Type 0 where
    settled : d.compared + d.pending ≤ rounds * (4 + k) → rounds ≤ m → Phase clock d rounds
    opened :
        d.compared ≤ rounds * (4 + k) + (standing ip (d.manager)).failures
        → rounds < m
        → (standing ip (d.manager)).blocked_until ≤ clock
        → Phase clock d rounds

  record Spent (clock : Time) (d : Desk) : Type 0 where
    rounds : ℕ
    same : d.manager.admin_password ≡ start.admin_password
    few : (standing ip (d.manager)).failures < 5
    held : d.pending ≤ k
    started : t₀ ≤ clock
    chained :
        (rounds ≡ 0) ⊎ (t₀ + rounds * lockout_duration ≤ (standing ip (d.manager)).blocked_until)
    recent : t₀ + rounds * lockout_duration ≤ clock + lockout_duration
    phase : Phase clock d rounds

  same_password :
      (a : AuthManager) (r : Request)
      → a.admin_password ≡ start.admin_password
      → IsWrongGuess ip start r
      → IsWrongGuess ip a r
  unfolding validate_password
  same_password a r e w = record {
    posted = w.posted;
    from_ip = w.from_ip;
    guess = w.guess;
    decoded = w.decoded;
    wrong = rw e w.wrong;
  }

  password-record_failed_attempt :
      (now : Time) (a : AuthManager)
      → (record_failed_attempt ip now a).0.admin_password ≡ a.admin_password
  unfolding record_failed_attempt
  password-record_failed_attempt now a = ground arith

  end_login-wrong :
      (r : Request) (later : Time) (a : AuthManager)
      → IsWrongGuess ip a r
      → (end_login r later none a).0 ≡ (record_failed_attempt ip later a).0
  unfolding end_login check_password
  end_login-wrong r later a w = ground (arith, w.from_ip, w.decoded, w.wrong)

  begin_login-post :
      (r : Request) (now : Time) (a : AuthManager)
      → IsWrongGuess ip a r
      → zero_time ≤ now
      → begin_login r now a ≡ (
          let b = (standing ip a).blocked_until in
          if ltb now b then some (too_many ((b - now) / second)) else none)
  unfolding begin_login
  begin_login-post r now a w recent =
      ground
        (arith, eq_iff r.method "POST", w.posted, w.from_ip, check_rate_limit_lem ip now a recent)

  advance : (clock later : Time) (d : Desk) → clock ≤ later → Spent clock d → Spent later d
  advance clock later d ordered s = record {
    rounds = s.rounds;
    same = s.same;
    few = s.few;
    held = s.held;
    started = omega (arith, s.started);
    chained = s.chained;
    recent = omega (arith, s.recent);
    phase = elim (s.phase) [
      | settled h few_rounds ↦ settled h few_rounds
      | opened h more free ↦ opened h more (omega arith)
    ];
  }

  few_compared :
      (clock : Time) (d : Desk) (rounds : ℕ)
      → Phase clock d rounds
      → d.compared ≤ rounds * (4 + k) + (standing ip (d.manager)).failures
  few_compared clock d rounds (settled h few_rounds) = omega arith
  few_compared clock d rounds (opened h more free) = h

  more_rounds :
      (now : Time) (d : Desk)
      → t₀ ≤ now
      → now < t₀ + m * lockout_duration
      → (standing ip (d.manager)).blocked_until ≤ now
      → (rounds : ℕ)
      → (rounds ≡ 0) ⊎ (t₀ + rounds * lockout_duration ≤ (standing ip (d.manager)).blocked_until)
      → rounds < m
  more_rounds now d from until free rounds (inl e) = omega arith
  more_rounds now d from until free rounds (inr h) = omega arith

  -- A check that finds the address free.
  entered-Spent :
      (clock now : Time) (d : Desk)
      → clock ≤ now
      → now < t₀ + m * lockout_duration
      → (standing ip (d.manager)).blocked_until ≤ now
      → suc (d.pending) ≤ k
      → Spent clock d
      → Spent now (record d { pending = suc (d.pending) })
  entered-Spent clock now d ordered until free held s = record {
    rounds = s.rounds;
    same = s.same;
    few = s.few;
    held = held;
    started = omega (arith, s.started);
    chained = s.chained;
    recent = omega (arith, s.recent);
    phase =
        opened (few_compared clock d (s.rounds) (s.phase))
          (more_rounds now d (omega (arith, s.started)) until free (s.rounds) (s.chained)) free;
  }

  checked-Spent :
      (r : Request) (clock now : Time) (d : Desk)
      → zero_time ≤ t₀
      → IsWrongGuess ip start r
      → clock ≤ now
      → now < t₀ + m * lockout_duration
      → (serve (checked r now) d).pending ≤ k
      → Spent clock d
      → Spent now (serve (checked r now) d)
  unfolding serve
  checked-Spent r clock now d recent w ordered until held s =
      let answer =
        begin_login-post r now (d.manager) (same_password (d.manager) r (s.same) w)
          (omega (arith, s.started)) in
      elim (Bool-cases (ltb now ((standing ip (d.manager)).blocked_until))) [
        | inl y ↦ rw (answer, y) (advance clock now d ordered s)
        | inr n ↦
            rw (answer, n)
              (entered-Spent clock now d ordered until (ground arith) (rw (answer, n) at held) s)
      ]

  -- A failure that imposes a lock-out.
  locked_phase :
      (clock later : Time) (d d' : Desk) (q : ℕ)
      → clock ≤ later
      → d.pending ≡ suc q
      → d'.pending ≡ q
      → d'.compared ≡ suc (d.compared)
      → (standing ip (d'.manager)).blocked_until ≡ later + lockout_duration
      → (standing ip (d'.manager)).failures ≡ 0
      → d'.manager.admin_password ≡ start.admin_password
      → Spent clock d
      → Spent later d'
  locked_phase clock later d d' q ordered p p' c b f same s = elim (s.phase) [
    | settled h few_rounds ↦ record {
      rounds = s.rounds;
      same = same;
      few = omega arith;
      held = omega (arith, s.held);
      started = omega (arith, s.started);
      chained = inr (omega (arith, s.recent));
      recent = omega (arith, s.recent);
      phase = settled (omega arith) few_rounds;
    }
    | opened h more free ↦
        let since = reached clock d free (s.started) (s.rounds) (s.chained) in
        record {
          rounds = suc (s.rounds);
          same = same;
          few = omega arith;
          held = omega (arith, s.held);
          started = omega (arith, s.started);
          chained = inr (omega arith);
          recent = omega arith;
          phase = settled (omega (arith, s.few, s.held)) more;
        }
  ]
    where
      reached :
          (clock : Time) (d : Desk)
          → (standing ip (d.manager)).blocked_until ≤ clock
          → t₀ ≤ clock
          → (rounds : ℕ)
          → (rounds ≡ 0)
            ⊎ (t₀ + rounds * lockout_duration ≤ (standing ip (d.manager)).blocked_until)
          → t₀ + rounds * lockout_duration ≤ clock
      reached clock d free from rounds (inl e) = omega arith
      reached clock d free from rounds (inr h) = omega arith

  -- A failure that imposes none.
  counted_phase :
      (clock later : Time) (d d' : Desk) (q : ℕ)
      → clock ≤ later
      → d.pending ≡ suc q
      → d'.pending ≡ q
      → d'.compared ≡ suc (d.compared)
      → (standing ip (d'.manager)).blocked_until ≡ (standing ip (d.manager)).blocked_until
      → (standing ip (d'.manager)).failures ≡ (standing ip (d.manager)).failures + 1
      → (standing ip (d.manager)).failures + 1 < 5
      → d'.manager.admin_password ≡ start.admin_password
      → Spent clock d
      → Spent later d'
  counted_phase clock later d d' q ordered p p' c b f few same s = record {
    rounds = s.rounds;
    same = same;
    few = omega arith;
    held = omega (arith, s.held);
    started = omega (arith, s.started);
    chained = rw b (s.chained);
    recent = omega (arith, s.recent);
    phase = elim (s.phase) [
      | settled h few_rounds ↦ settled (omega arith) few_rounds
      | opened h more free ↦ opened (omega arith) more (omega arith)
    ];
  }

  answered-Spent :
      (r : Request) (clock later : Time) (d : Desk) (n : ℕ)
      → d.pending ≡ n
      → IsWrongGuess ip start r
      → clock ≤ later
      → Spent clock d
      → Spent later (left r later d n)
  answered-Spent r clock later d zero p w ordered s = advance clock later d ordered s
  answered-Spent r clock later d (suc q) p w ordered s =
      let a = d.manager in
      let e = standing-record_failed_attempt ip later a in
      let same = password-record_failed_attempt later a ∙ s.same in
      rw (end_login-wrong r later a (same_password a r (s.same) w))
        (elim (Bool-cases (leb max_login_failures ((standing ip a).failures + 1))) [
          | inl y ↦
              locked_phase clock later d _ q ordered p refl refl (rw (e, y) refl) (rw (e, y) refl)
                same s
          | inr n ↦
              counted_phase clock later d _ q ordered p refl refl (rw (e, n) refl) (rw (e, n) refl)
                (ground arith) same s
        ])

  serve_all-Spent :
      (es : List LoginEvent) (clock : Time) (d : Desk)
      → zero_time ≤ t₀
      → AreGuesses clock es d
      → Spent clock d
      → (serve_all es d).compared ≤ m * (4 + k)
  unfolding serve_all AreGuesses
  serve_all-Spent [] clock d recent ok s = spent clock d s
    where
      spent : (clock : Time) (d : Desk) → Spent clock d → d.compared ≤ m * (4 + k)
      spent clock d s = elim (s.phase) [
        | settled h few_rounds ↦ omega (arith, mul-le-mul_right (4 + k) few_rounds)
        | opened h more free ↦ omega (arith, s.few, mul-le-mul_right (4 + k) more)
      ]
  serve_all-Spent (checked r now ∷ es) clock d recent (w, ordered, until, held, ok) s =
      serve_all-Spent es now (serve (checked r now) d) recent ok
        (checked-Spent r clock now d recent w ordered until held s)
  serve_all-Spent (answered r later ∷ es) clock d recent (w, ordered, until, held, ok) s =
      serve_all-Spent es later (serve (answered r later) d) recent ok
        (answered-Spent r clock later d (d.pending) refl w ordered s)

  -- Wrong guesses of the administrator's password come to HandleLogin from an address with no
  -- failure counted, after the year 1, and nothing else comes that concerns it; their checks of
  -- the lock-out and their comparisons come in any order, with at most k of them between the one
  -- and the other at a time. If the times do not decrease, and all checks are made within m
  -- times LockoutDuration, then at most m * (4 + k) guesses are compared with the password: 5 *
  -- m, if they come one by one.
  pub guesses_bounded :
      (es : List LoginEvent)
      → zero_time ≤ t₀
      → (standing ip start).failures ≡ 0
      → let d : Desk = record { manager = start; pending = 0; compared = 0 } in
        AreGuesses t₀ es d → (serve_all es d).compared ≤ m * (4 + k)
  guesses_bounded es recent fresh ok = serve_all-Spent es t₀ _ recent ok (record {
    rounds = 0;
    same = refl;
    few = omega arith;
    held = omega arith;
    started = omega arith;
    chained = inl refl;
    recent = omega arith;
    phase = settled (omega arith) (omega arith);
  })
