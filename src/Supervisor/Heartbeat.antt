-- ===== src/Supervisor/Heartbeat.antt =====
-- The heartbeats of a live session and the series of failed attempts: `run_connected_session`,
-- `SSH_DISCONNECTED_THRESHOLD` and `SSH_BACKOFF_LADDER` of crates/tepegoz-core/src/client.rs.
use tepegoz.Prelude.{
  ℕ, zero, suc, ◌+◌, ◌≡◌, inl, inr, refl, ap, ◌∙◌, Bool, true, false, List, [], ◌∷◌, arith, length,
  Bool-cases, leb, ltb, ◌||◌, not, min, Option, none, some,
}
use tepegoz.Fleet.{HostState, connected, degraded}
use tepegoz.Supervisor.{
  Supervisor, Phase, parked, idle, dialling, live, terminal, backing_off, exited, attempted, timer,
  Attempt, lost, failed, other_error, emit, top_of_loop, wait_backoff, on_error, on_attempt,
  on_attempted, on_timer, heartbeat, heartbeat_failed, elapsed, next_tick, step, backoff_delay,
}
use tepegoz.Supervisor.View.{LiveState}

-- A heartbeat that fires some time after it is due.
abbrev pub beat : Phase → ℕ → Bool → Supervisor → Supervisor
beat (live start due misses state) late sent s = (step (due + late) (timer sent) s).0
beat _ late sent s = s

abbrev pub beats : List (ℕ × Bool) → Supervisor → Supervisor
beats [] s = s
beats ((late, sent) ∷ more) s = beats more (beat s.phase late sent s)

abbrev pub is_live_phase : Phase → Bool
is_live_phase (live start due misses state) = true
is_live_phase _ = false

-- Three heartbeats in a row that cannot be sent, after so many.
abbrev pub three_missed : ℕ → List (ℕ × Bool) → Bool
three_missed misses [] = false
three_missed misses ((late, true) ∷ more) = three_missed 0 more
three_missed misses ((late, false) ∷ more) = leb 3 (misses + 1) || three_missed (misses + 1) more

abbrev pub live_now : ℕ → ℕ → ℕ → HostState → Bool → ℕ → Supervisor
live_now start due misses state wanted idx = record {
  phase = live start due misses state;
  should_connect = wanted;
  backoff_idx = idx;
}

beats-over :
    (ticks : List (ℕ × Bool)) (s : Supervisor) → is_live_phase s.phase ≡ false → beats ticks s ≡ s
beats-over [] s h = refl
beats-over ((late, sent) ∷ more) s h = ap (beats more) (stays s.phase h) ∙ beats-over more s h
  where
    stays : (phase : Phase) → is_live_phase phase ≡ false → beat phase late sent s ≡ s
    stays (parked reason) h = refl
    stays idle h = refl
    stays (dialling start) h = refl
    stays (live start due misses state) h = cc
    stays terminal h = refl
    stays (backing_off until) h = refl
    stays exited h = refl

third_miss :
    (start due misses late : ℕ) (state : HostState) (wanted : Bool) (idx : ℕ)
    → leb 3 (misses + 1) ≡ true
    → is_live_phase
        (step (due + late) (timer false) (live_now start due misses state wanted idx)).0.phase
      ≡ false
unfolding step on_timer heartbeat heartbeat_failed wait_backoff emit
third_miss start due misses late state wanted idx f =
    let on : leb due (due + late) ≡ true = ground arith in rw (on, f) refl

well :
    (start due misses late : ℕ) (state : HostState) (wanted : Bool) (idx : ℕ)
    → LiveState misses state
    → (step (due + late) (timer true) (live_now start due misses state wanted idx)).0
      ≡ live_now start (next_tick due (due + late)) 0 connected wanted idx
unfolding step on_timer heartbeat
well start due misses late state wanted idx (inl (m, q)) =
    let on : leb due (due + late) ≡ true = ground arith in rw (on, m, q) refl
well start due misses late state wanted idx (inr (m, m', q)) =
    let on : leb due (due + late) ≡ true = ground arith in
    let missed : ltb 0 misses ≡ true = ground arith in rw (on, q, missed) refl

first_miss :
    (start due late : ℕ) (wanted : Bool) (idx : ℕ)
    → (step (due + late) (timer false) (live_now start due 0 connected wanted idx)).0
      ≡ live_now start (next_tick due (due + late)) 1 degraded wanted idx
unfolding step on_timer heartbeat
first_miss start due late wanted idx =
    let on : leb due (due + late) ≡ true = ground arith in rw on refl

next_miss :
    (start due misses late : ℕ) (wanted : Bool) (idx : ℕ)
    → leb 3 (misses + 1) ≡ false
    → (step (due + late) (timer false) (live_now start due misses degraded wanted idx)).0
      ≡ live_now start (next_tick due (due + late)) (misses + 1) degraded wanted idx
unfolding step on_timer heartbeat
next_miss start due misses late wanted idx f =
    let on : leb due (due + late) ≡ true = ground arith in
    let missed : leb 1 (misses + 1) ≡ true = ground arith in rw (on, f, missed) refl

-- A session lives through a series of heartbeats, however late each of them is, exactly where no three
-- in a row cannot be sent.
pub beats-live :
    (ticks : List (ℕ × Bool)) (start due misses : ℕ) (state : HostState) (wanted : Bool) (idx : ℕ)
    → LiveState misses state
    → is_live_phase (beats ticks (live_now start due misses state wanted idx)).phase
      ≡ not (three_missed misses ticks)
beats-live [] start due misses state wanted idx h = refl
beats-live ((late, true) ∷ more) start due misses state wanted idx h =
    ap (λ s. is_live_phase (beats more s).phase) (well start due misses late state wanted idx h)
    ∙ beats-live more start (next_tick due (due + late)) 0 connected wanted idx (inl (refl, refl))
beats-live ((late, false) ∷ more) start due misses state wanted idx (inl (m, q)) =
    rw (m, q)
      (ap (λ s. is_live_phase (beats more s).phase) (first_miss start due late wanted idx)
        ∙ beats-live more start (next_tick due (due + late)) 1 degraded wanted idx
            (inr (omega arith, omega arith, refl)))
beats-live ((late, false) ∷ more) start due misses state wanted idx (inr (m, m', q)) =
    elim (Bool-cases (leb 3 (misses + 1))) [
      | inl f ↦
          let dead = third_miss start due misses late state wanted idx f in
          ap (λ s. is_live_phase s.phase) (beats-over more _ dead) ∙ dead ∙ rw f refl
      | inr f ↦
          rw (f, q)
            (ap (λ s. is_live_phase (beats more s).phase)
                (next_miss start due misses late wanted idx f)
              ∙ beats-live more start (next_tick due (due + late)) (misses + 1) degraded wanted idx
                  (inr (omega arith, ground arith, refl)))
    ]

-- A series of attempts that fail, each after it has dialled for some time, with nothing else between
-- them: when the next one starts, and with which index of the ladder.
abbrev pub dials : ℕ → ℕ → Supervisor
dials at idx = record { phase = dialling at; should_connect = true; backoff_idx = idx }

abbrev pub wake_up : Phase → Supervisor → ℕ × Supervisor
wake_up (backing_off until) s = (until, (step until (timer false) s).0)
wake_up _ s = (0, s)

-- An attempt that ends without an answer, or with an error that is neither a host key mismatch nor a
-- failed login.
abbrev pub no_session : Option (List ℕ) → Attempt
no_session none = lost
no_session (some text) = failed (other_error text)

unfoldable pub fails : List (ℕ × Option (List ℕ)) → ℕ → Supervisor → ℕ × Supervisor
fails [] at s = (at, s)
fails ((dialled, outcome) ∷ more) at s =
    let s1 = (step (at + dialled) (attempted (no_session outcome)) s).0 in
    let (at', s2) = wake_up s1.phase s1 in fails more at' s2

abbrev pub dialled_for : List (ℕ × Option (List ℕ)) → ℕ
dialled_for [] = 0
dialled_for ((dialled, outcome) ∷ more) = dialled + dialled_for more

-- The waits of 1, 2, 5, 15 seconds, and of a minute from then on.
abbrev pub ladder_from : ℕ → ℕ
ladder_from zero = 1000
ladder_from (suc zero) = 2000
ladder_from (suc (suc zero)) = 5000
ladder_from (suc (suc (suc zero))) = 15000
ladder_from (suc (suc (suc (suc n)))) = 60000

abbrev pub waits : ℕ → ℕ → ℕ
waits idx zero = 0
waits idx (suc n) = ladder_from idx + waits (suc idx) n

backoff_delay_lem : (idx : ℕ) → backoff_delay (min idx 4) ≡ ladder_from idx
unfolding backoff_delay
backoff_delay_lem zero = refl
backoff_delay_lem (suc zero) = refl
backoff_delay_lem (suc (suc zero)) = refl
backoff_delay_lem (suc (suc (suc zero))) = refl
backoff_delay_lem (suc (suc (suc (suc idx)))) =
    let last : min (suc (suc (suc (suc idx)))) 4 ≡ 4 = omega arith in rw last refl

fails-cons :
    (dialled at i : ℕ) (outcome : Option (List ℕ)) (more : List (ℕ × Option (List ℕ)))
    → let until = at + dialled + backoff_delay i in
      fails ((dialled, outcome) ∷ more) at (dials at i)
      ≡ fails more until (dials until (min (i + 1) 4))
unfolding fails step on_attempted on_attempt on_error wait_backoff emit on_timer elapsed top_of_loop
fails-cons dialled at i none more =
    let until = at + dialled + backoff_delay i in
    let due : leb until until ≡ true = ground arith in ap (fails more until) (rw due refl)
fails-cons dialled at i (some text) more =
    let until = at + dialled + backoff_delay i in
    let due : leb until until ≡ true = ground arith in ap (fails more until) (rw due refl)

abbrev dials_then : ℕ → ℕ → ℕ × Supervisor
dials_then idx at = (at, dials at (min idx 4))

-- After any number of attempts that end without an answer, or with an error that is neither a host key
-- mismatch nor a failed login, the supervisor dials again, and the waits between the attempts have
-- been 1, 2, 5 and 15 seconds and then a minute each, from its place on the ladder on.
pub fails-waits :
    (attempts : List (ℕ × Option (List ℕ))) (at idx : ℕ)
    → fails attempts at (dials at (min idx 4)) ≡ (
      at + dialled_for attempts + waits idx (length attempts),
      dials
          (at + dialled_for attempts + waits idx (length attempts))
          (min (idx + length attempts) 4),
    )
unfolding fails
fails-waits [] at idx =
    let e : at ≡ at + 0 + 0 = omega arith in
    let f : min idx 4 ≡ min (idx + 0) 4 = omega arith in
    ap (λ i. (at, dials at i)) f ∙ ap (λ n. (n, dials n (min (idx + 0) 4))) e
fails-waits ((dialled, outcome) ∷ more) at idx =
    let i : min (min idx 4 + 1) 4 ≡ min (suc idx) 4 = omega arith in
    let until = at + dialled + ladder_from idx in
    let n = length more in
    let e : until + dialled_for more + waits (suc idx) n
        ≡ at + (dialled + dialled_for more) + (ladder_from idx + waits (suc idx) n) =
      omega arith in
    let f : min (suc idx + n) 4 ≡ min (idx + suc n) 4 = omega arith in
    fails-cons dialled at (min idx 4) outcome more
    ∙ ap (λ d. fails more (at + dialled + d) (dials (at + dialled + d) (min (min idx 4 + 1) 4)))
        (backoff_delay_lem idx)
    ∙ ap (λ j. fails more until (dials until j)) i
    ∙ fails-waits more until (suc idx)
    ∙ ap
        (λ j. (
          until + dialled_for more + waits (suc idx) n,
          dials (until + dialled_for more + waits (suc idx) n) j,
        ))
        f
    ∙ ap (dials_then (idx + suc n)) e
