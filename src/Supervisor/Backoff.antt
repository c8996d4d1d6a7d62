-- ===== src/Supervisor/Backoff.antt =====
-- What the user's orders do to the supervisor of a host, and how long it waits between attempts:
-- `HostAction`, `SSH_BACKOFF_LADDER` and `host_supervisor` of crates/tepegoz-core/src/client.rs.
use mathlib.Core.Path.{subst}
use tepegoz.Prelude.{
  ℕ, ◌+◌, ◌-◌, ◌≤◌, ◌≡◌, refl, Bool, true, false, some, List, ◌++◌, arith, leb, min,
}
use tepegoz.Fleet.{HostState, disconnected, connecting, HostEntry}
use tepegoz.Supervisor.{
  Supervisor, Phase, parked, idle, dialling, live, terminal, backing_off, exited, Emitted, message,
  timer, reconnect, disconnect, Step, emit, top_of_loop, wait_backoff, on_reconnect, on_disconnect,
  on_message, on_timer, heartbeat, heartbeat_failed, elapsed, step, backoff_delay,
}
use tepegoz.Supervisor.View.{View, told, untold, told-append, PhaseAgrees, Reached, longest_backoff}
use tepegoz.Supervisor.View.Runs.{Reached-Agrees}

-- Whether the orders of the user are followed: not after the end, nor by a host behind a jump host.
abbrev pub takes_orders : Phase → Bool
takes_orders (parked reason) = false
takes_orders exited = false
takes_orders _ = true

abbrev pub is_terminal_phase : Phase → Bool
is_terminal_phase terminal = true
is_terminal_phase _ = false

abbrev pub dials_at : ℕ → ℕ → Supervisor
dials_at at idx = record { phase = dialling at; should_connect = true; backoff_idx = idx }

abbrev pub Dials : ℕ → View → Step → Type 0
Dials at v r = (r.0 ≡ dials_at at 0) × ((told v r.1).state ≡ some connecting)

module _ (t at : ℕ) (s : Supervisor) (v : View) where
  reconnect_phases :
      (phase : Phase)
      → takes_orders phase ≡ true
      → PhaseAgrees t phase s.should_connect v
      → Dials at v (on_reconnect phase at s)
  unfolding on_reconnect top_of_loop emit told
  reconnect_phases idle o h = (refl, refl)
  reconnect_phases (dialling start) o h = rw h.2 (refl, refl)
  reconnect_phases (live start due misses state) o h = rw h.2 (refl, refl)
  reconnect_phases terminal o h = rw h.2 (refl, refl)
  reconnect_phases (backing_off until) o h = rw h.2 (refl, refl)
  reconnect_phases (parked reason) o h = cc
  reconnect_phases exited o h = cc

  disconnect_phases :
      (phase : Phase)
      → takes_orders phase ≡ true
      → is_terminal_phase phase ≡ false
      → PhaseAgrees t phase s.should_connect v
      → ((on_disconnect phase at s).0.phase ≡ idle)
        × ((on_disconnect phase at s).0.should_connect ≡ false)
        × ((told v (on_disconnect phase at s).1).state ≡ some disconnected)
  unfolding on_disconnect top_of_loop emit told
  disconnect_phases idle o n h = rw h.2 (refl, refl, h.0)
  disconnect_phases (dialling start) o n h = (refl, refl, refl)
  disconnect_phases (live start due misses state) o n h = (refl, refl, refl)
  disconnect_phases (backing_off until) o n h = (refl, refl, h.0)
  disconnect_phases (parked reason) o n h = cc
  disconnect_phases terminal o n h = cc
  disconnect_phases exited o n h = cc

module _ (entry : HostEntry) (autoconnect : Bool) (t : ℕ) (s : Supervisor) (es : List Emitted)
    (r : Reached entry autoconnect t s es) where
  -- In a run, whatever the supervisor waits for, Reconnect makes it dial at once, with the backoff at
  -- its start, and tells the client so; except where the host needs a jump host or the task has ended.
  pub reconnect_dials :
      (at : ℕ)
      → takes_orders s.phase ≡ true
      → ((step at (message (some reconnect)) s).0 ≡ dials_at at 0)
        × ((told untold (es ++ (step at (message (some reconnect)) s).1)).state ≡ some connecting)
  unfolding step on_message
  reconnect_dials at o =
      let h = Reached-Agrees entry autoconnect t s es r in
      rw (told-append untold es (on_reconnect s.phase at s).1)
        (reconnect_phases t at s (told untold es) s.phase o h.0)

  -- In a run, Disconnect leaves the supervisor idle and the client told Disconnected, unless a failed
  -- key or login waits for the user, the host needs a jump host, or the task has ended.
  pub disconnect_idles :
      (at : ℕ)
      → takes_orders s.phase ≡ true
      → is_terminal_phase s.phase ≡ false
      → ((step at (message (some disconnect)) s).0.phase ≡ idle)
        × ((step at (message (some disconnect)) s).0.should_connect ≡ false)
        × ((told untold (es ++ (step at (message (some disconnect)) s).1)).state
            ≡ some disconnected)
  unfolding step on_message
  disconnect_idles at o n =
      let h = Reached-Agrees entry autoconnect t s es r in
      rw (told-append untold es (on_disconnect s.phase at s).1)
        (disconnect_phases t at s (told untold es) s.phase o n h.0)

  -- A supervisor that backs off dials again within a minute, if nothing else wakes it.
  pub backing_off-redials :
      (until at : ℕ) (sent : Bool)
      → s.phase ≡ backing_off until
      → t + longest_backoff ≤ at
      → (step at (timer sent) s).0 ≡ dials_at at (min (s.backoff_idx + 1) 4)
  unfolding step on_timer elapsed top_of_loop
  backing_off-redials until at sent e k =
      let h = Reached-Agrees entry autoconnect t s es r in
      let g = subst (λ p. PhaseAgrees t p s.should_connect (told untold es)) e h.0 in
      let due : leb until at ≡ true = ground (arith, g.3, k) in rw (e, due, g.2) refl

  -- A session that is given up for its heartbeats has always lasted for the 30 seconds that put the
  -- backoff back to its start, so that the next attempt is made after one second.
  pub heartbeat_failure_resets :
      (start due misses at : ℕ) (state : HostState)
      → s.phase ≡ live start due misses state
      → due ≤ at
      → 2 ≤ misses
      → (step at (timer false) s).0
        ≡ record { phase = backing_off (at + 1000); should_connect = true; backoff_idx = 0 }
  unfolding step on_timer heartbeat heartbeat_failed wait_backoff emit backoff_delay
  heartbeat_failure_resets start due misses at state e k m =
      let h = Reached-Agrees entry autoconnect t s es r in
      let g = subst (λ p. PhaseAgrees t p s.should_connect (told untold es)) e h.0 in
      let f1 : leb due at ≡ true = ground arith in
      let f2 : leb 3 (misses + 1) ≡ true = ground arith in
      let f3 : leb 30000 (at - start) ≡ true = ground (arith, g.3, k, m) in
      rw (e, f1, f2, f3, g.2) refl
