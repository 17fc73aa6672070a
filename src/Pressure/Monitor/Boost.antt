-- ===== src/Pressure/Monitor/Boost.antt =====
-- A breaker that reports to a monitor.
use fapilog.Prelude.{
  ℕ, ◌+◌, ◌*◌, ◌≤◌, ◌≡◌, refl, List, [], ◌∷◌, ◌++◌, length, true, ◌∙◌, ap, append_assoc, arith,
}
use fapilog.Breaker.{
  Breaker, CircuitState, closed, open_circuit, half_open, record_success, should_allow,
}
use fapilog.Breaker.Trips.{failures, failures-reported, probe_outcome, repeated}
use fapilog.Pressure.Monitor.{Monitor, on_circuit_state_change}

-- the reports of a breaker, handed to the monitor in order
pub feed : Monitor → List CircuitState → Monitor
feed s [] = s
feed s (state ∷ states) = feed (on_circuit_state_change s state) states

feed-append : (s : Monitor) (xs ys : List CircuitState) → feed s (xs ++ ys) ≡ feed (feed s xs) ys
unfolding feed
feed-append s [] ys = refl
feed-append s (x ∷ xs) ys = feed-append (on_circuit_state_change s x) xs ys

boost-repeated :
    (s : Monitor) (times : List ℕ)
    → (feed s (repeated open_circuit times)).circuit_boost
      ≡ s.circuit_boost + length times * s.circuit_boost_per_open
unfolding feed on_circuit_state_change
boost-repeated s [] = omega arith
boost-repeated s (now ∷ times) =
    omega (arith, boost-repeated (on_circuit_state_change s open_circuit) times)

per_open-feed :
    (s : Monitor) (states : List CircuitState)
    → (feed s states).circuit_boost_per_open ≡ s.circuit_boost_per_open
unfolding feed on_circuit_state_change
per_open-feed s [] = refl
per_open-feed s (closed ∷ states) = per_open-feed (on_circuit_state_change s closed) states
per_open-feed s (open_circuit ∷ states) =
    per_open-feed (on_circuit_state_change s open_circuit) states
per_open-feed s (half_open ∷ states) = per_open-feed s states

-- an open circuit that allows a call is half-open, and has reported nothing
allowed-half_open_state :
    (b : Breaker) (later : ℕ)
    → b.state ≡ open_circuit
    → (should_allow b later).1 ≡ true
    → ((should_allow b later).0.state ≡ half_open) × ((should_allow b later).0.emitted ≡ b.emitted)
unfolding should_allow
allowed-half_open_state b later e ok = ground arith

-- the breaker after the failures at `now ∷ times`, a probe allowed at `later`, and its success
abbrev pub outage : Breaker → ℕ → List ℕ → ℕ → Breaker
outage b now times later = record_success (should_allow (failures b (now ∷ times)) later).0

-- A breaker at the threshold goes through one outage: it opens at the failure `now`, fails again at
-- the `times`, lets a probe through and closes. It has then reported one OPEN for every failure and
-- one CLOSED, so that the monitor that is fed these reports keeps, with the circuit closed again, one
-- boost for each of the `times`.
pub leftover_boost :
    (b : Breaker) (s : Monitor) (now : ℕ) (times : List ℕ) (later : ℕ)
    → b.config.failure_threshold ≤ b.failure_count + 1
    → (should_allow (failures b (now ∷ times)) later).1 ≡ true
    → let reports = repeated open_circuit (now ∷ times) ++ closed ∷ [] in
      ((outage b now times later).state ≡ closed)
      × ((outage b now times later).emitted ≡ b.emitted ++ reports)
      × ((feed s reports).circuit_boost ≡ s.circuit_boost + length times * s.circuit_boost_per_open)
leftover_boost b s now times later h ok =
    let opened = failures-reported b now times h in
    let probing = allowed-half_open_state (failures b (now ∷ times)) later opened.0 ok in
    let done = probe_outcome (should_allow (failures b (now ∷ times)) later).0 later probing.0 in
    (
      done.0,
      done.2
          ∙ ap (λ e. e ++ closed ∷ []) (probing.1 ∙ opened.1)
          ∙ append_assoc b.emitted (repeated open_circuit (now ∷ times)) (closed ∷ []),
      rw (feed-append s (repeated open_circuit (now ∷ times)) (closed ∷ [])) (
          unfold feed on_circuit_state_change in
          omega (
            arith,
            boost-repeated s (now ∷ times),
            per_open-feed s (repeated open_circuit (now ∷ times)),
          )),
    )
