-- ===== src/Pressure.antt =====
-- core/pressure.py, PressureLevel and EscalationStateMachine. Ratios are exact: a fill ratio is a
-- fraction, and all thresholds are numerators over one `scale`. Clock readings are arguments.
pub mod Steps
pub mod Cooldown
pub mod Monitor
mod Tests
use fapilog.Prelude.{
  ℕ, zero, suc, ◌+◌, ◌*◌, Bool, true, false, not, ◌&&◌, Option, none, some, ltb, leb, if◌then◌else◌,
}

pub data Level : Type 0 where
  normal elevated high critical : Level

-- `_LEVELS.index`
unfoldable pub index : Level → ℕ
index normal = 0
index elevated = 1
index high = 2
index critical = 3

-- `_LEVELS[idx + 1]`, where there is one
unfoldable pub next_level : Level → Option Level
next_level normal = some elevated
next_level elevated = some high
next_level high = some critical
next_level critical = none

-- `_LEVELS[idx - 1]`, where there is one
unfoldable pub prev_level : Level → Option Level
prev_level normal = none
prev_level elevated = some normal
prev_level high = some elevated
prev_level critical = some high

pub record Fill : Type 0 where
  pub top : ℕ
  pub bottom : ℕ

pub record Thresholds : Type 0 where
  pub scale : ℕ
  pub escalate_to_elevated : ℕ
  pub escalate_to_high : ℕ
  pub escalate_to_critical : ℕ
  pub deescalate_from_critical : ℕ
  pub deescalate_from_high : ℕ
  pub deescalate_from_elevated : ℕ

pub record Machine : Type 0 where
  pub thresholds : Thresholds
  pub cooldown : ℕ
  pub level : Level
  pub last_transition_time : ℕ
  pub first_evaluation : Bool

unfoldable pub init : Thresholds → ℕ → Machine
init thresholds cooldown = record {
  thresholds = thresholds;
  cooldown = cooldown;
  level = normal;
  last_transition_time = 0;
  first_evaluation = true;
}

-- the dict `_escalation`, by the level that is entered
unfoldable pub escalation : Thresholds → Level → Option ℕ
escalation t normal = none
escalation t elevated = some t.escalate_to_elevated
escalation t high = some t.escalate_to_high
escalation t critical = some t.escalate_to_critical

-- the dict `_deescalation`, by the level that is entered
unfoldable pub deescalation : Thresholds → Level → Option ℕ
deescalation t normal = some t.deescalate_from_elevated
deescalation t elevated = some t.deescalate_from_high
deescalation t high = some t.deescalate_from_critical
deescalation t critical = none

-- fill >= threshold
abbrev pub reaches : ℕ → Fill → ℕ → Bool
reaches scale fill threshold = leb (threshold * fill.bottom) (fill.top * scale)

reaches? : ℕ → Fill → Option ℕ → Bool
reaches? scale fill none = false
reaches? scale fill (some threshold) = reaches scale fill threshold

falls_below? : ℕ → Fill → Option ℕ → Bool
falls_below? scale fill none = false
falls_below? scale fill (some threshold) = not (reaches scale fill threshold)

escalates_to : Machine → Fill → Option Level → Option Level
unfolding reaches? escalation
escalates_to m fill none = none
escalates_to m fill (some l) =
    if reaches? m.thresholds.scale fill (escalation m.thresholds l) then some l else none

deescalates_to : Machine → Fill → Option Level → Option Level
unfolding falls_below? deescalation
deescalates_to m fill none = none
deescalates_to m fill (some l) =
    if falls_below? m.thresholds.scale fill (deescalation m.thresholds l) then some l else none

-- the level that the evaluation goes to, if it changes: up before down
unfoldable pub change : Machine → Fill → Option Level
unfolding escalates_to deescalates_to next_level prev_level
change m fill = elim (escalates_to m fill (next_level m.level)) [
  | none ↦ deescalates_to m fill (prev_level m.level)
  | some l ↦ some l
]

-- `now - last < cooldown`
unfoldable pub cooling : Machine → ℕ → Bool
cooling m now = not m.first_evaluation && ltb now (m.last_transition_time + m.cooldown)

moved : Machine → ℕ → Option Level → Machine
moved m now none = m
moved m now (some l) = record m { level = l; last_transition_time = now; first_evaluation = false }

unfoldable pub evaluate : Machine → ℕ → Fill → Machine
unfolding change cooling moved
evaluate m now fill = if cooling m now then m else moved m now (change m fill)
