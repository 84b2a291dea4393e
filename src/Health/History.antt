-- ===== src/Health/History.antt =====
-- Evaluated health over a whole history of Runs and staleness sweeps: any sequence of the
-- operations of internal/health/health.go, in any order.
use probehive.Base.{
  String, List, [], ◌∷◌, ok, ◌≡◌, ◌≢◌, ◌⊎◌, inl, inr, refl, arith, Bool, true, false,
}
use probehive.Base.Time.{Time, before}
use probehive.Health.Model.{State, Evidence, Kind, Snapshot, Input, Decision}
use probehive.Health.Snapshot.{set_state, initial}
use probehive.Health.Evaluate.{evaluate, mark_stale}
use probehive.Health.Invariant.{IsCoherent, decide-IsCoherent, mark_stale-IsCoherent}
use probehive.Health.Safety.{evidence_of, evaluate-decide, down_needs_confirmation}

-- The snapshots that follow from the creation of a Monitor, with the Runs evaluated, last first.
pub data History : List Input → Snapshot → Type 0 where
  created :
      {s : Snapshot} (organization_id monitor_id : String) (now : Time)
      → initial organization_id monitor_id now ≡ ok s
      → History [] s
  evaluated :
      {inputs : List Input} {s : Snapshot} (input : Input) (d : Decision)
      → History inputs s
      → evaluate s input ≡ ok d
      → History (input ∷ inputs) d.snapshot
  staled :
      {inputs : List Input} {s : Snapshot} (now : Time) (d : Decision)
      → History inputs s
      → mark_stale s now ≡ ok d
      → History inputs d.snapshot

initial-IsCoherent :
    (organization_id monitor_id : String) (now : Time) (s : Snapshot)
    → initial organization_id monitor_id now ≡ ok s
    → IsCoherent s
unfolding initial
initial-IsCoherent organization_id monitor_id now s eq = ground arith

-- After any history the snapshot is coherent: it is degraded exactly while it holds a pending
-- candidate, which asks to leave the stable state by the evidence that its direction expects;
-- without a candidate the state is the stable state, and is unknown, healthy or down.
pub History-IsCoherent : {inputs : List Input} {s : Snapshot} → History inputs s → IsCoherent s
History-IsCoherent (created {s = s} organization_id monitor_id now eq) =
    initial-IsCoherent organization_id monitor_id now s eq
History-IsCoherent (evaluated {s = s} input d h eq) =
    decide-IsCoherent s input d (History-IsCoherent h) (evaluate-decide s input d eq).2
History-IsCoherent (staled {s = s} now d h eq) =
    mark_stale-IsCoherent s now d (History-IsCoherent h) eq

abbrev pub Confirmed : Evidence → List Input → Type 0
Confirmed evidence [] = ⊥
Confirmed evidence (input ∷ inputs) =
    ((input.kind ≡ Kind.confirmation) × (evidence_of input ≡ evidence)) ⊎ Confirmed evidence inputs

initial_not_down :
    (organization_id monitor_id : String) (now : Time) (s : Snapshot)
    → initial organization_id monitor_id now ≡ ok s
    → s.stable_state ≢ State.down
unfolding initial
initial_not_down organization_id monitor_id now s eq = ground arith

stale_not_down :
    (s : Snapshot) (now : Time) (d : Decision)
    → IsCoherent s
    → mark_stale s now ≡ ok d
    → d.snapshot.stable_state ≢ State.down
unfolding mark_stale set_state
stale_not_down s now d h eq = ground arith

abbrev is_down : State → Bool
is_down State.down = true
is_down _ = false

down_cases : (s : State) → (s ≡ State.down) ⊎ (s ≢ State.down)
down_cases State.down = inl refl
down_cases State.unknown = inr (λ e. cc)
down_cases State.healthy = inr (λ e. cc)
down_cases State.degraded = inr (λ e. cc)
down_cases (State.other t) = inr (λ e. cc)

stable_down-Confirmed :
    {inputs : List Input} {s : Snapshot}
    → History inputs s
    → s.stable_state ≡ State.down
    → Confirmed Evidence.failing inputs
stable_down-Confirmed (created {s = s} organization_id monitor_id now eq) down =
    absurd (initial_not_down organization_id monitor_id now s eq down)
stable_down-Confirmed (evaluated {s = s} input d h eq) down = elim (down_cases s.stable_state) [
  | inl before ↦ inr (stable_down-Confirmed h before)
  | inr from ↦
      let (c, needs) = down_needs_confirmation s input d (History-IsCoherent h) eq from down in
      inl (needs.0.is_confirmation, needs.2)
]
stable_down-Confirmed (staled {s = s} now d h eq) down =
    absurd (stale_not_down s now d (History-IsCoherent h) eq down)

coherent_down : (s : Snapshot) → IsCoherent s → s.state ≡ State.down → s.stable_state ≡ State.down
coherent_down s h down = ground arith

-- However Runs and sweeps are ordered, a Monitor that is reported down, or degraded from a stable
-- state of down, has had a confirmation Run with failing evidence.
pub down-Confirmed :
    {inputs : List Input} {s : Snapshot}
    → History inputs s
    → (s.state ≡ State.down) ⊎ (s.stable_state ≡ State.down)
    → Confirmed Evidence.failing inputs
down-Confirmed {s = s} h (inl down) =
    stable_down-Confirmed h (coherent_down s (History-IsCoherent h) down)
down-Confirmed h (inr down) = stable_down-Confirmed h down
