-- ===== src/Health/Sweeping.antt =====
-- What a staleness sweep of internal/health/service.go asks the store, and what it reports.
use probehive.Base.{
  Bool, true, false, ◌+◌, ◌≤◌, ◌≡◌, ◌↔◌, Option, none, some, List, [], ◌∷◌, length, arith,
}
use probehive.Health.Service.{StaleTarget, SweepAnswers, ServiceError, sweep_targets}

abbrev pub IsPrefix : List StaleTarget → List (StaleTarget × SweepAnswers) → Type 0
IsPrefix [] targets = Unit {0}
IsPrefix (mark ∷ marks) [] = ⊥
IsPrefix (mark ∷ marks) ((target, answers) ∷ rest) = (mark ≡ target) × IsPrefix marks rest

abbrev is_absent : Option ServiceError → Bool
is_absent none = true
is_absent (some e) = false

marks-IsPrefix :
    (targets : List (StaleTarget × SweepAnswers)) → IsPrefix (sweep_targets targets).marks targets
unfolding sweep_targets
marks-IsPrefix [] = tt
marks-IsPrefix ((target, answers) ∷ rest) = ground (arith, marks-IsPrefix rest)

sweep_counts :
    (targets : List (StaleTarget × SweepAnswers))
    → ((sweep_targets targets).processed ≤ length (sweep_targets targets).marks)
      × (length (sweep_targets targets).marks ≤ (sweep_targets targets).processed + 1)
      × (((sweep_targets targets).failure ≡ none)
          ↔ ((sweep_targets targets).processed ≡ length targets))
unfolding sweep_targets
sweep_counts [] = ground arith
sweep_counts ((target, answers) ∷ rest) = ground (arith, sweep_counts rest)

-- A sweep asks the store to mark an initial part of the stale targets, in their order. It reports
-- the number of those that were marked, which is the number asked or one less, and it ends without
-- an error exactly if every target was marked.
pub sweep_targets-IsPrefix :
    (targets : List (StaleTarget × SweepAnswers))
    → IsPrefix (sweep_targets targets).marks targets
      × ((sweep_targets targets).processed ≤ length (sweep_targets targets).marks)
      × (length (sweep_targets targets).marks ≤ (sweep_targets targets).processed + 1)
      × (((sweep_targets targets).failure ≡ none)
          ↔ ((sweep_targets targets).processed ≡ length targets))
sweep_targets-IsPrefix targets =
    let (few, most, all) = sweep_counts targets in (marks-IsPrefix targets, few, most, all)
