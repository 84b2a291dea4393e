-- ===== src/Run/Requested.antt =====
-- What internal/run/manual.go leaves of a Run that a person asked for, whatever the collaborators
-- answer.
use probehive.Base.{◌≡◌, ◌⊎◌}
use probehive.Base.Time.{Time}
use probehive.Run.Model.{Run}
use probehive.Run.Events.{Json}
use probehive.Run.Settled.{ManualClaim, Requests}
use probehive.Run.Manual.{
  Scope, ManualError, ManualConfig, ManualAnswers, Triggered, refused, claimed_manual,
}

module _ (json : Json) (answers : ManualAnswers) (config : ManualConfig) (scope : Scope)
    (now : Time) where
  abbrev IsClaim : Run → Type 0
  IsClaim p = ManualClaim config answers now p

  abbrev Requested : Triggered → Type 0
  Requested t = Requests json answers config now t.0 t.1

  -- A request is refused before anything is claimed, or claims a manual Run.
  abbrev Asks : Triggered → Type 0
  Asks t =
      ((e : ManualError) × (t ≡ refused e))
      ⊎ ((p : Run) × (IsClaim p × (t ≡ claimed_manual json answers p (answers.claim_slot p))))
