-- ===== src/Maintenance/Requests.antt =====
-- What `Create` of internal/maintenance/service.go answers.
use probehive.Base.{
  ap, sym, ◌∙◌, String, true, false, none, some, List, [], ◌∷◌, Result, ok, is_empty, ◌≡◌, ◌⊎◌, ◌↔◌,
  inl, inr, refl, arith, Bool-cases,
}
use probehive.Base.Int.{◌≤ℤ◌, ◌<ℤ◌, ◌+ℤ◌, +ℤ_parts, -ℤ_parts}
use probehive.Base.Time.{Time, sub, to_utc, is_zero, before, after}
use probehive.Maintenance.Window.{
  Window, Error, max_duration, explicit_utc, valid_scope, new_window, restore_window,
  restore_cancellation,
}
use probehive.Maintenance.Service.{
  CreateCommand, CreateResult, Failure, failures, starts_valid, ends_valid, create, stored_window,
  create_valid,
}

-- A request that can be met: an explicit UTC start that is not past, a later UTC end, thirty days at
-- most.
pub record IsAcceptable (command : CreateCommand) (now : Time) : Type 0 where
  pub starts_explicit : explicit_utc command.starts_at ≡ true
  pub ends_explicit : explicit_utc command.ends_at ≡ true
  pub not_past : now.instant ≤ℤ command.starts_at.instant
  pub ordered : command.starts_at.instant <ℤ command.ends_at.instant
  pub bounded : command.ends_at.instant ≤ℤ command.starts_at.instant +ℤ max_duration

IsAcceptable-failures :
    (command : CreateCommand) (now : Time) → IsAcceptable command now → failures command now ≡ []
unfolding failures sub
IsAcceptable-failures command now a = ground (
  arith,
  -ℤ_parts command.ends_at.instant command.starts_at.instant,
  +ℤ_parts command.starts_at.instant max_duration,
)

failures-IsAcceptable :
    (command : CreateCommand) (now : Time) → failures command now ≡ [] → IsAcceptable command now
unfolding failures sub
failures-IsAcceptable command now e = ground (
  arith,
  -ℤ_parts command.ends_at.instant command.starts_at.instant,
  +ℤ_parts command.starts_at.instant max_duration,
)

abbrev pub StartsWell : CreateCommand → Time → Type 0
StartsWell command now =
    (explicit_utc command.starts_at ≡ true) × (now.instant ≤ℤ command.starts_at.instant)

abbrev pub StartsWrong : CreateCommand → Time → Type 0
StartsWrong command now =
    (explicit_utc command.starts_at ≡ false) ⊎ (command.starts_at.instant <ℤ now.instant)

abbrev pub EndsWell : CreateCommand → Type 0
EndsWell command =
    (explicit_utc command.ends_at ≡ true) × (command.starts_at.instant <ℤ command.ends_at.instant)

abbrev pub EndsWrong : CreateCommand → Type 0
EndsWrong command =
    (explicit_utc command.ends_at ≡ false) ⊎ (command.ends_at.instant ≤ℤ command.starts_at.instant)

-- The failures of a request that cannot be met; its length counts only where its ends are well.
abbrev pub Refuses : CreateCommand → Time → List Failure → Type 0
Refuses command now listed =
    (StartsWrong command now
      × EndsWrong command
      × (listed ≡ Failure.starts_at_invalid ∷ Failure.ends_at_invalid ∷ []))
    ⊎ (StartsWrong command now × EndsWell command × (listed ≡ Failure.starts_at_invalid ∷ []))
    ⊎ (StartsWell command now × EndsWrong command × (listed ≡ Failure.ends_at_invalid ∷ []))
    ⊎ (StartsWell command now
        × EndsWell command
        × (command.starts_at.instant +ℤ max_duration <ℤ command.ends_at.instant)
        × (listed ≡ Failure.duration_invalid ∷ []))

starts_cases :
    (command : CreateCommand) (now : Time)
    → ((starts_valid command now ≡ true) × StartsWell command now)
      ⊎ ((starts_valid command now ≡ false) × StartsWrong command now)
starts_cases command now = elim (Bool-cases (explicit_utc command.starts_at)) [
  | inl u ↦ elim (Bool-cases (before command.starts_at now)) [
    | inl b ↦ inr (ground arith, inr (ground arith))
    | inr b ↦ inl (ground arith, (u, ground arith))
  ]
  | inr u ↦ inr (ground arith, inl u)
]

ends_cases :
    (command : CreateCommand)
    → ((ends_valid command ≡ true) × EndsWell command)
      ⊎ ((ends_valid command ≡ false) × EndsWrong command)
ends_cases command = elim (Bool-cases (explicit_utc command.ends_at)) [
  | inl u ↦ elim (Bool-cases (after command.ends_at command.starts_at)) [
    | inl b ↦ inl (ground arith, (u, ground arith))
    | inr b ↦ inr (ground arith, inr (ground arith))
  ]
  | inr u ↦ inr (ground arith, inl u)
]

failures-Refuses :
    (command : CreateCommand) (now : Time) (failure : Failure) (more : List Failure)
    → failures command now ≡ failure ∷ more
    → Refuses command now (failure ∷ more)
unfolding failures sub
failures-Refuses command now failure more e = elim (starts_cases command now) [
  | inr (s, wrong) ↦ elim (ends_cases command) [
    | inr (t, bad) ↦ inl (wrong, bad, ground arith)
    | inl (t, good) ↦ inr (inl (wrong, good, ground arith))
  ]
  | inl (s, well) ↦ elim (ends_cases command) [
    | inr (t, bad) ↦ inr (inr (inl (well, bad, ground arith)))
    | inl (t, good) ↦ inr (
        inr (
          inr (
            well,
            good,
            ground (
              arith,
              -ℤ_parts command.ends_at.instant command.starts_at.instant,
              +ℤ_parts command.starts_at.instant max_duration,
            ),
            ground arith,
          )))
  ]
]

abbrev the_result : CreateResult → Result Error CreateResult
the_result r = ok r

-- The Window that a request makes.
abbrev pub window_of : String → CreateCommand → Time → Window
window_of id command now = record {
  id = id;
  organization_id = command.scope.organization_id;
  monitor_id = command.scope.monitor_id;
  starts_at = to_utc command.starts_at;
  ends_at = to_utc command.ends_at;
  created_at = to_utc now;
  cancelled_at = none;
  version = 0;
}

module _ (id : String) (create_window : Window → Result Error (Unit {0})) (command : CreateCommand)
    (now : Time) (named : is_empty id ≡ false) (scoped : valid_scope command.scope ≡ true)
    (set : is_zero now ≡ false) where
  acceptable_window :
      IsAcceptable command (to_utc now)
      → new_window id command.scope (to_utc command.starts_at) (to_utc command.ends_at) (to_utc now)
        ≡ ok (window_of id command now)
  unfolding new_window restore_window restore_cancellation sub
  acceptable_window a = ground (
    arith,
    -ℤ_parts command.ends_at.instant command.starts_at.instant,
    +ℤ_parts command.starts_at.instant max_duration,
  )

  create_acceptable :
      IsAcceptable command (to_utc now)
      → create (some id) create_window command now
        ≡ stored_window (window_of id command now) (create_window (window_of id command now))
  unfolding create create_valid
  create_acceptable a =
      ground (arith, IsAcceptable-failures command (to_utc now) a, acceptable_window a)

  create_refused :
      (failure : Failure) (more : List Failure)
      → failures command (to_utc now) ≡ failure ∷ more
      → create (some id) create_window command now ≡ ok (CreateResult.invalid (failure ∷ more))
  unfolding create
  create_refused failure more e = ground arith

-- For a generated identifier, a complete scope, a clock that is not the zero instant and a store that
-- accepts, a request creates a window exactly if it is acceptable: an explicit UTC start that is not
-- past, a later UTC end, thirty days at most. The window is the requested one. Every other request is
-- answered with its failures: a start that is not in UTC or past, an end that is not in UTC or not
-- later than the start, and, where both are well, a length of more than thirty days.
pub create_iff :
    (id : String) (command : CreateCommand) (now : Time) (w : Window)
    → is_empty id ≡ false
    → valid_scope command.scope ≡ true
    → is_zero now ≡ false
    → ((create (some id) (λ v. ok tt) command now ≡ ok (CreateResult.created w))
        ↔ (IsAcceptable command (to_utc now) × (window_of id command now ≡ w)))
      × (IsAcceptable command (to_utc now)
          ⊎ ((listed : List Failure) × (Refuses command (to_utc now) listed
                × (create (some id) (λ v. ok tt) command now ≡ ok (CreateResult.invalid listed)))))
create_iff id command now w named scoped set = elim (failures_cases command (to_utc now)) [
  | inl e ↦
      let a = failures-IsAcceptable command (to_utc now) e in
      let made = create_acceptable id (λ v. ok tt) command now named scoped set a in
      (
        (
          λ h. (a, created_same (sym made ∙ h)),
          λ h. made ∙ ap (λ v. ok (CreateResult.created v)) h.1,
        ),
        inl a,
      )
  | inr (failure, (more, e)) ↦
      let refused = create_refused id (λ v. ok tt) command now named scoped set failure more e in
      (
        (
          λ h. absurd (invalid_created (sym refused ∙ h)),
          λ h.
              create_acceptable id (λ v. ok tt) command now named scoped set h.0
              ∙ ap (λ v. ok (CreateResult.created v)) h.1,
        ),
        inr (failure ∷ more, (failures-Refuses command (to_utc now) failure more e, refused)),
      )
]
  where
    failures_cases :
        (c : CreateCommand) (t : Time)
        → (failures c t ≡ [])
          ⊎ ((f : Failure) × ((more : List Failure) × (failures c t ≡ f ∷ more)))
    failures_cases c t = list_cases (failures c t)
      where
        list_cases :
            (l : List Failure)
            → (l ≡ []) ⊎ ((f : Failure) × ((more : List Failure) × (l ≡ f ∷ more)))
        list_cases [] = inl refl
        list_cases (f ∷ more) = inr (f, (more, refl))

    created_same :
        {v : Window} → (ok (CreateResult.created v)) ≡ the_result (CreateResult.created w) → v ≡ w
    created_same e = cc

    invalid_created :
        {l : List Failure} → (ok (CreateResult.invalid l)) ≡ the_result (CreateResult.created w) → ⊥
    invalid_created e = cc
