-- ===== src/Outbox/Handling.antt =====
-- What `handle` of internal/outbox/outbox.go decides for one entry, and what `Tick` counts.
use mathlib.Core.List.{Permᴰ, Perm}
use mathlib.Core.Logic.{∥∥₁_elim}
use probehive.Base.{
  ℕ, suc, ◌+◌, ◌≡◌, ◌⊎◌, ◌↔◌, ◌∙◌, inl, inr, refl, sym, ap, Bool, true, false, Option, none, some,
  List, [], ◌∷◌, map, length, arith,
}
use probehive.Base.Int.{pos, ◌+ℤ◌, ◌≤ℤ◌, ◌<ℤ◌, +ℤ_parts}
use probehive.Base.Time.{Time, add, is_zero}
use probehive.Outbox.Model.{Entry, Code, Handled, succeeds, fails, HandledOutcome, TickResult}
use probehive.Outbox.Retry.{retry_delay, retry_cap}
use probehive.Outbox.Backoff.{retry_delay_bounds}
use probehive.Outbox.Dispatch.{
  Answers, failure_of, is_gap, is_dead, first_seen, next_attempt, handle, count_outcome, count_all,
  outcome_of, tick, max_attempts, gap_timeout,
}

-- When an entry must not be retried: a version gap that was seen fifteen minutes ago or earlier;
-- or another failure that is permanent, or that came at the twelfth attempt or later.
abbrev pub MustStop : Entry → Code → Bool → Time → Type 0
MustStop entry code permanent now =
    ((is_gap code ≡ true)
      × (is_zero entry.gap_first_seen_at ≡ false)
      × (entry.gap_first_seen_at.instant +ℤ gap_timeout ≤ℤ now.instant))
    ⊎ ((is_gap code ≡ false) × ((permanent ≡ true) ⊎ (max_attempts ≤ℤ entry.attempts)))

is_dead-MustStop :
    (entry : Entry) (code : Code) (permanent : Bool) (now : Time)
    → is_dead entry code permanent now ≡ true
    → MustStop entry code permanent now
unfolding is_dead add
is_dead-MustStop entry code permanent now h =
    ground (
      arith,
      +ℤ_parts now.instant gap_timeout,
      +ℤ_parts entry.gap_first_seen_at.instant gap_timeout,
    )

MustStop-is_dead :
    (entry : Entry) (code : Code) (permanent : Bool) (now : Time)
    → MustStop entry code permanent now
    → is_dead entry code permanent now ≡ true
unfolding is_dead add
MustStop-is_dead entry code permanent now h =
    ground (
      arith,
      +ℤ_parts now.instant gap_timeout,
      +ℤ_parts entry.gap_first_seen_at.instant gap_timeout,
    )

fails_parts :
    (entry : Entry) (answers : Answers) (now next : Time) (code : Code) (dead : Bool)
    → (handle entry answers now).0 ≡ fails code next dead
    → (code ≡ (failure_of answers.handler answers.stopped).0)
      × (dead ≡ is_dead entry code (failure_of answers.handler answers.stopped).1 now)
      × (next ≡ next_attempt entry code dead now)
unfolding handle
fails_parts entry answers now next code dead e = ground arith

next_bounds :
    (entry : Entry) (code : Code) (permanent : Bool) (now : Time)
    → is_dead entry code permanent now ≡ false
    → (now.instant <ℤ (next_attempt entry code false now).instant)
      × ((next_attempt entry code false now).instant ≤ℤ now.instant +ℤ pos retry_cap)
      × ((is_gap code ≡ false)
          ⊎ ((next_attempt entry code false now).instant
              ≤ℤ (first_seen entry now).instant +ℤ gap_timeout))
unfolding is_dead next_attempt add
next_bounds entry code permanent now h = ground (
  arith,
  retry_delay_bounds entry.id entry.attempts,
  +ℤ_parts now.instant (pos (retry_delay entry.id entry.attempts)),
  +ℤ_parts now.instant (pos retry_cap),
  +ℤ_parts now.instant gap_timeout,
  +ℤ_parts entry.gap_first_seen_at.instant gap_timeout,
)

-- A failed entry is dead-lettered exactly if it must not be retried: for a version gap once fifteen
-- minutes have passed since it was first seen, whatever the attempts; for another failure if it is
-- permanent or came at the twelfth attempt or later.
pub handle-MustStop :
    (entry : Entry) (answers : Answers) (now next : Time) (code : Code) (dead : Bool)
    → (handle entry answers now).0 ≡ fails code next dead
    → (dead ≡ true) ↔ MustStop entry code (failure_of answers.handler answers.stopped).1 now
handle-MustStop entry answers now next code dead e =
    let (_, d, _) = fails_parts entry answers now next code dead e in
    let permanent = (failure_of answers.handler answers.stopped).1 in
    (
      (λ h. is_dead-MustStop entry code permanent now (sym d ∙ h)),
      λ h. d ∙ MustStop-is_dead entry code permanent now h,
    )

-- An entry that is retried becomes available later than now, and within five minutes; after a
-- version gap no later than fifteen minutes after the gap was first seen.
pub handle_retry_bounds :
    (entry : Entry) (answers : Answers) (now next : Time) (code : Code)
    → (handle entry answers now).0 ≡ fails code next false
    → (now.instant <ℤ next.instant)
      × (next.instant ≤ℤ now.instant +ℤ pos retry_cap)
      × ((is_gap code ≡ false) ⊎ (next.instant ≤ℤ (first_seen entry now).instant +ℤ gap_timeout))
handle_retry_bounds entry answers now next code e =
    let (_, d, n) = fails_parts entry answers now next code false e in
    rw n (next_bounds entry code (failure_of answers.handler answers.stopped).1 now (sym d))

-- The handler reported no failure: nil, or a `Failure` whose code is the empty string.
abbrev pub ReportsNone : Option Handled → Type 0
ReportsNone handler =
    (handler ≡ some Handled.done)
    ⊎ ((permanent : Bool) × (handler ≡ some (Handled.failure Code.empty permanent)))

succeeds-ReportsNone :
    (entry : Entry) (answers : Answers) (now : Time)
    → (handle entry answers now).0 ≡ succeeds
    → ReportsNone answers.handler
unfolding handle failure_of
succeeds-ReportsNone entry answers now e = go answers.handler refl
  where
    go : (h : Option Handled) → answers.handler ≡ h → ReportsNone answers.handler
    go none eq = ground arith
    go (some Handled.done) eq = inl eq
    go (some (Handled.failure Code.empty permanent)) eq = inr (permanent, eq)
    go (some (Handled.failure code permanent)) eq = ground arith
    go (some Handled.broken) eq = ground arith

ReportsNone-succeeds :
    (entry : Entry) (answers : Answers) (now : Time)
    → ReportsNone answers.handler
    → (handle entry answers now).0 ≡ succeeds
unfolding handle failure_of
ReportsNone-succeeds entry answers now (inl e) = ground arith
ReportsNone-succeeds entry answers now (inr (p, e)) = ground arith

-- The store is asked to complete an entry exactly if a handler is known for its topic and reported
-- no failure; a `Failure` with an empty code is taken for none.
pub handle_succeeds_iff :
    (entry : Entry) (answers : Answers) (now : Time)
    → ((handle entry answers now).0 ≡ succeeds) ↔ ReportsNone answers.handler
handle_succeeds_iff entry answers now =
    (succeeds-ReportsNone entry answers now, ReportsNone-succeeds entry answers now)

abbrev empty_result : ℕ → TickResult
empty_result claimed = record {
  claimed = claimed;
  succeeded = 0;
  retried = 0;
  dead_lettered = 0;
  lost = 0;
}

total : TickResult → ℕ
total r = r.succeeded + r.retried + r.dead_lettered + r.lost

count_all-total :
    (os : List HandledOutcome) (r : TickResult)
    → (total (count_all os r) ≡ total r + length os) × ((count_all os r).claimed ≡ r.claimed)
unfolding count_all count_outcome total
count_all-total [] r = (omega arith, refl)
count_all-total (HandledOutcome.succeeded ∷ os) r =
    omega (arith, count_all-total os (count_outcome HandledOutcome.succeeded r))
count_all-total (HandledOutcome.retried ∷ os) r =
    omega (arith, count_all-total os (count_outcome HandledOutcome.retried r))
count_all-total (HandledOutcome.dead_lettered ∷ os) r =
    omega (arith, count_all-total os (count_outcome HandledOutcome.dead_lettered r))
count_all-total (HandledOutcome.lost ∷ os) r =
    omega (arith, count_all-total os (count_outcome HandledOutcome.lost r))

length-map {ℓ κ} :
    {A : Type ℓ} {B : Type κ} (f : A → B) (xs : List A) → length (map f xs) ≡ length xs
length-map f [] = refl
length-map f (x ∷ xs) = ap suc (length-map f xs)

count_swap :
    (a b : HandledOutcome) (r : TickResult)
    → count_outcome a (count_outcome b r) ≡ count_outcome b (count_outcome a r)
unfolding count_outcome
count_swap a b r = ground arith

count_all-perm :
    {xs ys : List HandledOutcome} (r : TickResult) → Permᴰ xs ys → count_all xs r ≡ count_all ys r
unfolding count_all
count_all-perm r Permᴰ.nil = refl
count_all-perm r (Permᴰ.cons {a = a} {b = b} {l₁ = l₁} {l₂ = l₂} e p) =
    rw e (count_all-perm (count_outcome b r) p)
count_all-perm r (Permᴰ.swap {a = a} {b = b} {a' = c} {b' = d} {l = l} e f) =
    rw (e, f) (ap (count_all l) (count_swap c d r))
count_all-perm r (Permᴰ.trans p q) = count_all-perm r p ∙ count_all-perm r q

map-permᴰ {ℓ κ} :
    {A : Type ℓ} {B : Type κ} (f : A → B) {xs ys : List A}
    → Permᴰ xs ys
    → Permᴰ (map f xs) (map f ys)
map-permᴰ f Permᴰ.nil = Permᴰ.nil
map-permᴰ f (Permᴰ.cons e p) = Permᴰ.cons (ap f e) (map-permᴰ f p)
map-permᴰ f (Permᴰ.swap e g) = Permᴰ.swap (ap f e) (ap f g)
map-permᴰ f (Permᴰ.trans p q) = Permᴰ.trans (map-permᴰ f p) (map-permᴰ f q)

length-permᴰ {ℓ} : {A : Type ℓ} {xs ys : List A} → Permᴰ xs ys → length xs ≡ length ys
length-permᴰ Permᴰ.nil = refl
length-permᴰ (Permᴰ.cons e p) = ap suc (length-permᴰ p)
length-permᴰ (Permᴰ.swap e f) = refl
length-permᴰ (Permᴰ.trans p q) = length-permᴰ p ∙ length-permᴰ q

TickResult-set : IsSet TickResult
TickResult-set = hlevel

tick_permᴰ : {xs ys : List (Entry × Answers)} (now : Time) → Permᴰ xs ys → tick xs now ≡ tick ys now
unfolding tick
tick_permᴰ {xs} {ys} now p = rw (length-permᴰ p) (count_all-perm _ (map-permᴰ (outcome_of now) p))

-- Every claimed entry is counted once, as succeeded, retried, dead-lettered or lost; and the result
-- of a tick does not depend on the order in which the handlers of its entries end.
pub tick_counts :
    (xs ys : List (Entry × Answers)) (now : Time)
    → Perm xs ys
    → (tick xs now ≡ tick ys now)
      × ((tick xs now).claimed ≡ length xs)
      × ((tick xs now).succeeded
            + (tick xs now).retried
            + (tick xs now).dead_lettered
            + (tick xs now).lost
          ≡ length xs)
unfolding tick total
tick_counts xs ys now perm =
    let counted = count_all-total (map (outcome_of now) xs) (empty_result (length xs)) in
    (
      ∥∥₁_elim perm (TickResult-set _ _) (tick_permᴰ now),
      counted.1,
      omega (arith, counted.0, length-map (outcome_of now) xs),
    )
