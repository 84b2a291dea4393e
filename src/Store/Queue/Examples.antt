-- ===== src/Store/Queue/Examples.antt =====
-- One entry of the outbox that is claimed, retried, claimed again and processed: the theorems about
-- internal/postgres/outbox.go at inputs that meet their hypotheses.
use probehive.Base.{
  ℕ, String, Bool, true, false, some, List, [], ◌∷◌, ok, ◌≡◌, ◌≢◌, refl, ap, inl, ◌*◌, ◌+◌,
}
use probehive.Base.Int.{pos, ◌+ℤ◌}
use probehive.Base.Time.{Time, utc, second, zero_time}
use probehive.Outbox.Model.{Entry, Code, Handled}
use probehive.Outbox.Dispatch.{failure_of}
use probehive.Store.Queue.{Db, claim, succeed, fail}
use probehive.Store.Queue.Histories.{claims, succeeds, fails, Reach, here, next}
use probehive.Store.Queue.Accounted.{IsAccounted}
use probehive.Store.Queue.Conservation.{Reach-IsAccounted}
use probehive.Store.Queue.Dispatching.{dispatch, Ends, dispatch-Ends}
use probehive.Store.Queue.Claims.{claims_disjoint}

abbrev at_second : ℕ → Time
at_second n = record { instant = pos ((63908006400 + n) * second); location = utc }

abbrev waiting : String → Entry
waiting id = record {
  id = id;
  organization_id = "org";
  topic = "run.recorded.v1";
  payload = 123 ∷ 125 ∷ [];
  attempts = pos 0;
  created_at = at_second 0;
  available_at = at_second 0;
  lease_holder = "";
  lease_expires_at = zero_time;
  gap_first_seen_at = zero_time;
}

abbrev taken : String → String → Entry
taken id holder = record (waiting id) {
  attempts = pos 1;
  lease_holder = holder;
  lease_expires_at = at_second 60;
}

abbrev holding : List Entry → Db
holding entries = record { entries = entries; processed = []; dead = [] }

abbrev unlocked : Entry → Bool
unlocked row = false

abbrev never : String → String → Bool
never a b = false

-- The first dispatcher takes one entry; the second, a second later, takes the other.
claims_one :
    claim true unlocked never
      (holding (waiting "a" ∷ waiting "b" ∷ []))
      "first"
      (at_second 1)
      (at_second 60)
      1
    ≡ (ok (taken "a" "first" ∷ []), holding (taken "a" "first" ∷ waiting "b" ∷ []))
unfolding claim ◌+ℤ◌
claims_one = refl

claims_other :
    claim true unlocked never
      (holding (taken "a" "first" ∷ waiting "b" ∷ []))
      "second"
      (at_second 2)
      (at_second 60)
      5
    ≡ (ok (taken "b" "second" ∷ []), holding (taken "a" "first" ∷ taken "b" "second" ∷ []))
unfolding claim ◌+ℤ◌
claims_other = refl

claims_disjoint_example : (taken "a" "first").id ≢ (taken "b" "second").id
claims_disjoint_example =
    claims_disjoint true true unlocked unlocked never (holding (waiting "a" ∷ waiting "b" ∷ []))
      (holding (taken "a" "first" ∷ waiting "b" ∷ []))
      (holding (taken "a" "first" ∷ taken "b" "second" ∷ [])) "first" "second" (at_second 1)
      (at_second 60) (at_second 2) (at_second 60) 1 5 (taken "a" "first" ∷ [])
      (taken "b" "second" ∷ []) (taken "a" "first") (taken "b" "second") claims_one claims_other
      refl (inl refl) (inl refl)

abbrev after_claim : Db
after_claim = holding (taken "a" "first" ∷ waiting "b" ∷ [])

abbrev after_failure : Db
after_failure =
    (fail true after_claim (taken "a" "first") "first" Code.handler_failed (at_second 5)
      (at_second 3) false).1

history :
    Reach
      (holding (waiting "a" ∷ waiting "b" ∷ []))
      (succeed true after_failure (taken "a" "first") "first" (at_second 4)).1
history =
    next
      (next
        (next here (
          claims true unlocked never "first" (at_second 1) (at_second 60) 1
            (ap (λ p. p.1) claims_one)))
        (fails true (taken "a" "first") "first" Code.handler_failed (at_second 5) (at_second 3)
          false refl))
      (succeeds true (taken "a" "first") "first" (at_second 4) refl)

Reach-IsAccounted_example :
    IsAccounted
      (waiting "a")
      (succeed true after_failure (taken "a" "first") "first" (at_second 4)).1
Reach-IsAccounted_example =
    Reach-IsAccounted (waiting "a") ((refl, tt), (tt, tt)) (inl refl) history

dispatch-Ends_example :
    Ends
      (taken "a" "first")
      (at_second 3)
      (dispatch after_claim
        (taken "a" "first")
        "first"
        (some (Handled.failure Code.payload_invalid true))
        false
        (at_second 3)).1
      (dispatch after_claim
        (taken "a" "first")
        "first"
        (some (Handled.failure Code.payload_invalid true))
        false
        (at_second 3)).0
      (failure_of (some (Handled.failure Code.payload_invalid true)) false).0
      (failure_of (some (Handled.failure Code.payload_invalid true)) false).1
dispatch-Ends_example =
    dispatch-Ends after_claim (taken "a" "first") "first" (at_second 3) ((refl, tt), (tt, tt))
      (inl refl) refl (some (Handled.failure Code.payload_invalid true)) false refl
