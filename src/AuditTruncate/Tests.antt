-- ===== src/AuditTruncate/Tests.antt =====
-- Batches of some events, and instances of the theorems about them. An event with a request is of
-- size 3, and one without of size 1.
use apiserver.Base.{
  ℕ, ◌<◌, String, Bool, false, List, [], ◌∷◌, All, Option, none, some, Result, ok, ◌≡◌, refl, arith,
  ok_inj, nat_eq, not,
}
use apiserver.AuditTruncate.{AuditEvent, Config, int64_sign, truncate, prepare, process_events}
use apiserver.AuditTruncate.Bounds.{Fits, process_events-Fits}
use apiserver.AuditTruncate.Order.{sendable, unsendable, concat, process_events-partition}

abbrev event : String → AuditEvent String
event s = record {
  level = "Request";
  request_object = some s;
  response_object = none;
  annotations = [];
  rest = "";
}

abbrev size : AuditEvent String → Result ℕ
size e = elim e.request_object [ none ↦ ok 1 | some s ↦ ok 3 ]

-- The delegate fails on its second batch.
abbrev accept : ℕ → List (AuditEvent String) → Bool
accept i batch = not (nat_eq i 1)

abbrev wide : Config
wide = record { max_event_size = 3; max_batch_size = 5 }

abbrev narrow : Config
narrow = record { max_event_size = 2; max_batch_size = 5 }

abbrev events : List (AuditEvent String)
events = event "a" ∷ (event "b" ∷ [])

splits : (process_events wide size accept events).sent ≡ (event "a" ∷ []) ∷ ((event "b" ∷ []) ∷ [])
unfolding process_events prepare
splits = refl

fails : (process_events wide size accept events).success ≡ false
unfolding process_events prepare
fails = refl

truncates :
    (process_events narrow size accept events).sent
    ≡ (truncate (event "a") ∷ (truncate (event "b") ∷ [])) ∷ []
unfolding process_events prepare truncate
truncates = refl

size_small : (e : AuditEvent String) (n : ℕ) → size e ≡ ok n → n < int64_sign
size_small e n = by_request e.request_object
  where
    by_request :
        (o : Option String) → (elim o [ none ↦ ok 1 | some s ↦ ok 3 ]) ≡ ok n → n < int64_sign
    by_request none h = omega (arith, ok_inj h)
    by_request (some s) h = omega (arith, ok_inj h)

process_events-Fits_example :
    All (Fits wide size accept) (process_events wide size accept events).sent
process_events-Fits_example =
    process_events-Fits wide size accept size_small (omega arith) (omega arith) events

process_events-partition_example :
    (concat narrow size accept (process_events narrow size accept events).sent
      ≡ sendable narrow size accept events)
    × ((process_events narrow size accept events).impacted ≡ unsendable narrow size accept events)
process_events-partition_example = process_events-partition narrow size accept events
