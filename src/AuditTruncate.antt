-- ===== src/AuditTruncate.antt =====
-- The audit back end that truncates events and splits batches: plugin/audit/truncate/truncate.go, with
-- LogAnnotation of pkg/audit/request.go and the order of levels of pkg/apis/audit/helpers.go. An int64
-- that is not negative is a number below 2^63, and the sum of two is taken modulo 2^64. The encoder,
-- which is golib's, is `calc_size`; `accept i` is what the delegate returns for its i-th batch.
pub mod Bounds
pub mod Order
mod Tests
use apiserver.Base.{
  ℕ, ◌+◌, String, Bool, true, false, not, ◌&&◌, List, [], ◌∷◌, ◌++◌, Option, none, some, Map,
  lookup, put, Error, errorf, error_new, Result, ok, err, ltb, leb, nat_eq, length, is_empty,
  if◌then◌else◌, ◌==◌,
}
use Prim.Native.Nat.{◌%◌}
use apiserver.AuditPolicy.{level_metadata, level_request, level_request_response}

-- The fields that the back end reads or changes, and the rest of them.
pub record AuditEvent (A : Type 0) : Type 0 where
  pub level : String
  pub request_object : Option A
  pub response_object : Option A
  pub annotations : Map String
  pub rest : A

pub record Config : Type 0 where
  pub max_event_size : ℕ
  pub max_batch_size : ℕ

abbrev pub ord_level : String → ℕ
ord_level l =
    if l == level_metadata
    then 1
    else if l == level_request
    then 2
    else if l == level_request_response
    then 3
    else 0

abbrev pub less_level : String → String → Bool
less_level a b = ltb (ord_level a) (ord_level b)

abbrev pub greater_or_equal : String → String → Bool
greater_or_equal a b = leb (ord_level b) (ord_level a)

-- `v, ok := annotations[key]; ok && v != value`
abbrev pub is_other : Option String → String → Bool
is_other none value = false
is_other (some v) value = not (v == value)

unfoldable pub log_annotation : {A : Type 0} → AuditEvent A → String → String → AuditEvent A
log_annotation ae key value =
    if less_level ae.level level_metadata
    then ae
    else if is_other (lookup key ae.annotations) value
    then ae
    else record ae { annotations = put key value ae.annotations }

unfoldable pub truncate : {A : Type 0} → AuditEvent A → AuditEvent A
unfolding log_annotation
truncate e =
    log_annotation (record e { request_object = none; response_object = none })
      "audit.k8s.io/truncated" "true"

abbrev pub int64_mod : ℕ
int64_mod = 18446744073709551616

abbrev pub int64_sign : ℕ
int64_sign = 9223372036854775808

-- `a + b` of two int64
abbrev pub add64 : ℕ → ℕ → ℕ
add64 a b = (a + b) % int64_mod

-- `a > max` for a max that is not negative: a word with the sign bit is negative.
abbrev pub exceeds : ℕ → ℕ → Bool
exceeds a max = ltb a int64_sign && ltb max a

-- The variables of ProcessEvents, and the batches that the delegate got.
pub record Progress (A : Type 0) : Type 0 where
  pub errors : List Error
  pub impacted : List (AuditEvent A)
  pub batch : List (AuditEvent A)
  pub batch_size : ℕ
  pub success : Bool
  pub sent : List (List (AuditEvent A))

module _ {A : Type 0} (c : Config) (calc_size : AuditEvent A → Result ℕ)
    (accept : ℕ → List (AuditEvent A) → Bool) where
  abbrev pub is_too_large : AuditEvent A → Result ℕ → Bool
  is_too_large event (err e) = false
  is_too_large event (ok size) =
      exceeds size c.max_event_size && greater_or_equal event.level level_request

  -- The event that is sent, after the first test of the loop.
  unfoldable pub prepare : AuditEvent A → AuditEvent A
  prepare event = if is_too_large event (calc_size event) then truncate event else event

  abbrev pub flush : Progress A → Progress A
  flush p = record p {
    success = accept (length p.sent) p.batch && p.success;
    sent = p.sent ++ (p.batch ∷ []);
    batch = [];
    batch_size = 0;
  }

  abbrev pub drop : Error → AuditEvent A → Progress A → Progress A
  drop e event p = record p { errors = p.errors ++ (e ∷ []); impacted = p.impacted ++ (event ∷ []) }

  abbrev pub append : AuditEvent A → ℕ → Progress A → Progress A
  append event size p = record p {
    batch = p.batch ++ (event ∷ []);
    batch_size = add64 p.batch_size size;
  }

  abbrev pub make_room : ℕ → Progress A → Progress A
  make_room size p =
      if not (is_empty p.batch) && exceeds (add64 p.batch_size size) c.max_batch_size
      then flush p
      else p

  -- The rest of the loop's body, for the prepared event and its size.
  abbrev pub settle : AuditEvent A → Result ℕ → Progress A → Progress A
  settle event (err e) p = drop e event p
  settle event (ok size) p =
      if exceeds size c.max_event_size
      then drop (errorf "event is too large even after truncating" []) event p
      else append event size (make_room size p)

  abbrev pub process_each : List (AuditEvent A) → Progress A → Progress A
  process_each [] p = p
  process_each (event ∷ events) p =
      process_each events (settle (prepare event) (calc_size (prepare event)) p)

  abbrev pub nothing_yet : Progress A
  nothing_yet = record {
    errors = [];
    impacted = [];
    batch = [];
    batch_size = 0;
    success = true;
    sent = [];
  }

  -- What follows the loop.
  abbrev pub send_rest : Progress A → Progress A
  send_rest p = if not (is_empty p.batch) then flush p else p

  -- ProcessEvents, which returns `success` and reports `errors` with `impacted`, if there are some.
  unfoldable pub process_events : List (AuditEvent A) → Progress A
  process_events events = send_rest (process_each events nothing_yet)
