-- ===== src/AuditTruncate/Order.antt =====
-- No event is lost, doubled or moved: plugin/audit/truncate/truncate.go.
use apiserver.Base.{
  ℕ, Bool, true, false, not, ◌&&◌, List, [], ◌∷◌, ◌++◌, Error, errorf, Result, ok, err, is_empty,
  if◌then◌else◌, if_ind, ◌≡◌, refl, sym, ap, ◌∙◌, append-nil, append_assoc,
}
use apiserver.AuditTruncate.{
  AuditEvent, Config, Progress, exceeds, add64, prepare, flush, drop, append, make_room, settle,
  process_each, nothing_yet, send_rest, process_events,
}

module _ {A : Type 0} (c : Config) (calc_size : AuditEvent A → Result ℕ)
    (accept : ℕ → List (AuditEvent A) → Bool) where
  abbrev pub is_within : Result ℕ → Bool
  is_within (err e) = false
  is_within (ok size) = not (exceeds size c.max_event_size)

  -- The prepared events that can be sent, and those that cannot, told without batches.
  pub sendable : List (AuditEvent A) → List (AuditEvent A)
  sendable [] = []
  sendable (e ∷ es) =
      let e' = prepare c calc_size accept e in
      if is_within (calc_size e') then e' ∷ sendable es else sendable es

  pub unsendable : List (AuditEvent A) → List (AuditEvent A)
  unsendable [] = []
  unsendable (e ∷ es) =
      let e' = prepare c calc_size accept e in
      if is_within (calc_size e') then unsendable es else e' ∷ unsendable es

  pub concat : List (List (AuditEvent A)) → List (AuditEvent A)
  concat [] = []
  concat (b ∷ bs) = b ++ concat bs

  concat-append :
      (bs : List (List (AuditEvent A))) (b : List (AuditEvent A))
      → concat (bs ++ (b ∷ [])) ≡ concat bs ++ b
  unfolding concat
  concat-append [] b = append-nil b
  concat-append (x ∷ bs) b =
      ap (λ l. x ++ l) (concat-append bs b) ∙ sym (append_assoc x (concat bs) b)

  -- The events that were passed on or wait in the batch.
  taken : Progress A → List (AuditEvent A)
  taken p = concat p.sent ++ p.batch

  taken-flush : (p : Progress A) → taken (flush c calc_size accept p) ≡ taken p
  unfolding taken
  taken-flush p = append-nil _ ∙ concat-append p.sent p.batch

  taken-append :
      (p : Progress A) (e : AuditEvent A) (n : ℕ)
      → taken (append c calc_size accept e n p) ≡ taken p ++ (e ∷ [])
  unfolding taken
  taken-append p e n = sym (append_assoc (concat p.sent) p.batch (e ∷ []))

  room_keeps :
      (n : ℕ) (p : Progress A)
      → (taken (make_room c calc_size accept n p) ≡ taken p)
        × ((make_room c calc_size accept n p).impacted ≡ p.impacted)
  room_keeps n p =
      if_ind (λ (q : Progress A). (taken q ≡ taken p) × (q.impacted ≡ p.impacted))
        (not (is_empty p.batch) && exceeds (add64 p.batch_size n) c.max_batch_size)
        (λ t. (taken-flush p, refl)) (λ t. (refl, refl))

  taken-settle :
      (p : Progress A) (e : AuditEvent A) (r : Result ℕ)
      → (taken (settle c calc_size accept e r p) ≡ taken p ++ (if is_within r then e ∷ [] else []))
        × ((settle c calc_size accept e r p).impacted
            ≡ p.impacted ++ (if is_within r then [] else e ∷ []))
  unfolding taken
  taken-settle p e (err x) = (sym (append-nil _), refl)
  taken-settle p e (ok n) = by_test (exceeds n c.max_event_size)
    where
      too_large : Error
      too_large = errorf "event is too large even after truncating" []

      by_test :
          (b : Bool)
          → (taken (
                if b
                then drop c calc_size accept too_large e p
                else append c calc_size accept e n (make_room c calc_size accept n p))
              ≡ taken p ++ (if not b then e ∷ [] else []))
            × ((if b
                  then drop c calc_size accept too_large e p
                  else append c calc_size accept e n (make_room c calc_size accept n p)).impacted
                ≡ p.impacted ++ (if not b then [] else e ∷ []))
      by_test true = (sym (append-nil _), refl)
      by_test false = (
        taken-append (make_room c calc_size accept n p) e n
            ∙ ap (λ l. l ++ (e ∷ [])) (room_keeps n p).0,
        (room_keeps n p).1 ∙ sym (append-nil _),
      )

  with_head :
      (b : Bool) (e : AuditEvent A) (es : List (AuditEvent A))
      → ((if b then e ∷ [] else []) ++ es ≡ (if b then e ∷ es else es))
        × ((if b then [] else e ∷ []) ++ es ≡ (if b then es else e ∷ es))
  with_head true e es = (refl, refl)
  with_head false e es = (refl, refl)

  taken-process_each :
      (events : List (AuditEvent A)) (p : Progress A)
      → (taken (process_each c calc_size accept events p) ≡ taken p ++ sendable events)
        × ((process_each c calc_size accept events p).impacted ≡ p.impacted ++ unsendable events)
  unfolding sendable unsendable
  taken-process_each [] p = (sym (append-nil _), sym (append-nil _))
  taken-process_each (x ∷ events) p =
      let e = prepare c calc_size accept x in
      let s = taken-settle p e (calc_size e) in
      let r = taken-process_each events (settle c calc_size accept e (calc_size e) p) in
      (
        r.0
            ∙ ap (λ l. l ++ sendable events) s.0
            ∙ append_assoc (taken p) _ (sendable events)
            ∙ ap (λ l. taken p ++ l) (with_head (is_within (calc_size e)) e (sendable events)).0,
        r.1
            ∙ ap (λ l. l ++ unsendable events) s.1
            ∙ append_assoc p.impacted _ (unsendable events)
            ∙ ap (λ l. p.impacted ++ l)
                (with_head (is_within (calc_size e)) e (unsendable events)).1,
      )

  send_rest_sends :
      (p : Progress A)
      → (concat (send_rest c calc_size accept p).sent ≡ taken p)
        × ((send_rest c calc_size accept p).impacted ≡ p.impacted)
  unfolding taken
  send_rest_sends p = by_batch p.batch refl
    where
      by_batch :
          (b : List (AuditEvent A))
          → p.batch ≡ b
          → (concat (if not (is_empty b) then flush c calc_size accept p else p).sent ≡ taken p)
            × ((if not (is_empty b) then flush c calc_size accept p else p).impacted ≡ p.impacted)
      by_batch [] e = (sym (ap (λ l. concat p.sent ++ l) e ∙ append-nil _), refl)
      by_batch (x ∷ b) e = (concat-append p.sent p.batch, refl)

  -- The batches that the delegate gets, one after the other, are the events that can be sent, in their
  -- order and each once, truncated where they were too large; the others are reported, in their order.
  pub process_events-partition :
      (events : List (AuditEvent A))
      → (concat (process_events c calc_size accept events).sent ≡ sendable events)
        × ((process_events c calc_size accept events).impacted ≡ unsendable events)
  unfolding process_events concat taken
  process_events-partition events =
      let p = process_each c calc_size accept events (nothing_yet c calc_size accept) in
      let r = taken-process_each events (nothing_yet c calc_size accept) in
      ((send_rest_sends p).0 ∙ r.0, (send_rest_sends p).1 ∙ r.1)
