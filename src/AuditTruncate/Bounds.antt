-- ===== src/AuditTruncate/Bounds.antt =====
-- The batches stay within the configured sizes: plugin/audit/truncate/truncate.go.
use apiserver.Base.{
  ℕ, ◌+◌, ◌≤◌, ◌<◌, Bool, true, false, not, ◌&&◌, List, [], ◌∷◌, ◌++◌, All, Error, Result, ok, err,
  length, is_empty, if_ind, and_iff, ◌≡◌, ◌≢◌, ◌⊎◌, refl, sym, ap, ◌∙◌, inl, inr, subst, arith,
  Bool-cases,
}
use Prim.Native.Nat.{◌%◌}
use apiserver.AuditTruncate.{
  AuditEvent, Config, Progress, add64, exceeds, int64_sign, int64_mod, prepare, flush, drop, append,
  make_room, settle, process_each, nothing_yet, send_rest, process_events,
}

-- Below 2^63 the sum of two sizes does not wrap around.
not_over : (s max : ℕ) → s < int64_sign → exceeds (s % int64_mod) max ≡ false → s ≤ max
not_over s max l e =
    let w : s % int64_mod ≡ s = omega (arith, l) in
    ground (arith, ap (λ x. exceeds x max) (sym w) ∙ e)

second_false : (a b : Bool) → a ≡ true → (a && b) ≡ false → b ≡ false
second_false true b h e = e
second_false false b h e = absurd (ground (arith, h))

module _ {A : Type 0} (c : Config) (calc_size : AuditEvent A → Result ℕ)
    (accept : ℕ → List (AuditEvent A) → Bool) where
  abbrev size_or_zero : Result ℕ → ℕ
  size_or_zero (ok n) = n
  size_or_zero (err e) = 0

  -- The size of a batch: the sum of the sizes of its events, without a limit.
  pub total : List (AuditEvent A) → ℕ
  total [] = 0
  total (e ∷ es) = size_or_zero (calc_size e) + total es

  abbrev pub IsSmall : AuditEvent A → Type 0
  IsSmall e = (n : ℕ) × (calc_size e ≡ ok n) × (n ≤ c.max_event_size)

  -- A batch of small events that is within the size of a batch, or a single event.
  abbrev pub Fits : List (AuditEvent A) → Type 0
  Fits b = (b ≢ []) × All IsSmall b × ((total b ≤ c.max_batch_size) ⊎ (length b ≡ 1))

  -- What the loop keeps: the batch, if there is one, fits and its size is the one that is counted.
  record Kept (p : Progress A) : Type 0 where
    all_fit : All Fits p.sent
    fits : (p.batch ≡ []) ⊎ Fits p.batch
    counted : p.batch_size ≡ total p.batch
    small : p.batch_size < int64_sign

  total-append :
      (xs : List (AuditEvent A)) (e : AuditEvent A)
      → total (xs ++ (e ∷ [])) ≡ total xs + size_or_zero (calc_size e)
  unfolding total
  total-append [] e = omega arith
  total-append (x ∷ xs) e = omega (arith, total-append xs e)

  All-append :
      {B : Type 0} (P : B → Type 0) (xs : List B) (x : B) → All P xs → P x → All P (xs ++ (x ∷ []))
  All-append P [] x h k = (k, tt)
  All-append P (y ∷ xs) x (h, hs) k = (h, All-append P xs x hs k)

  append-ne : {B : Type 0} (xs : List B) (x : B) → (xs ++ (x ∷ [])) ≢ []
  append-ne [] x e = cc
  append-ne (y ∷ xs) x e = cc

  empty_of_test : {B : Type 0} (xs : List B) → not (is_empty xs) ≡ false → xs ≡ []
  empty_of_test [] e = refl
  empty_of_test (x ∷ xs) e = cc

  ne_of_nonempty : {B : Type 0} (xs : List B) → not (is_empty xs) ≡ true → xs ≢ []
  ne_of_nonempty [] h e = cc
  ne_of_nonempty (x ∷ xs) h e = cc

  Kept-flush : (p : Progress A) → (p.batch ≢ []) → Kept p → Kept (flush c calc_size accept p)
  unfolding total
  Kept-flush p n k = record {
    all_fit = elim k.fits [
      | inl e ↦ absurd (n e)
      | inr f ↦ All-append Fits p.sent p.batch k.all_fit f
    ];
    fits = inl refl;
    counted = refl;
    small = omega arith;
  }

  single_total :
      (b : List (AuditEvent A)) → length b ≡ 1 → All IsSmall b → total b ≤ c.max_event_size
  unfolding total
  single_total [] e h = absurd (omega (arith, e))
  single_total (x ∷ []) e ((n, q, l), h) = rw (q, size_or_zero) (omega (arith, l))
  single_total (x ∷ (y ∷ b)) e h = absurd (omega (arith, e))

  total-Fits :
      (b : List (AuditEvent A))
      → (b ≡ []) ⊎ Fits b
      → (total b ≤ c.max_batch_size) ⊎ (total b ≤ c.max_event_size)
  unfolding total
  total-Fits b (inl e) = inl (subst (λ x. total x ≤ c.max_batch_size) (sym e) (omega arith))
  total-Fits b (inr (n, s, inl l)) = inl l
  total-Fits b (inr (n, s, inr l)) = inr (single_total b l s)

  -- The bounds that keep the sums of sizes below 2^63, and the sizes, which are lengths.
  module _ (sizes : (e : AuditEvent A) (n : ℕ) → calc_size e ≡ ok n → n < int64_sign)
      (no_wrap_event : c.max_event_size + c.max_event_size < int64_sign)
      (no_wrap_batch : c.max_batch_size + c.max_event_size < int64_sign) where
    sum_small :
        (p : Progress A) (n : ℕ) → Kept p → n ≤ c.max_event_size → p.batch_size + n < int64_sign
    sum_small p n k l = elim (total-Fits p.batch k.fits) [
      | inl h ↦ omega (arith, k.counted, h, l, no_wrap_batch)
      | inr h ↦ omega (arith, k.counted, h, l, no_wrap_event)
    ]

    -- An event is put into a batch that has room for it.
    Kept-append :
        (p : Progress A) (e : AuditEvent A) (n : ℕ)
        → calc_size e ≡ ok n
        → n ≤ c.max_event_size
        → (p.batch ≡ []) ⊎ (p.batch_size + n ≤ c.max_batch_size)
        → Kept p
        → Kept (append c calc_size accept e n p)
    Kept-append p e n q l room k =
        let s = sum_small p n k l in
        let t : total (p.batch ++ (e ∷ [])) ≡ p.batch_size + n =
          total-append p.batch e
          ∙ ap (λ r. total p.batch + size_or_zero r) q
          ∙ ap (λ x. x + n) (sym k.counted) in
        record {
          all_fit = k.all_fit;
          fits = inr (
            append-ne p.batch e,
            All-append IsSmall p.batch e (all_small p k) (n, q, l),
            elim room [
              | inl b ↦ inr (ap (λ x. length (x ++ (e ∷ []))) b)
              | inr h ↦ inl (omega (arith, t, h))
            ],
          );
          counted = omega (arith, t, s);
          small = omega (arith, s);
        }
      where
        all_small : (p : Progress A) → Kept p → All IsSmall p.batch
        all_small p k = elim k.fits [ inl b ↦ subst (All IsSmall) (sym b) tt | inr (a, s, f) ↦ s ]

    Kept-settle :
        (p : Progress A) (e : AuditEvent A)
        → Kept p
        → Kept (settle c calc_size accept e (calc_size e) p)
    Kept-settle p e k = by_size (calc_size e) refl
      where
        dropped : (x : Error) → Kept (drop c calc_size accept x e p)
        dropped x = record {
          all_fit = k.all_fit;
          fits = k.fits;
          counted = k.counted;
          small = k.small;
        }

        has_room :
            (n : ℕ)
            → n ≤ c.max_event_size
            → (not (is_empty p.batch) && exceeds (add64 p.batch_size n) c.max_batch_size) ≡ false
            → (p.batch ≡ []) ⊎ (p.batch_size + n ≤ c.max_batch_size)
        has_room n l t = elim (Bool-cases (not (is_empty p.batch))) [
          | inl a ↦ inr (
              not_over (p.batch_size + n) c.max_batch_size (sum_small p n k l)
                (second_false _ _ a t))
          | inr a ↦ inl (empty_of_test p.batch a)
        ]

        with_room :
            (n : ℕ)
            → calc_size e ≡ ok n
            → n ≤ c.max_event_size
            → Kept (append c calc_size accept e n (make_room c calc_size accept n p))
        with_room n q l =
            if_ind (λ x. Kept (append c calc_size accept e n x))
              (not (is_empty p.batch) && exceeds (add64 p.batch_size n) c.max_batch_size)
              (λ t.
                Kept-append (flush c calc_size accept p) e n q l (inl refl)
                  (Kept-flush p (ne_of_nonempty p.batch ((and_iff _ _).0 t).0) k))
              (λ t. Kept-append p e n q l (has_room n l t) k)

        by_size : (r : Result ℕ) → calc_size e ≡ r → Kept (settle c calc_size accept e r p)
        by_size (err x) q = dropped x
        by_size (ok n) q =
            if_ind Kept (exceeds n c.max_event_size) (λ t. dropped _)
              (λ t. with_room n q (ground (arith, sizes e n q)))

    Kept-process_each :
        (events : List (AuditEvent A)) (p : Progress A)
        → Kept p
        → Kept (process_each c calc_size accept events p)
    Kept-process_each [] p k = k
    Kept-process_each (e ∷ events) p k =
        Kept-process_each events _ (Kept-settle p (prepare c calc_size accept e) k)

    Kept-nothing_yet : Kept (nothing_yet c calc_size accept)
    unfolding total
    Kept-nothing_yet = record { all_fit = tt; fits = inl refl; counted = refl; small = omega arith }

    Kept-send_rest : (p : Progress A) → Kept p → Kept (send_rest c calc_size accept p)
    Kept-send_rest p k =
        if_ind Kept (not (is_empty p.batch)) (λ t. Kept-flush p (ne_of_nonempty p.batch t) k)
          (λ t. k)

    -- Each batch that the delegate gets is not empty, holds events within the size of an event only,
    -- and is within the size of a batch or holds one event; the sizes of an event and of a batch
    -- are such that their sums stay below 2^63.
    pub process_events-Fits :
        (events : List (AuditEvent A)) → All Fits (process_events c calc_size accept events).sent
    unfolding process_events
    process_events-Fits events =
        (Kept-send_rest _ (Kept-process_each events _ Kept-nothing_yet)).all_fit
