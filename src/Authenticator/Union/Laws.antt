-- ===== src/Authenticator/Union/Laws.antt =====
-- The chain against its specification: the first member that authenticates.
use apiserver.Base.{
  Bool, true, false, List, [], ◌∷◌, ◌++◌, Option, none, some, Error, Aggregates, if◌then◌else◌, ◌≡◌,
  ◌≢◌, ◌↔◌, ◌⊎◌, inl, inr, refl, sym, ap, ◌∙◌, arith, Bool-cases, Option-cases, some_inj, if_true,
  if_false,
}
use apiserver.Authenticator.{Response, Outcome, Authenticator}
use apiserver.Authenticator.Union.{authenticate_from, authenticate_union}

-- The chain goes on after a member: the member had no error and did not authenticate, or it had an
-- error in a chain that does not fail on errors.
abbrev pub Skipped : Bool → Outcome → Type 0
Skipped fail_on_error o =
    ((o.error ≡ none) × (o.is_ok ≡ false)) ⊎ ((fail_on_error ≡ false) × (o.error ≢ none))

-- The members up to one that authenticates without an error, each run on the state that the one
-- before it has left.
pub data FirstSuccess {S : Type 0} (fail_on_error : Bool) (o : Outcome) (t : S)
    : List (Authenticator S) → S → Type 0 where
  succeeds :
      {handler : Authenticator S} {handlers : List (Authenticator S)} {s : S}
      → handler s ≡ some (o, t)
      → o.error ≡ none
      → o.is_ok ≡ true
      → FirstSuccess fail_on_error o t (handler ∷ handlers) s
  goes_on :
      {handler : Authenticator S} {handlers : List (Authenticator S)} {s s' : S} (p : Outcome)
      → handler s ≡ some (p, s')
      → Skipped fail_on_error p
      → FirstSuccess fail_on_error o t handlers s'
      → FirstSuccess fail_on_error o t (handler ∷ handlers) s

some-ne : (x : Error) → some x ≢ none
some-ne x h = cc

module _ {S : Type 0} (agg : Aggregates) (fail_on_error : Bool) (o : Outcome) (t : S) where
  -- One round of the loop, where `rec` is the claim for the members behind it.
  module _ (errlist : List Error) (handler : Authenticator S) (handlers : List (Authenticator S))
      (s : S) (e : o.error ≡ none) (k : o.is_ok ≡ true)
      (rec : (errlist' : List Error) (s' : S)
        → authenticate_from agg fail_on_error errlist' handlers s' ≡ some (o, t)
        → FirstSuccess fail_on_error o t handlers s') where
    outcome_sound :
        (p : Outcome) (s' : S) (q : Option Error)
        → handler s ≡ some (p, s')
        → p.error ≡ q
        → (elim q [
          | some x ↦
              if fail_on_error
              then some (p, s')
              else authenticate_from agg fail_on_error (errlist ++ x ∷ []) handlers s'
          | none ↦
              if p.is_ok
              then some (p, s')
              else authenticate_from agg fail_on_error errlist handlers s'
        ])
          ≡ some (o, t)
        → FirstSuccess fail_on_error o t (handler ∷ handlers) s
    outcome_sound p s' none a b c = elim (Bool-cases p.is_ok) [
      | inl d ↦ succeeds (a ∙ (sym (if_true p.is_ok _ _ d) ∙ c)) e k
      | inr d ↦ goes_on p a (inl (b, d)) (rec errlist s' (sym (if_false p.is_ok _ _ d) ∙ c))
    ]
    outcome_sound p s' (some x) a b c = elim (Bool-cases fail_on_error) [
      | inl d ↦
          let returned : some (p, s') ≡ some (o, t) = sym (if_true fail_on_error _ _ d) ∙ c in
          absurd (some-ne x (sym b ∙ ap (λ (y : Outcome × S). y.0.error) (some_inj returned) ∙ e))
      | inr d ↦
          goes_on p a (inr (d, λ n. some-ne x (sym b ∙ n)))
            (rec (errlist ++ x ∷ []) s' (sym (if_false fail_on_error _ _ d) ∙ c))
    ]

    result_sound :
        (r : Option (Outcome × S))
        → handler s ≡ r
        → (elim r [
          | none ↦ none
          | some (p, s') ↦ elim p.error [
            | some x ↦
                if fail_on_error
                then some (p, s')
                else authenticate_from agg fail_on_error (errlist ++ x ∷ []) handlers s'
            | none ↦
                if p.is_ok
                then some (p, s')
                else authenticate_from agg fail_on_error errlist handlers s'
          ]
        ])
          ≡ some (o, t)
        → FirstSuccess fail_on_error o t (handler ∷ handlers) s
    result_sound none a c = cc
    result_sound (some (p, s')) a c = outcome_sound p s' p.error a refl c

  authenticate_from_sound :
      (errlist : List Error) (handlers : List (Authenticator S)) (s : S)
      → authenticate_from agg fail_on_error errlist handlers s ≡ some (o, t)
      → o.error ≡ none
      → o.is_ok ≡ true
      → FirstSuccess fail_on_error o t handlers s
  unfolding authenticate_from
  authenticate_from_sound errlist [] s h e k =
      absurd (ground (arith, ap (λ (x : Outcome × S). x.0.is_ok) (some_inj h)))
  authenticate_from_sound errlist (handler ∷ handlers) s h e k =
      result_sound errlist handler handlers s e k
        (λ errlist' s' q. authenticate_from_sound errlist' handlers s' q e k) (handler s) refl h

  authenticate_from_complete :
      (errlist : List Error) (handlers : List (Authenticator S)) (s : S)
      → FirstSuccess fail_on_error o t handlers s
      → authenticate_from agg fail_on_error errlist handlers s ≡ some (o, t)
  unfolding authenticate_from
  authenticate_from_complete errlist [] s f = elim f [ ]
  authenticate_from_complete errlist (handler ∷ handlers) s (succeeds h e k) = simp (h, e, k)
  authenticate_from_complete errlist (handler ∷ handlers) s (goes_on p h (inl (e, k)) f) =
      rw (h, e, k) (authenticate_from_complete errlist handlers _ f)
  authenticate_from_complete errlist (handler ∷ handlers) s (goes_on p h (inr (d, n)) f) =
      elim (Option-cases p.error) [
        | inl e ↦ absurd (n e)
        | inr (x, e) ↦ rw (h, e, d) (authenticate_from_complete (errlist ++ x ∷ []) handlers _ f)
      ]

-- The chain authenticates without an error exactly with the results of its first member that does
-- so, and leaves the state that this member leaves; members before it had no error, or had errors
-- in a chain that does not fail on errors.
pub authenticate_union-FirstSuccess_iff :
    {S : Type 0} (agg : Aggregates) (fail_on_error : Bool) (handlers : List (Authenticator S))
    (s : S) (o : Outcome) (t : S)
    → ((authenticate_union agg fail_on_error handlers s ≡ some (o, t))
        × (o.error ≡ none)
        × (o.is_ok ≡ true))
      ↔ FirstSuccess fail_on_error o t handlers s
unfolding authenticate_union
authenticate_union-FirstSuccess_iff agg fail_on_error handlers s o t = (
  (λ (h, e, k). authenticate_from_sound agg fail_on_error o t [] handlers s h e k),
  (λ f. (
    authenticate_from_complete agg fail_on_error o t [] handlers s f,
    success_error f,
    success_ok f,
  )),
)
  where
    success_error :
        {hs : List (Authenticator _)} {u : _} → FirstSuccess fail_on_error o t hs u → o.error ≡ none
    success_error (succeeds h e k) = e
    success_error (goes_on p h k f) = success_error f

    success_ok :
        {hs : List (Authenticator _)} {u : _} → FirstSuccess fail_on_error o t hs u → o.is_ok ≡ true
    success_ok (succeeds h e k) = k
    success_ok (goes_on p h k f) = success_ok f

-- A chain that fails on errors ends at a first member with an error.
pub authenticate_union-stops :
    {S : Type 0} (agg : Aggregates) (handler : Authenticator S) (others : List (Authenticator S))
    (s s' : S) (r : Option Response) (b : Bool) (e : Error)
    → handler s ≡ some (record { response = r; is_ok = b; error = some e }, s')
    → authenticate_union agg true (handler ∷ others) s
      ≡ some (record { response = r; is_ok = b; error = some e }, s')
unfolding authenticate_union authenticate_from
authenticate_union-stops agg handler others s s' r b e h = rw h refl
