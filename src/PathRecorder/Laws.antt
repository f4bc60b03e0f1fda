-- ===== src/PathRecorder/Laws.antt =====
-- The handler that a path is served by: pkg/server/mux/pathrecorder.go.
use apiserver.Base.{
  SetLists, All-Has, ◌≤◌, String, Bool, true, false, List, [], ◌∷◌, Has, Option, none, some,
  some_inj, Map, lookup, lookup-put_same, lookup-put_other, delete-put_new, delete_new, ◌==◌,
  eq_iff, ◌≡◌, ◌≢◌, ◌⊎◌, refl, sym, ap, ◌∙◌, inl, inr, subst, arith, Bool-cases, has_prefix,
  has_suffix, if◌then◌else◌, if_false, if_ind, len,
}
use apiserver.PathRecorder.{
  PathRecorderMux, keys_of, with_handlers, add_entry, or_default, build, refresh,
  new_path_recorder_mux, set_not_found_handler, unlisted_handle, handle, unlisted_handle_prefix,
  handle_prefix, unregister, first_prefix, serve_path, serve,
}
use apiserver.PathRecorder.Priority.{
  sort_reverse, Descending, Descending-sort_reverse, Has-sort_reverse_iff, less-has_prefix,
}

-- How a path is served, told without an order of prefixes: by the handler of the path itself; else by
-- that of the longest registered prefix of the path; else by the handler for what is not found.
pub data Served {H : Type 0} (m : PathRecorderMux H) (not_found : H) (path : String)
    : H → Type 0 where
  exactly : {h : H} → lookup path m.path_to_handler ≡ some h → Served m not_found path h
  by_prefix :
      {h : H} (p : String)
      → lookup path m.path_to_handler ≡ none
      → lookup p m.prefix_to_handler ≡ some h
      → has_prefix path p ≡ true
      → ((q : String) (g : H)
          → lookup q m.prefix_to_handler ≡ some g
          → has_prefix path q ≡ true
          → len q ≤ len p)
      → Served m not_found path h
  not_found_at_all :
      lookup path m.path_to_handler ≡ none
      → ((q : String) (g : H) → lookup q m.prefix_to_handler ≡ some g → has_prefix path q ≡ false)
      → Served m not_found path (or_default m.not_found_handler not_found)

module _ {H : Type 0} where
  keys_of-Has : (m : Map H) (k : String) (h : H) → lookup k m ≡ some h → Has k (keys_of m)
  keys_of-Has [] k h e = cc
  keys_of-Has ((j, g) ∷ m) k h e = elim (Bool-cases (j == k)) [
    | inl t ↦ inl ((eq_iff j k).0 t)
    | inr t ↦ inr (keys_of-Has m k h (sym (if_false (j == k) _ _ t) ∙ e))
  ]

  -- What the loop over the prefixes chooses, when the keys are in descending order.
  Chosen : Map H → String → H → List String → H → Type 0
  Chosen handlers path d keys h =
      ((p : String) × (lookup p handlers ≡ some h)
        × (has_prefix path p ≡ true)
        × ((q : String) (g : H)
            → Has q keys
            → lookup q handlers ≡ some g
            → has_prefix path q ≡ true
            → len q ≤ len p))
      ⊎ ((h ≡ d)
          × ((q : String) (g : H)
              → Has q keys
              → lookup q handlers ≡ some g
              → has_prefix path q ≡ false))

  skip :
      (handlers : Map H) (path : String) (d : H) (p : String) (keys : List String) (h : H)
      → ((g : H) → lookup p handlers ≡ some g → has_prefix path p ≡ true → ⊥)
      → Chosen handlers path d keys h
      → Chosen handlers path d (p ∷ keys) h
  unfolding Chosen
  skip handlers path d p keys h n (inl (b, e, t, f)) = inl (
    b,
    e,
    t,
    λ q g k l s. elim k [
      | inl i ↦ absurd (n g (ap (λ x. lookup x handlers) i ∙ l) (ap (has_prefix path) i ∙ s))
      | inr j ↦ f q g j l s
    ],
  )
  skip handlers path d p keys h n (inr (e, f)) = inr (
    e,
    λ q g k l. elim k [
      | inl i ↦ elim (Bool-cases (has_prefix path q)) [
        | inl s ↦ absurd (n g (ap (λ x. lookup x handlers) i ∙ l) (ap (has_prefix path) i ∙ s))
        | inr s ↦ s
      ]
      | inr j ↦ f q g j l
    ],
  )

  first_prefix-Chosen :
      (handlers : Map H) (path : String) (d : H) (keys : List String)
      → Descending keys
      → Chosen handlers path d keys (first_prefix path (with_handlers handlers keys) d)
  unfolding Chosen
  first_prefix-Chosen handlers path d [] o = inr (refl, λ q g k. absurd k)
  first_prefix-Chosen handlers path d (p ∷ keys) (o, os) =
      by_entry (lookup p handlers) refl (first_prefix-Chosen handlers path d keys os)
    where
      by_entry :
          (x : Option H)
          → lookup p handlers ≡ x
          → Chosen handlers path d keys (first_prefix path (with_handlers handlers keys) d)
          → Chosen handlers path d
              (p ∷ keys)
              (first_prefix path (add_entry x p (with_handlers handlers keys)) d)
      by_entry none e c = skip handlers path d p keys _ (λ g l s. absurd (cc)) c
      by_entry (some h) e c =
          if_ind (Chosen handlers path d (p ∷ keys)) (has_prefix path p)
            (λ t. inl (
              p,
              e,
              t,
              λ q g k l s. elim k [
                | inl i ↦ omega (arith, ap len i)
                | inr j ↦ less-has_prefix path p q t s (All-Has _ keys o q j)
              ],
            ))
            (λ t. skip handlers path d p keys _ (λ g l s. absurd (cc)) c)

  -- The mux is what refreshMuxLocked makes of the registered paths.
  abbrev pub Current : SetLists → H → PathRecorderMux H → Type 0
  Current ks not_found m = m.mux ≡ build ks not_found m

  serve_of_Current :
      (ks : SetLists) (not_found : H) (m : PathRecorderMux H) (path : String)
      → Current ks not_found m
      → Served m not_found path (serve m path)
  unfolding serve build Chosen
  serve_of_Current ks not_found m path c =
      subst (λ x. Served m not_found path (serve_path x path)) (sym c)
        (by_exact (lookup path m.path_to_handler) refl)
    where
      keys : List String
      keys = sort_reverse (ks.list (keys_of m.prefix_to_handler))

      d : H
      d = or_default m.not_found_handler not_found

      has_key : (q : String) (g : H) → lookup q m.prefix_to_handler ≡ some g → Has q keys
      has_key q g l = (Has-sort_reverse_iff (ks.list (keys_of m.prefix_to_handler)) q).1 (
          (ks.list-Has_iff (keys_of m.prefix_to_handler) q).1
            (keys_of-Has m.prefix_to_handler q g l))

      by_exact :
          (o : Option H)
          → lookup path m.path_to_handler ≡ o
          → Served m not_found path
              (or_default o (first_prefix path (with_handlers m.prefix_to_handler keys) d))
      by_exact (some h) e = exactly e
      by_exact none e =
          elim (first_prefix-Chosen m.prefix_to_handler path d keys
            (Descending-sort_reverse (ks.list (keys_of m.prefix_to_handler)))) [
              | inl (p, l, t, f) ↦ by_prefix p e l t (λ q g k s. f q g (has_key q g k) k s)
              | inr (h, f) ↦
                  subst (Served m not_found path) (sym h)
                    (not_found_at_all e (λ q g k. f q g (has_key q g k) k))
            ]

-- A mux as its operations make it.
pub data Reachable {H : Type 0} (ks : SetLists) (not_found : H) : PathRecorderMux H → Type 0 where
  fresh : Reachable ks not_found (new_path_recorder_mux ks not_found)
  setting_not_found :
      {m : PathRecorderMux H} (h : H)
      → Reachable ks not_found m
      → Reachable ks not_found (set_not_found_handler ks not_found h m)
  handling :
      {m : PathRecorderMux H} (stack path : String) (h : H)
      → Reachable ks not_found m
      → Reachable ks not_found (handle ks not_found stack path h m)
  handling_unlisted :
      {m : PathRecorderMux H} (stack path : String) (h : H)
      → Reachable ks not_found m
      → Reachable ks not_found (unlisted_handle ks not_found stack path h m)
  handling_prefix :
      {m n : PathRecorderMux H} (stack path : String) (h : H)
      → Reachable ks not_found m
      → handle_prefix ks not_found stack path h m ≡ some n
      → Reachable ks not_found n
  handling_unlisted_prefix :
      {m n : PathRecorderMux H} (stack path : String) (h : H)
      → Reachable ks not_found m
      → unlisted_handle_prefix ks not_found stack path h m ≡ some n
      → Reachable ks not_found n
  unregistering :
      {m : PathRecorderMux H} (path : String)
      → Reachable ks not_found m
      → Reachable ks not_found (unregister ks not_found path m)

module _ {H : Type 0} (ks : SetLists) (not_found : H) where
  guarded :
      (b : Bool) (m n : PathRecorderMux H)
      → (if b then some (refresh ks not_found m) else none) ≡ some n
      → refresh ks not_found m ≡ n
  guarded true m n e = some_inj e
  guarded false m n e = cc

  no_keys : (xs : List String) → ((x : String) → Has x xs → ⊥) → xs ≡ []
  no_keys [] h = refl
  no_keys (x ∷ xs) h = absurd (h x (inl refl))

  Current-new : Current ks not_found (new_path_recorder_mux ks not_found)
  unfolding build sort_reverse
  Current-new =
      let e : ks.list [] ≡ [] = no_keys (ks.list []) (λ x k. (ks.list-Has_iff [] x).0 k) in
      rw e refl

  Current-refresh : (m n : PathRecorderMux H) → refresh ks not_found m ≡ n → Current ks not_found n
  unfolding refresh build
  Current-refresh m n e = subst (Current ks not_found) e refl

  -- Every operation leaves a mux that serves by the registered paths.
  pub Reachable-Current :
      (m : PathRecorderMux H) → Reachable ks not_found m → Current ks not_found m
  unfolding set_not_found_handler handle unlisted_handle handle_prefix unlisted_handle_prefix
      unregister
  Reachable-Current m fresh = Current-new
  Reachable-Current m (setting_not_found h r) = Current-refresh _ _ refl
  Reachable-Current m (handling stack path h r) = Current-refresh _ _ refl
  Reachable-Current m (handling_unlisted stack path h r) = Current-refresh _ _ refl
  Reachable-Current m (handling_prefix stack path h r e) =
      Current-refresh _ _ (guarded (has_suffix path "/") _ m e)
  Reachable-Current m (handling_unlisted_prefix stack path h r e) =
      Current-refresh _ _ (guarded (has_suffix path "/") _ m e)
  Reachable-Current m (unregistering path r) = Current-refresh _ _ refl

  -- A mux that the operations make serves a path by the handler that is registered for it, else by
  -- the one of the longest registered prefix of the path, else by the one for what is not found.
  pub serve-Served :
      (m : PathRecorderMux H) (path : String)
      → Reachable ks not_found m
      → Served m not_found path (serve m path)
  serve-Served m path r = serve_of_Current ks not_found m path (Reachable-Current m r)

  -- After a handler is registered for a path, also for one that had a handler, it serves that path,
  -- and other paths are served as before.
  pub serve-handle :
      (stack path : String) (h : H) (m : PathRecorderMux H)
      → Reachable ks not_found m
      → (serve (handle ks not_found stack path h m) path ≡ h)
        × ((other : String)
            → path ≢ other
            → serve (handle ks not_found stack path h m) other ≡ serve m other)
  unfolding serve handle build refresh
  serve-handle stack path h m r = (
    rw (lookup-put_same path h m.path_to_handler) refl,
    λ other n.
        rw (lookup-put_other path other h m.path_to_handler n)
          (ap (λ x. serve_path x other) (sym (Reachable-Current m r))),
  )

  -- Registering a handler for a new path and removing it again changes how no path is served.
  pub unregister-handle :
      (stack path : String) (h : H) (m : PathRecorderMux H) (other : String)
      → Reachable ks not_found m
      → lookup path m.path_to_handler ≡ none
      → lookup path m.prefix_to_handler ≡ none
      → serve (unregister ks not_found path (handle ks not_found stack path h m)) other
        ≡ serve m other
  unfolding serve unregister handle build refresh
  unregister-handle stack path h m other r e p = rw (delete-put_new path h m.path_to_handler e) (
      rw (delete_new path m.prefix_to_handler p)
        (ap (λ x. serve_path x other) (sym (Reachable-Current m r))))
