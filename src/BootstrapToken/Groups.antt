-- ===== src/BootstrapToken/Groups.antt =====
-- The groups of a bootstrap token: pkg/cluster-bootstrap/util/secrets.
use apiserver.Base.{
  String, true, List, [], ◌∷◌, All, All-Has, Has-All, Has, ◌↔◌, ◌≢◌, false, is_blank_iff, Option,
  none, some, some_inj, split, if_ind, if_true, if_false, and_iff, ◌≡◌, ◌⊎◌, refl, sym, ◌∙◌, inl,
  inr, subst, Bool-cases, has_prefix, SetLists, is_blank,
}
use apiserver.BootstrapToken.{
  group_pattern_prefix, is_group, Secret, get_data, extra_groups_key, insert_groups, list_set,
  get_groups, default_group,
}

-- A group of the default group's name, or one that starts with it and a colon.
pub IsBootstrapGroup : String → Type 0
IsBootstrapGroup g = (g ≡ "system:bootstrappers") ⊎ (has_prefix g "system:bootstrappers:" ≡ true)

is_group-has_prefix : (g : String) → is_group g ≡ true → has_prefix g group_pattern_prefix ≡ true
unfolding is_group
is_group-has_prefix g t = ((and_iff _ _).0 ((and_iff _ _).0 ((and_iff _ _).0 t).0).0).0

insert_groups-All :
    (gs extra after : List String)
    → All IsBootstrapGroup gs
    → insert_groups gs extra ≡ some after
    → All IsBootstrapGroup after
unfolding IsBootstrapGroup
insert_groups-All gs [] after a h = subst (All IsBootstrapGroup) (some_inj h) a
insert_groups-All gs (g ∷ extra) after a h = elim (Bool-cases (is_group g)) [
  | inl t ↦
      insert_groups-All (g ∷ gs) extra after (inr (is_group-has_prefix g t), a)
        (sym (if_true (is_group g) _ _ t) ∙ h)
  | inr t ↦ let e = sym (if_false (is_group g) _ _ t) ∙ h in absurd (cc)
]

All-list :
    (sets : SetLists) (gs : List String)
    → All IsBootstrapGroup gs
    → All IsBootstrapGroup (sets.list gs)
All-list sets gs a =
    Has-All IsBootstrapGroup (sets.list gs)
      (λ x k. All-Has IsBootstrapGroup gs a x ((sets.list-Has_iff gs x).0 k))

pub get_groups-All :
    (sets : SetLists) (s : Secret) (gs : List String)
    → get_groups sets s ≡ some gs
    → All IsBootstrapGroup gs
unfolding get_groups IsBootstrapGroup
get_groups-All sets s gs =
    if_ind (λ o. o ≡ some gs → All IsBootstrapGroup gs) (is_blank (get_data s extra_groups_key))
      (λ t h.
        subst (All IsBootstrapGroup) (some_inj h) (All-list sets (default_group ∷ []) default_only))
      (λ t.
        by_groups (insert_groups (default_group ∷ []) (split (get_data s extra_groups_key) b','))
          refl)
  where
    default_only : All IsBootstrapGroup (default_group ∷ [])
    default_only = (inl refl, tt)

    by_groups :
        (o : Option (List String))
        → insert_groups (default_group ∷ []) (split (get_data s extra_groups_key) b',') ≡ o
        → list_set sets o ≡ some gs
        → All IsBootstrapGroup gs
    by_groups none e h = cc
    by_groups (some l) e h =
        subst (All IsBootstrapGroup) (some_inj h)
          (All-list sets l (insert_groups-All (default_group ∷ []) _ l default_only e))

-- A group of the token is the default one or one that the secret lists.
pub IsGroupOf : Secret → String → Type 0
IsGroupOf s g =
    (g ≡ "system:bootstrappers")
    ⊎ ((get_data s "auth-extra-groups" ≢ "") × Has g (split (get_data s "auth-extra-groups") b','))

insert_groups-Has_iff :
    (gs extra after : List String) (g : String)
    → insert_groups gs extra ≡ some after
    → Has g after ↔ (Has g gs ⊎ Has g extra)
insert_groups-Has_iff gs [] after g h =
    let e : gs ≡ after = some_inj h in
    (
      λ k. inl (subst (Has g) (sym e) k),
      λ k. elim k [ inl l ↦ subst (Has g) e l | inr z ↦ absurd z ],
    )
insert_groups-Has_iff gs (x ∷ extra) after g h = elim (Bool-cases (is_group x)) [
  | inl t ↦
      let (to, from) =
        insert_groups-Has_iff (x ∷ gs) extra after g (sym (if_true (is_group x) _ _ t) ∙ h) in
      (
        λ k. elim (to k) [
          | inl l ↦ elim l [ inl e ↦ inr (inl e) | inr m ↦ inl m ]
          | inr r ↦ inr (inr r)
        ],
        λ k. elim k [
          | inl l ↦ from (inl (inr l))
          | inr r ↦ elim r [ inl e ↦ from (inl (inl e)) | inr m ↦ from (inr m) ]
        ],
      )
  | inr t ↦ let e = sym (if_false (is_group x) _ _ t) ∙ h in absurd (cc)
]

default_iff : (g : String) → Has g (default_group ∷ []) ↔ (g ≡ "system:bootstrappers")
default_iff g = (λ k. elim k [ inl e ↦ sym e | inr z ↦ absurd z ], λ e. inl (sym e))

pub get_groups-IsGroupOf_iff :
    (sets : SetLists) (s : Secret) (gs : List String) (g : String)
    → get_groups sets s ≡ some gs
    → Has g gs ↔ IsGroupOf s g
unfolding get_groups IsGroupOf
get_groups-IsGroupOf_iff sets s gs g =
    if_ind (λ o. o ≡ some gs → Has g gs ↔ IsGroupOf s g) (is_blank (get_data s extra_groups_key))
      (λ t h.
        let e : sets.list (default_group ∷ []) ≡ gs = some_inj h in
        let (to, from) = sets.list-Has_iff (default_group ∷ []) g in
        (
          λ k. inl ((default_iff g).0 (to (subst (Has g) (sym e) k))),
          λ k. elim k [
            | inl d ↦ subst (Has g) e (from ((default_iff g).1 d))
            | inr p ↦ absurd (p.0 ((is_blank_iff _).0 t))
          ],
        ))
      (λ t.
        by_groups t (insert_groups (default_group ∷ []) (split (get_data s extra_groups_key) b','))
          refl)
  where
    not_empty :
        is_blank (get_data s "auth-extra-groups") ≡ false → get_data s "auth-extra-groups" ≢ ""
    not_empty t e = let q : true ≡ false = sym ((is_blank_iff _).1 e) ∙ t in absurd (cc)

    by_groups :
        is_blank (get_data s "auth-extra-groups") ≡ false
        → (o : Option (List String))
        → insert_groups (default_group ∷ []) (split (get_data s extra_groups_key) b',') ≡ o
        → list_set sets o ≡ some gs
        → Has g gs ↔ IsGroupOf s g
    by_groups t none e h = cc
    by_groups t (some l) e h =
        let q : sets.list l ≡ gs = some_inj h in
        let (to, from) = sets.list-Has_iff l g in
        let (split_up, put_in) = insert_groups-Has_iff (default_group ∷ []) _ l g e in
        (
          λ k. elim (split_up (to (subst (Has g) (sym q) k))) [
            | inl d ↦ inl ((default_iff g).0 d)
            | inr x ↦ inr (not_empty t, x)
          ],
          λ k. elim k [
            | inl d ↦ subst (Has g) q (from (put_in (inl ((default_iff g).1 d))))
            | inr p ↦ subst (Has g) q (from (put_in (inr p.1)))
          ],
        )
