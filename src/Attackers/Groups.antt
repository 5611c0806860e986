-- ===== src/Attackers/Groups.antt =====
-- The groups are the attackers by player.
use mawster.Base.{
  Text, List, [], ◌∷◌, ◌++◌, append-nil, append_assoc, Option, none, some, Bool, ◌||◌, ◌≡◌, refl,
  ap, sym, ◌∙◌, inl, inr, ◌==◌, text_eq, text_beq_iff, beq_refl, filter, any, count, All, In,
  All-In, In-All, map_get, map_values, map_get-map_set, has_key_of, IsMap, map_set-IsMap,
  All-map_set, map_get-In, map_get-All, All-map_values, is_some, or_else, if◌then◌else◌, Bool-cases,
  arith,
}
use mawster.Attackers.{
  AvailableAttacker, AttackerGroup, new_group, push, add_attacker, add_attackers, build_groups,
}

abbrev pub is_of : Text → AvailableAttacker → Bool
is_of account a = a.game_account_id == account

abbrev attackers_of : Option AttackerGroup → List AvailableAttacker
attackers_of none = []
attackers_of (some g) = g.attackers

abbrev GroupMap : Type 0
GroupMap = List (Text × AttackerGroup)

attackers_of-push :
    (a : AvailableAttacker) (o : Option AttackerGroup)
    → (push a (or_else o (new_group a))).attackers ≡ attackers_of o ++ (a ∷ [])
attackers_of-push a none = refl
attackers_of-push a (some g) = refl

abbrev pushed : AvailableAttacker → GroupMap → AttackerGroup
pushed a m = push a (or_else (map_get a.game_account_id m) (new_group a))

-- What a round does to the attackers of an account.
attackers_of_own :
    (a : AvailableAttacker) (m : GroupMap)
    → attackers_of (map_get a.game_account_id (add_attacker a m))
      ≡ attackers_of (map_get a.game_account_id m) ++ filter (is_of a.game_account_id) (a ∷ [])
unfolding add_attacker
attackers_of_own a m =
    let get = map_get-map_set a.game_account_id a.game_account_id (pushed a m) m in
    let same = beq_refl a.game_account_id in
    rw (get, same) (attackers_of-push a (map_get a.game_account_id m))

attackers_of-add_attacker :
    (k : Text) (a : AvailableAttacker) (m : GroupMap)
    → attackers_of (map_get k (add_attacker a m))
      ≡ attackers_of (map_get k m) ++ filter (is_of k) (a ∷ [])
unfolding add_attacker
attackers_of-add_attacker k a m = elim (Bool-cases (a.game_account_id == k)) [
  | inl own ↦
      let own_key = (text_beq_iff a.game_account_id k).0 own in
      rw (sym own_key) (attackers_of_own a m)
  | inr other ↦
      rw (map_get-map_set a.game_account_id k (pushed a m) m, other)
        (sym (append-nil (attackers_of (map_get k m))))
]

filter-split :
    (k : Text) (a : AvailableAttacker) (l : List AvailableAttacker)
    → filter (is_of k) (a ∷ []) ++ filter (is_of k) l ≡ filter (is_of k) (a ∷ l)
filter-split k a l = ground arith

attackers_of-add_attackers :
    (k : Text) (l : List AvailableAttacker) (m : GroupMap)
    → attackers_of (map_get k (add_attackers l m))
      ≡ attackers_of (map_get k m) ++ filter (is_of k) l
unfolding add_attackers
attackers_of-add_attackers k [] m = sym (append-nil (attackers_of (map_get k m)))
attackers_of-add_attackers k (a ∷ l) m =
    attackers_of-add_attackers k l (add_attacker a m)
    ∙ ap (λ xs. xs ++ filter (is_of k) l) (attackers_of-add_attacker k a m)
    ∙ append_assoc (attackers_of (map_get k m)) (filter (is_of k) (a ∷ [])) (filter (is_of k) l)
    ∙ ap (λ xs. attackers_of (map_get k m) ++ xs) (filter-split k a l)

is_some-add_attackers :
    (k : Text) (l : List AvailableAttacker) (m : GroupMap)
    → is_some (map_get k (add_attackers l m)) ≡ (is_some (map_get k m) || any (is_of k) l)
unfolding add_attackers add_attacker
is_some-add_attackers k [] m = ground arith
is_some-add_attackers k (a ∷ l) m = ground (
  arith,
  is_some-add_attackers k l (add_attacker a m),
  map_get-map_set a.game_account_id k (push a (or_else (map_get a.game_account_id m) (new_group a)))
      m,
)

add_attackers-IsMap :
    (l : List AvailableAttacker) (m : GroupMap) → IsMap m → IsMap (add_attackers l m)
unfolding add_attackers add_attacker
add_attackers-IsMap [] m h = h
add_attackers-IsMap (a ∷ l) m h =
    add_attackers-IsMap l (add_attacker a m) (map_set-IsMap a.game_account_id _ m h)

abbrev IsKeyed : Text × AttackerGroup → Type 0
IsKeyed p = p.1.game_account_id ≡ p.0

push-IsKeyed :
    (a : AvailableAttacker) (o : Option AttackerGroup)
    → ((g : AttackerGroup) → o ≡ some g → g.game_account_id ≡ a.game_account_id)
    → (push a (or_else o (new_group a))).game_account_id ≡ a.game_account_id
push-IsKeyed a none h = refl
push-IsKeyed a (some g) h = h g refl

add_attackers-IsKeyed :
    (l : List AvailableAttacker) (m : GroupMap) → All IsKeyed m → All IsKeyed (add_attackers l m)
unfolding add_attackers add_attacker
add_attackers-IsKeyed [] m h = h
add_attackers-IsKeyed (a ∷ l) m h = add_attackers-IsKeyed l (add_attacker a m) (
    All-map_set IsKeyed a.game_account_id (pushed a m) m
      (push-IsKeyed a (map_get a.game_account_id m)
        (λ g e. map_get-All IsKeyed a.game_account_id g m h e))
      h)

count-map_values :
    (k : Text) (m : GroupMap)
    → All IsKeyed m
    → count (λ g. g.game_account_id == k) (map_values m) ≡ count (has_key_of k) m
count-map_values k [] h = refl
count-map_values k ((i, g) ∷ m) (own, h) = rw own (ground (arith, count-map_values k m h))

module _ (l : List AvailableAttacker) where
  abbrev group_map : GroupMap
  group_map = add_attackers l []

  group_map-IsMap : IsMap group_map
  group_map-IsMap = add_attackers-IsMap l [] (λ k. unfold map_get in refl)

  group_map-IsKeyed : All IsKeyed group_map
  group_map-IsKeyed = add_attackers-IsKeyed l [] tt

  group_is :
      (p : Text × AttackerGroup)
      → In p group_map
      → p.1.attackers ≡ filter (is_of p.1.game_account_id) l
  group_is (k, g) mem =
      let own = In-All IsKeyed (k, g) group_map group_map-IsKeyed mem in
      let got = map_get-In k g group_map group_map-IsMap mem in
      rw own
        (sym (ap attackers_of got) ∙ attackers_of-add_attackers k l [] ∙ unfold map_get in refl)

  has_group : (account : Text) → is_some (map_get account group_map) ≡ any (is_of account) l
  unfolding map_get
  has_group account = is_some-add_attackers account l []

  -- A group holds exactly the attackers of its account, in the order of the input; an account has
  -- one group if it has an attacker, and else none.
  pub build_groups-by_account :
      (account : Text)
      → All (λ g. g.attackers ≡ filter (is_of g.game_account_id) l) (build_groups l)
        × (count (λ g. g.game_account_id == account) (build_groups l)
            ≡ (if any (is_of account) l then 1 else 0))
  unfolding build_groups
  build_groups-by_account account = (
    All-map_values (λ g. g.attackers ≡ filter (is_of g.game_account_id) l) group_map
        (All-In (λ p. p.1.attackers ≡ filter (is_of p.1.game_account_id) l) group_map group_is),
    count-map_values account group_map group_map-IsKeyed
        ∙ group_map-IsMap account
        ∙ ap (λ b. if b then 1 else 0) (has_group account),
  )
