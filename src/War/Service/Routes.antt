-- ===== src/War/Service/Routes.antt =====
-- The requests are told apart by their calls: a reader of calls gives the request back.
use mawster.Base.{
  ℕ, ℤ, Num, Text, List, [], ◌∷◌, Option, none, some, ◌≡◌, refl, sym, ap, ◌∙◌, ◌↔◌, ◌==◌, text_eq,
  text_beq, codes, to_decimal, parse_int, parse_int-to_decimal, or_else, if◌then◌else◌,
}
use mawster.War.Requests.{Request, Target}
use mawster.War.Service.{
  Method, post, put, patch, delete, Value, text, number, flag, texts, null, Call, call,
}

abbrev Body : Type 0
Body = List (Text × Value)

-- The count that a number of a body is.
abbrev count_of : Num → ℕ
count_of n = elim n.floor [ ℤ.pos k ↦ k | ℤ.negsuc k ↦ 0 ]

abbrev in_bg : Text → Text → Text → Target
in_bg alliance_id war_id bg = record {
  alliance_id = alliance_id;
  war_id = war_id;
  bg = parse_int bg;
}

-- Behind the battlegroup: one segment.
read_bg : Target → Text → Method → Body → Option Request
read_bg t x delete body = some (Request.clear_war_bg t)
read_bg t x post ((k, text a) ∷ (j, text b) ∷ []) = some (Request.add_war_synergy t a b)
read_bg t x post ((k, text a) ∷ (j, number n) ∷ []) =
    some (Request.add_war_prefight t a (count_of n))
read_bg t x post
      ((k, number node)
        ∷ (j, text id)
        ∷ (l, number stars)
        ∷ (m, number rank)
        ∷ (n, number ascension)
        ∷ []) =
    some (
      Request.place_war_defender t (count_of node) id (count_of stars) (count_of rank)
        (count_of ascension))
read_bg t x method body = none

-- Behind the battlegroup: two segments.
read_two : Target → Text → Text → Option Request
read_two t x y =
    if x == codes "node"
    then some (Request.remove_war_defender t (parse_int y))
    else if x == codes "synergy"
    then some (Request.remove_war_synergy t y)
    else some (Request.remove_war_prefight t y)

-- Behind a node: one segment.
read_node : Target → ℕ → Text → Method → Body → Option Request
read_node t node z post ((k, text id) ∷ []) =
    if z == codes "attacker"
    then some (Request.assign_war_attacker t node id)
    else some (Request.assign_war_assist t node id)
read_node t node z delete body =
    if z == codes "attacker"
    then some (Request.remove_war_attacker t node)
    else some (Request.remove_war_assist t node)
read_node t node z patch ((k, number ko) ∷ []) = some (Request.update_war_ko t node (count_of ko))
read_node t node z patch [] =
    if z == codes "complete"
    then some (Request.toggle_combat_completed t node)
    else if z == codes "fight-not-done"
    then some (Request.toggle_fight_not_done t node)
    else some (Request.toggle_planning_error t node)
read_node t node z method body = none

read_note : Target → ℕ → Method → Body → Option Request
read_note t node put ((k, text content) ∷ []) = some (Request.upsert_war_fight_note t node content)
read_note t node delete body = some (Request.delete_war_fight_note t node)
read_note t node method body = none

read_war : Text → Text → Method → Body → Option Request
read_war alliance_id war_id patch ((k, text name) ∷ (j, texts banned) ∷ []) =
    some (Request.update_war alliance_id war_id name banned)
read_war alliance_id war_id method body = none

read_end : Text → Text → Body → Option Request
read_end alliance_id war_id ((k, flag win) ∷ (j, null) ∷ []) =
    some (Request.end_war alliance_id war_id win none)
read_end alliance_id war_id ((k, flag win) ∷ (j, number elo) ∷ []) =
    some (Request.end_war alliance_id war_id win (some elo))
read_end alliance_id war_id body = none

read_create : Text → Body → Option Request
read_create alliance_id ((k, text name) ∷ (j, texts banned) ∷ []) =
    some (Request.create_war alliance_id name banned)
read_create alliance_id body = none

-- Behind the wars of an alliance.
read_wars : Text → List Text → Method → Body → Option Request
unfolding read_bg read_two read_node read_note read_war read_end read_create
read_wars a [] method body = read_create a body
read_wars a (w ∷ []) method body = read_war a w method body
read_wars a (w ∷ e ∷ []) method body = read_end a w body
read_wars a (w ∷ k ∷ b ∷ []) method body = some (Request.get_war_defense (in_bg a w b))
read_wars a (w ∷ k ∷ b ∷ x ∷ []) method body = read_bg (in_bg a w b) x method body
read_wars a (w ∷ k ∷ b ∷ x ∷ y ∷ []) method body =
    if k == codes "bg"
    then read_two (in_bg a w b) x y
    else read_note (in_bg a w b) (parse_int x) method body
read_wars a (w ∷ k ∷ b ∷ x ∷ y ∷ z ∷ []) method body =
    read_node (in_bg a w b) (parse_int y) z method body
read_wars a path method body = none

read_call : Call → Option Request
unfolding read_wars
read_call c = elim c.path [
  | x ∷ path ↦ elim path [
    | a ∷ path ↦ elim path [ y ∷ path ↦ read_wars a path c.method c.body | [] ↦ none ]
    | [] ↦ none
  ]
  | [] ↦ none
]

bg_again : (t : Target) → in_bg t.alliance_id t.war_id (to_decimal t.bg) ≡ t
bg_again t =
    λ i. record { alliance_id = t.alliance_id; war_id = t.war_id; bg = parse_int-to_decimal t.bg i }

read_call-call : (r : Request) → read_call (call r) ≡ some r
unfolding read_call read_wars read_bg read_two read_node read_note read_war read_end read_create
    call text_beq
read_call-call (Request.get_war_defense t) = ap (λ t. some (Request.get_war_defense t)) (bg_again t)
read_call-call (Request.clear_war_bg t) = ap (λ t. some (Request.clear_war_bg t)) (bg_again t)
read_call-call (Request.place_war_defender t node id stars rank ascension) =
    ap (λ t. some (Request.place_war_defender t node id stars rank ascension)) (bg_again t)
read_call-call (Request.remove_war_defender t node) =
    λ i. some (Request.remove_war_defender (bg_again t i) (parse_int-to_decimal node i))
read_call-call (Request.remove_war_attacker t node) =
    λ i. some (Request.remove_war_attacker (bg_again t i) (parse_int-to_decimal node i))
read_call-call (Request.toggle_combat_completed t node) =
    λ i. some (Request.toggle_combat_completed (bg_again t i) (parse_int-to_decimal node i))
read_call-call (Request.toggle_fight_not_done t node) =
    λ i. some (Request.toggle_fight_not_done (bg_again t i) (parse_int-to_decimal node i))
read_call-call (Request.toggle_planning_error t node) =
    λ i. some (Request.toggle_planning_error (bg_again t i) (parse_int-to_decimal node i))
read_call-call (Request.remove_war_assist t node) =
    λ i. some (Request.remove_war_assist (bg_again t i) (parse_int-to_decimal node i))
read_call-call (Request.delete_war_fight_note t node) =
    λ i. some (Request.delete_war_fight_note (bg_again t i) (parse_int-to_decimal node i))
read_call-call (Request.assign_war_attacker t node id) =
    λ i. some (Request.assign_war_attacker (bg_again t i) (parse_int-to_decimal node i) id)
read_call-call (Request.assign_war_assist t node id) =
    λ i. some (Request.assign_war_assist (bg_again t i) (parse_int-to_decimal node i) id)
read_call-call (Request.upsert_war_fight_note t node content) =
    λ i. some (Request.upsert_war_fight_note (bg_again t i) (parse_int-to_decimal node i) content)
read_call-call (Request.update_war_ko t node ko) =
    λ i. some (Request.update_war_ko (bg_again t i) (parse_int-to_decimal node i) ko)
read_call-call (Request.add_war_synergy t id target_id) =
    ap (λ t. some (Request.add_war_synergy t id target_id)) (bg_again t)
read_call-call (Request.remove_war_synergy t id) =
    ap (λ t. some (Request.remove_war_synergy t id)) (bg_again t)
read_call-call (Request.remove_war_prefight t id) =
    ap (λ t. some (Request.remove_war_prefight t id)) (bg_again t)
read_call-call (Request.add_war_prefight t id node) =
    ap (λ t. some (Request.add_war_prefight t id node)) (bg_again t)
read_call-call (Request.create_war alliance_id name banned) = refl
read_call-call (Request.update_war alliance_id war_id name banned) = refl
read_call-call (Request.end_war alliance_id war_id win none) = refl
read_call-call (Request.end_war alliance_id war_id win (some elo)) = refl

-- Two requests of the war page make the same call, with the same method, segments of the path and
-- body, exactly when they are the same request: no two differ in something that the back end does
-- not see, the change of a lost war's rating included.
pub call_injective : (r s : Request) → (call r ≡ call s) ↔ (r ≡ s)
call_injective r s = (
  λ same. ap (λ o. or_else o r) (sym (read_call-call r) ∙ ap read_call same ∙ read_call-call s),
  ap call,
)
