-- ===== src/War/Service.antt =====
-- front/app/services/war.ts and front/app/services/war-notes.ts: the calls of the back end that the
-- requests of the war page make. The headers are those of JSON for all of them.
pub mod Routes
use mawster.Base.{
  ℕ, Num, whole, Text, List, [], ◌∷◌, ◌++◌, Option, none, some, Bool, true, false, codes,
  to_decimal, is_empty, or_else, or_opt, if◌then◌else◌,
}
use mawster.War.Requests.{Request, Target}

pub data Method : Type 0 where
  get post put patch delete : Method

pub data Value : Type 0 where
  text : Text → Value
  number : Num → Value
  flag : Bool → Value
  texts : List Text → Value
  null : Value

-- `path` are the segments behind `/api/back`.
pub record Call : Type 0 where
  pub method : Method
  pub path : List Text
  pub body : List (Text × Value)

-- The address of a call.
abbrev url_of : List Text → Text
url_of [] = []
url_of (segment ∷ path) = codes "/" ++ segment ++ url_of path

unfoldable url : Call → Text
url c = codes "/api/back" ++ url_of c.path

pub record Response : Type 0 where
  pub ok : Bool
  pub status : ℕ
  pub message : Option Text
  pub detail : Option Text

-- The message of the error that is thrown, if one is.
unfoldable throw_on_error : Response → Text → Option Text
throw_on_error response fallback =
    if response.ok
    then none
    else some (
        codes "Erreur "
        ++ to_decimal response.status
        ++ codes ": "
        ++ or_else (or_opt response.message response.detail) fallback)

abbrev wars : Text → List Text → List Text
wars alliance_id rest = codes "alliances" ∷ alliance_id ∷ codes "wars" ∷ rest

abbrev war_bg : Target → List Text → List Text
war_bg t rest = wars t.alliance_id (t.war_id ∷ codes "bg" ∷ to_decimal t.bg ∷ rest)

abbrev war_node : Target → ℕ → List Text → List Text
war_node t node rest = war_bg t (codes "node" ∷ to_decimal node ∷ rest)

abbrev reads : List Text → Call
reads path = record { method = get; path = path; body = [] }

abbrev sends : Method → List Text → List (Text × Value) → Call
sends method path body = record { method = method; path = path; body = body }

abbrev get_wars : Text → Call
get_wars alliance_id = reads (wars alliance_id [])

abbrev get_current_war : Text → Call
get_current_war alliance_id = reads (wars alliance_id (codes "current" ∷ []))

abbrev war_body : Text → List Text → List (Text × Value)
war_body opponent_name banned_champion_ids =
    (codes "opponent_name", text opponent_name)
    ∷ (codes "banned_champion_ids", texts banned_champion_ids)
    ∷ []

abbrev create_war : Text → Text → List Text → Call
create_war alliance_id opponent_name banned_champion_ids =
    sends post (wars alliance_id []) (war_body opponent_name banned_champion_ids)

abbrev update_war : Text → Text → Text → List Text → Call
update_war alliance_id war_id opponent_name banned_champion_ids =
    sends patch (wars alliance_id (war_id ∷ [])) (war_body opponent_name banned_champion_ids)

abbrev get_war_defense : Target → Call
get_war_defense t = reads (war_bg t [])

abbrev place_war_defender : Target → ℕ → Text → ℕ → ℕ → ℕ → Call
place_war_defender t node champion_id stars rank ascension =
    sends post (war_bg t (codes "place" ∷ [])) (
      (codes "node_number", number (whole node))
      ∷ (codes "champion_id", text champion_id)
      ∷ (codes "stars", number (whole stars))
      ∷ (codes "rank", number (whole rank))
      ∷ (codes "ascension", number (whole ascension))
      ∷ [])

abbrev remove_war_defender : Target → ℕ → Call
remove_war_defender t node = sends delete (war_node t node []) []

abbrev elo_value : Option Num → Value
elo_value none = null
elo_value (some elo_change) = number elo_change

abbrev end_war : Text → Text → Bool → Option Num → Call
end_war alliance_id war_id win elo_change =
    sends post (wars alliance_id (war_id ∷ codes "end" ∷ []))
      ((codes "win", flag win) ∷ (codes "elo_change", elo_value elo_change) ∷ [])

abbrev clear_war_bg : Target → Call
clear_war_bg t = sends delete (war_bg t (codes "clear" ∷ [])) []

abbrev champion_body : Text → List (Text × Value)
champion_body champion_user_id = (codes "champion_user_id", text champion_user_id) ∷ []

abbrev assign_war_attacker : Target → ℕ → Text → Call
assign_war_attacker t node champion_user_id =
    sends post (war_node t node (codes "attacker" ∷ [])) (champion_body champion_user_id)

abbrev remove_war_attacker : Target → ℕ → Call
remove_war_attacker t node = sends delete (war_node t node (codes "attacker" ∷ [])) []

abbrev update_war_ko : Target → ℕ → ℕ → Call
update_war_ko t node ko_count =
    sends patch (war_node t node (codes "ko" ∷ []))
      ((codes "ko_count", number (whole ko_count)) ∷ [])

abbrev toggle_combat_completed : Target → ℕ → Call
toggle_combat_completed t node = sends patch (war_node t node (codes "complete" ∷ [])) []

abbrev toggle_fight_not_done : Target → ℕ → Call
toggle_fight_not_done t node = sends patch (war_node t node (codes "fight-not-done" ∷ [])) []

abbrev toggle_planning_error : Target → ℕ → Call
toggle_planning_error t node = sends patch (war_node t node (codes "planning-error" ∷ [])) []

abbrev assign_war_assist : Target → ℕ → Text → Call
assign_war_assist t node champion_user_id =
    sends post (war_node t node (codes "assist" ∷ [])) (champion_body champion_user_id)

abbrev remove_war_assist : Target → ℕ → Call
remove_war_assist t node = sends delete (war_node t node (codes "assist" ∷ [])) []

abbrev get_war_synergies : Target → Call
get_war_synergies t = reads (war_bg t (codes "synergy" ∷ []))

abbrev add_war_synergy : Target → Text → Text → Call
add_war_synergy t champion_user_id target_champion_user_id =
    sends post (war_bg t (codes "synergy" ∷ [])) (
      (codes "champion_user_id", text champion_user_id)
      ∷ (codes "target_champion_user_id", text target_champion_user_id)
      ∷ [])

abbrev remove_war_synergy : Target → Text → Call
remove_war_synergy t champion_user_id =
    sends delete (war_bg t (codes "synergy" ∷ champion_user_id ∷ [])) []

abbrev get_available_prefight_attackers : Target → Call
get_available_prefight_attackers t = reads (war_bg t (codes "available-prefight-attackers" ∷ []))

abbrev get_war_prefights : Target → Call
get_war_prefights t = reads (war_bg t (codes "prefight" ∷ []))

abbrev add_war_prefight : Target → Text → ℕ → Call
add_war_prefight t champion_user_id target_node_number =
    sends post (war_bg t (codes "prefight" ∷ [])) (
      (codes "champion_user_id", text champion_user_id)
      ∷ (codes "target_node_number", number (whole target_node_number))
      ∷ [])

abbrev remove_war_prefight : Target → Text → Call
remove_war_prefight t champion_user_id =
    sends delete (war_bg t (codes "prefight" ∷ champion_user_id ∷ [])) []

abbrev note_path : Target → ℕ → List Text
note_path t node =
    wars t.alliance_id
      (t.war_id ∷ codes "nodes" ∷ to_decimal t.bg ∷ to_decimal node ∷ codes "note" ∷ [])

abbrev upsert_war_fight_note : Target → ℕ → Text → Call
upsert_war_fight_note t node content =
    sends put (note_path t node) ((codes "content", text content) ∷ [])

abbrev delete_war_fight_note : Target → ℕ → Call
delete_war_fight_note t node = sends delete (note_path t node) []

-- The call of a request; loading a defense makes those of the synergies and the prefights as well.
unfoldable pub call : Request → Call
call (Request.get_war_defense t) = get_war_defense t
call (Request.clear_war_bg t) = clear_war_bg t
call (Request.place_war_defender t node champion_id stars rank ascension) =
    place_war_defender t node champion_id stars rank ascension
call (Request.remove_war_defender t node) = remove_war_defender t node
call (Request.remove_war_attacker t node) = remove_war_attacker t node
call (Request.toggle_combat_completed t node) = toggle_combat_completed t node
call (Request.toggle_fight_not_done t node) = toggle_fight_not_done t node
call (Request.toggle_planning_error t node) = toggle_planning_error t node
call (Request.remove_war_assist t node) = remove_war_assist t node
call (Request.delete_war_fight_note t node) = delete_war_fight_note t node
call (Request.assign_war_attacker t node id) = assign_war_attacker t node id
call (Request.assign_war_assist t node id) = assign_war_assist t node id
call (Request.upsert_war_fight_note t node content) = upsert_war_fight_note t node content
call (Request.update_war_ko t node new_ko) = update_war_ko t node new_ko
call (Request.add_war_synergy t id target_id) = add_war_synergy t id target_id
call (Request.remove_war_synergy t id) = remove_war_synergy t id
call (Request.remove_war_prefight t id) = remove_war_prefight t id
call (Request.add_war_prefight t id node) = add_war_prefight t id node
call (Request.create_war alliance_id opponent_name banned) =
    create_war alliance_id opponent_name banned
call (Request.update_war alliance_id war_id opponent_name banned) =
    update_war alliance_id war_id opponent_name banned
call (Request.end_war alliance_id war_id win elo_change) = end_war alliance_id war_id win elo_change
