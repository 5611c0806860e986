-- ===== src/Matchups/Ratings.antt =====
-- front/app/game/knowledge-base/_viewmodels/use-matchup-ratings.ts: the saved ratings of the
-- attacker that is edited. `R` is a rating and `B` what is saved of one.
use mawster.Base.{
  Answer, resolved, rejected, Text, List, [], Option, none, some, Bool, true, false, not, ◌&&◌,
  is_empty, is_truthy, if◌then◌else◌,
}
use mawster.Matchups.{load_failed}

pub record Ratings (R : Type 0) : Type 0 where
  pub ratings : List R
  pub error : Option Text

-- Whether the ratings of an attacker are asked for.
abbrev loads_ratings : (alliance_id : Text) → (champion_id : Option Text) → Bool
loads_ratings alliance_id champion_id = not (is_empty alliance_id) && is_truthy champion_id

unfoldable load_ratings : {R : Type 0} → Bool → Answer (List R) → Ratings R → Ratings R
load_ratings false answer s = record s { ratings = [] }
load_ratings true (resolved ratings) s = record s { ratings = ratings }
load_ratings true (rejected message) s = record s { error = some load_failed }

pub data Write (B : Type 0) : Type 0 where
  upsert_matchup : (alliance_id : Text) → B → Write B
  delete_matchup : (alliance_id rating_id : Text) → Write B

-- Both views are loaded again after a write.
unfoldable save_matchup : {B : Type 0} → Text → B → Option (Write B)
save_matchup alliance_id body =
    if is_empty alliance_id then none else some (upsert_matchup alliance_id body)

unfoldable remove_matchup : {B : Type 0} → Text → Text → Option (Write B)
remove_matchup alliance_id rating_id =
    if is_empty alliance_id then none else some (delete_matchup alliance_id rating_id)
