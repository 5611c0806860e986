-- ===== src/AlliancesPage/Create/Owner.antt =====
-- The owner that is preselected after an alliance was created.
use mawster.Base.{
  Answer, resolved, rejected, Text, List, [], ◌∷◌, some, false, ◌≡◌, refl, sym, ◌∙◌, ap, is_empty,
}
use mawster.Account.{GameAccount}
use mawster.AlliancesPage.{AlliancesPage}
use mawster.AlliancesPage.Loading.{first_owner, fetch_eligible_owners_answered}
use mawster.AlliancesPage.Create.{CreateRequest, handle_create, create_answered}
use mawster.AlliancesPage.Create.Allowed.{handle_create-owner_id}

first_owner-stays :
    (owner_id : Text) (owners : List GameAccount) (current : Text)
    → is_empty owner_id ≡ false
    → first_owner owner_id owners current ≡ current
first_owner-stays owner_id [] current full = refl
first_owner-stays owner_id (a ∷ owners) current full = rw full refl

-- The handler that created an alliance asks for the owners with the owner of its own render, so
-- that none is preselected afterwards, whoever is eligible.
pub create_answered-owner_id :
    (s s' : AlliancesPage) (request : CreateRequest)
    → handle_create s ≡ (s', some request)
    → (owners : Answer (List GameAccount)) (waiting done : AlliancesPage)
    → fetch_eligible_owners_answered s.owner_id owners (create_answered (resolved tt) waiting)
      ≡ done
    → done.owner_id ≡ []
unfolding create_answered fetch_eligible_owners_answered
create_answered-owner_id s s' request sent (rejected message) waiting done run =
    ap (λ d. d.owner_id) (sym run)
create_answered-owner_id s s' request sent (resolved owners) waiting done run =
    ap (λ d. d.owner_id) (sym run)
    ∙ first_owner-stays s.owner_id owners [] (handle_create-owner_id s s' request sent)
