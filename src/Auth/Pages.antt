-- ===== src/Auth/Pages.antt =====
-- The page guard of front/proxy.ts. `NextResponse.next` and the redirects are the decision; the
-- token is what `getToken` reads from the cookie.
pub mod Guard
use mawster.Base.{
  Text, List, [], ◌∷◌, ◌++◌, Option, none, some, Bool, true, false, not, ◌&&◌, ◌||◌, ◌==◌, ◌≡◌,
  refl, ◌⊎◌, inl, inr, text_eq, text_beq, text_beq_iff, starts_with, any, codes, if◌then◌else◌,
  Bool-cases, Option-cases, arith,
}
use mawster.Auth.{Token, is_usable}

abbrev public_paths : List Text
public_paths = codes "/" ∷ codes "/api/auth" ∷ codes "/login" ∷ codes "/register" ∷ []

abbrev admin_paths : List Text
admin_paths = codes "/admin" ∷ []

unfoldable pub is_path_matching : Text → List Text → Bool
is_path_matching path paths =
    any (λ base_path. path == base_path || starts_with path (base_path ++ codes "/")) paths

-- What is done with a request: it goes on, or the browser is sent to another path, with the
-- `callbackUrl` of the query.
pub data Decision : Type 0 where
  next : Decision
  redirect : Text → Option Text → Decision

abbrev is_signed_in : Option Token → Bool
is_signed_in none = false
is_signed_in (some token) = is_usable token

abbrev is_login_page : Text → Bool
is_login_page pathname = pathname == codes "/login" || pathname == codes "/register"

-- `role === name`
abbrev has_role : Text → Option Text → Bool
has_role name none = false
has_role name (some role) = role == name

abbrev is_staff : Token → Bool
is_staff token = has_role (codes "admin") token.role || has_role (codes "super_admin") token.role

abbrev is_public : Text → Bool
is_public pathname = is_path_matching pathname public_paths

abbrev is_admin_path : Text → Bool
is_admin_path pathname = is_path_matching pathname admin_paths

-- The steps behind the public paths.
unfoldable pub guarded : Option Token → Text → Decision
guarded none pathname = redirect (codes "/login") (some pathname)
guarded (some token) pathname =
    if not (is_usable token)
    then redirect (codes "/login") none
    else if is_admin_path pathname && not (is_staff token)
    then redirect (codes "/") none
    else next

unfoldable pub proxy : Option Token → Text → Decision
proxy token pathname =
    if is_signed_in token && is_login_page pathname
    then redirect (codes "/") none
    else if is_public pathname
    then next
    else guarded token pathname
