-- ===== src/Auth.antt =====
-- Sign-in and sessions of the front end's server: front/app/lib/auth-refresh.ts, the callbacks of
-- front/app/api/auth/[...nextauth]/route.ts, the page guard front/proxy.ts and the proxy to the
-- back end front/app/api/back/[...path]/route.ts. The back end, Discord, `jwt.decode` and the
-- clock are a record of functions.
pub mod Refresh
pub mod Session
pub mod Pages
pub mod Backend
mod Tests
use mawster.Base.{
  ℕ, ◌+◌, Text, Option, none, some, Bool, true, false, not, ◌&&◌, ◌||◌, is_empty, if◌then◌else◌,
}

-- The token that NextAuth keeps in its cookie; a missing field is `none`, a missing flag `false`.
pub record Token : Type 0 where
  pub id : Option Text
  pub name : Option Text
  pub email : Option Text
  pub role : Option Text
  pub created_at : Option Text
  pub access_token : Option Text
  pub backend_refresh_token : Option Text
  pub discord_refresh_token : Option Text
  pub access_token_expires : Option ℕ
  pub expired : Bool
  pub backend_authenticated : Bool

-- The answer to a request whose body is read: it throws (the request or its JSON), it is not ok,
-- or it is ok and has a body.
pub data Fetched (A : Type 0) : Type 0 where
  threw not_ok : Fetched A
  ok : A → Fetched A

pub record BackendTokens : Type 0 where
  pub access_token : Text
  pub refresh_token : Option Text

pub record DiscordTokens : Type 0 where
  pub access_token : Text
  pub refresh_token : Option Text

pub record JwtPayload : Type 0 where
  pub user_id : Text
  pub role : Text

-- The profile of `/auth/session`; each field may be missing or null.
pub record Profile : Type 0 where
  pub id : Option Text
  pub login : Option Text
  pub email : Option Text
  pub role : Option Text
  pub discord_id : Option Text
  pub google_id : Option Text
  pub created_at : Option Text

pub record Env : Type 0 where
  pub now : ℕ
  pub refresh : Text → Fetched BackendTokens
  pub discord_refresh : Text → Fetched DiscordTokens
  pub auth_discord : Text → Fetched BackendTokens
  pub auth_google : Text → Fetched BackendTokens
  pub auth_session : Text → Fetched Profile
  pub decode : Text → Option JwtPayload

-- A string that is there and not empty.
abbrev truthy : Option Text → Option Text
truthy none = none
truthy (some s) = if is_empty s then none else some s

abbrev an_hour : ℕ
an_hour = 3600000

abbrev expire : Token → Token
expire token = record token { expired = true; backend_authenticated = false }

-- What the back end's tokens make of the session's token.
abbrev sign_in : ℕ → JwtPayload → BackendTokens → Token → Token
sign_in now decoded tokens token = record token {
  id = some decoded.user_id;
  role = some decoded.role;
  access_token = some tokens.access_token;
  backend_refresh_token = tokens.refresh_token;
  access_token_expires = some (now + an_hour);
  expired = false;
  backend_authenticated = true;
}

-- The test that the session callback and the page guard make.
abbrev is_usable : Token → Bool
is_usable token = not token.expired && token.backend_authenticated
