-- ===== src/Auth/Refresh.antt =====
-- `refreshBackendToken` and the `jwt` callback.
pub mod Fresh
use mawster.Base.{
  ℕ, ◌+◌, Text, Option, none, some, Bool, true, false, not, ◌&&◌, ◌||◌, ◌==◌, text_eq, nat_eq, ltb,
  codes, or_opt, is_empty, if◌then◌else◌,
}
use mawster.Auth.{
  Token, Fetched, threw, not_ok, ok, BackendTokens, DiscordTokens, JwtPayload, Env, truthy, an_hour,
  expire, sign_in,
}

-- With the tokens of Discord at hand: authenticate at the back end again.
unfoldable pub discord_login : Env → DiscordTokens → Token → Token
discord_login env discord token = elim (env.auth_discord discord.access_token) [
  | threw ↦ expire token
  | not_ok ↦ expire token
  | ok tokens ↦ elim (env.decode tokens.access_token) [
    | none ↦ expire token
    | some decoded ↦ record (sign_in env.now decoded tokens token) {
      discord_refresh_token = or_opt discord.refresh_token token.discord_refresh_token;
    }
  ]
]

-- The second part: a new login by Discord's refresh token, if there is one.
unfoldable pub discord_fallback : Env → Token → Token
discord_fallback env token = elim (truthy token.discord_refresh_token) [
  | none ↦ expire token
  | some discord_token ↦ elim (env.discord_refresh discord_token) [
    | threw ↦ expire token
    | not_ok ↦ expire token
    | ok discord ↦ discord_login env discord token
  ]
]

unfoldable pub refresh_backend_token : Env → Token → Token
refresh_backend_token env token = elim (truthy token.backend_refresh_token) [
  | none ↦ discord_fallback env token
  | some refresh_token ↦ elim (env.refresh refresh_token) [
    | threw ↦ expire token
    | not_ok ↦ discord_fallback env token
    | ok tokens ↦ elim (env.decode tokens.access_token) [
      | none ↦ discord_fallback env token
      | some decoded ↦ sign_in env.now decoded tokens token
    ]
  ]
]

pub record Account : Type 0 where
  pub provider : Text
  pub access_token : Option Text
  pub refresh_token : Option Text

-- The user that the development login returns.
pub record DevUser : Type 0 where
  pub id : Option Text
  pub role : Option Text
  pub access_token : Option Text
  pub refresh_token : Option Text

-- A first login by Google or Discord; `keep` adds what the provider has to add.
unfoldable pub provider_login : Env → Fetched BackendTokens → (Token → Token) → Token → Token
provider_login env threw keep token = expire token
provider_login env not_ok keep token = expire token
provider_login env (ok tokens) keep token = elim (env.decode tokens.access_token) [
  | none ↦ expire token
  | some decoded ↦ keep (sign_in env.now decoded tokens token)
]

unfoldable pub dev_login : Env → DevUser → Token → Token
dev_login env user token = record token {
  id = user.id;
  role = user.role;
  access_token = user.access_token;
  backend_refresh_token = user.refresh_token;
  access_token_expires = some (env.now + an_hour);
  expired = false;
  backend_authenticated = true;
}

-- `accessTokenExpires && Date.now() < accessTokenExpires`
abbrev is_current : ℕ → Option ℕ → Bool
is_current now none = false
is_current now (some expires) = not (expires == 0) && ltb now expires

-- A request with no login: keep the token while it is current, else refresh it.
unfoldable pub subsequent : Env → Token → Token
subsequent env token =
    if is_current env.now token.access_token_expires then token else refresh_backend_token env token

-- The token of an account, if it is one of the provider and has an access token.
abbrev token_of : Text → Account → Option Text
token_of provider account =
    if account.provider == provider then truthy account.access_token else none

unfoldable pub oauth_login : Env → Account → Token → Token
oauth_login env account token = elim (token_of (codes "google") account) [
  | some access_token ↦ provider_login env (env.auth_google access_token) (λ t. t) token
  | none ↦ elim (token_of (codes "discord") account) [
    | some access_token ↦
        provider_login env (env.auth_discord access_token)
          (λ t. record t { discord_refresh_token = account.refresh_token }) token
    | none ↦ subsequent env token
  ]
]

unfoldable pub jwt_callback : Env → Option Account → Option DevUser → Token → Token
jwt_callback env none user token = subsequent env token
jwt_callback env (some account) none token = oauth_login env account token
jwt_callback env (some account) (some user) token =
    let oauth = oauth_login env account token in
    if account.provider == codes "dev-login" then dev_login env user token else oauth
