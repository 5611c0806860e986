-- ===== src/Auth/Refresh/Fresh.antt =====
-- What a refreshed token is.
use mawster.Base.{
  ℕ, ◌+◌, ◌<◌, Text, Option, none, some, true, false, ◌≡◌, refl, sym, ap, ◌∙◌, ◌⊎◌, inl, inr, arith,
  is_some, or_opt, Option-cases, Bool-cases, codes, ◌==◌, text_eq,
}
use mawster.Auth.{
  Token, Fetched, threw, not_ok, ok, BackendTokens, DiscordTokens, JwtPayload, Env, truthy, an_hour,
  expire, sign_in, is_usable,
}
use mawster.Auth.Refresh.{
  discord_login, discord_fallback, refresh_backend_token, Account, DevUser, provider_login,
  dev_login, is_current, subsequent, token_of, oauth_login, jwt_callback,
}

-- The back end answers the session's refresh token with tokens whose access token decodes.
abbrev pub FromRefresh : Env → Token → BackendTokens → JwtPayload → Type 0
FromRefresh env token tokens decoded =
    (refresh_token : Text) × (truthy token.backend_refresh_token ≡ some refresh_token)
    × (env.refresh refresh_token ≡ ok tokens)
    × (env.decode tokens.access_token ≡ some decoded)

-- Discord answers the session's refresh token of Discord, and the back end answers the access token
-- that Discord sent, with tokens whose access token decodes.
abbrev pub FromDiscord : Env → Token → BackendTokens → JwtPayload → Type 0
FromDiscord env token tokens decoded =
    (discord_token : Text) × (discord : DiscordTokens) × (truthy token.discord_refresh_token
      ≡ some discord_token)
    × (env.discord_refresh discord_token ≡ ok discord)
    × (env.auth_discord discord.access_token ≡ ok tokens)
    × (env.decode tokens.access_token ≡ some decoded)

abbrev NoRefresh : Env → Token → Type 0
NoRefresh env token =
    (tokens : BackendTokens) (decoded : JwtPayload) → ¬ FromRefresh env token tokens decoded

abbrev NoDiscord : Env → Token → Type 0
NoDiscord env token =
    (tokens : BackendTokens) (decoded : JwtPayload) → ¬ FromDiscord env token tokens decoded

-- The request for a refresh threw, so that Discord was not tried.
abbrev Threw : Env → Token → Type 0
Threw env token =
    (refresh_token : Text) × (truthy token.backend_refresh_token ≡ some refresh_token)
    × (env.refresh refresh_token ≡ threw)

-- No tokens were to be had.
pub record IsRefused (env : Env) (token : Token) : Type 0 where
  pub no_refresh : NoRefresh env token
  pub no_discord : Threw env token ⊎ NoDiscord env token

-- A token that was made from an answer of the back end; Discord is asked only where the back end
-- does not refresh.
pub record IsFresh (env : Env) (token t : Token) : Type 0 where
  pub tokens : BackendTokens
  pub decoded : JwtPayload
  pub granted :
      FromRefresh env token tokens decoded
      ⊎ (NoRefresh env token × FromDiscord env token tokens decoded)
  pub access_token : t.access_token ≡ some tokens.access_token
  pub backend_refresh_token : t.backend_refresh_token ≡ tokens.refresh_token
  pub id : t.id ≡ some decoded.user_id
  pub role : t.role ≡ some decoded.role
  pub expires : t.access_token_expires ≡ some (env.now + an_hour)
  pub usable : is_usable t ≡ true
  -- a refresh token of Discord is never lost
  pub keeps_discord :
      (is_some token.discord_refresh_token ≡ false) ⊎ (is_some t.discord_refresh_token ≡ true)

Fetched-cases : {A : Type 0} (f : Fetched A) → (f ≡ threw) ⊎ (f ≡ not_ok) ⊎ ((a : A) × (f ≡ ok a))
Fetched-cases threw = inl refl
Fetched-cases not_ok = inr (inl refl)
Fetched-cases (ok a) = inr (inr (a, refl))

sign_in-IsFresh :
    (env : Env) (token : Token) (tokens : BackendTokens) (decoded : JwtPayload) (d : Option Text)
    → FromRefresh env token tokens decoded
      ⊎ (NoRefresh env token × FromDiscord env token tokens decoded)
    → (is_some token.discord_refresh_token ≡ false) ⊎ (is_some d ≡ true)
    → IsFresh env token
        (record (sign_in env.now decoded tokens token) { discord_refresh_token = d })
sign_in-IsFresh env token tokens decoded d g keeps = record {
  tokens = tokens;
  decoded = decoded;
  granted = g;
  access_token = refl;
  backend_refresh_token = refl;
  id = refl;
  role = refl;
  expires = refl;
  usable = refl;
  keeps_discord = keeps;
}

is_some-cases : {A : Type 0} (a b : Option A) → (is_some a ≡ false) ⊎ (is_some (or_opt b a) ≡ true)
is_some-cases none b = inl refl
is_some-cases (some a) none = inr refl
is_some-cases (some a) (some b) = inr refl

-- Either outcome of a refresh.
abbrev Refreshed : Env → Token → Token → Type 0
Refreshed env token t = ((t ≡ expire token) × IsRefused env token) ⊎ IsFresh env token t

module _ (env : Env) (token : Token) where
  NoRefresh-at :
      (r : Text)
      → truthy token.backend_refresh_token ≡ some r
      → ((tokens : BackendTokens) (decoded : JwtPayload)
          → env.refresh r ≡ ok tokens
          → ¬ (env.decode tokens.access_token ≡ some decoded))
      → NoRefresh env token
  NoRefresh-at r e never tokens decoded (r', e', f, d) = never tokens decoded (cc) d

  NoDiscord-at :
      (d : Text) (discord : DiscordTokens)
      → truthy token.discord_refresh_token ≡ some d
      → env.discord_refresh d ≡ ok discord
      → ((tokens : BackendTokens) (decoded : JwtPayload)
          → env.auth_discord discord.access_token ≡ ok tokens
          → ¬ (env.decode tokens.access_token ≡ some decoded))
      → NoDiscord env token
  NoDiscord-at d discord t f never tokens decoded (d', discord', t', f', e, g) =
      let same : discord' ≡ discord = cc in
      never tokens decoded
        (ap (λ (x : DiscordTokens). env.auth_discord x.access_token) (sym same) ∙ e) g

  module _ (no_refresh : NoRefresh env token) where
    by_discord :
        (discord_token : Text) (discord : DiscordTokens)
        → truthy token.discord_refresh_token ≡ some discord_token
        → env.discord_refresh discord_token ≡ ok discord
        → Refreshed env token (discord_login env discord token)
    unfolding discord_login
    by_discord discord_token discord t f =
        elim (Fetched-cases (env.auth_discord discord.access_token)) [
          | inl e ↦
              rw (e, discord_login)
                (inl (
                  refl,
                  record {
                    no_refresh = no_refresh;
                    no_discord =
                        inr (NoDiscord-at discord_token discord t f (λ tokens decoded g. cc));
                  },
                ))
          | inr (inl e) ↦
              rw (e, discord_login)
                (inl (
                  refl,
                  record {
                    no_refresh = no_refresh;
                    no_discord =
                        inr (NoDiscord-at discord_token discord t f (λ tokens decoded g. cc));
                  },
                ))
          | inr (inr (tokens, e)) ↦ elim (Option-cases (env.decode tokens.access_token)) [
            | inl d ↦
                rw (e, discord_login, d)
                  (inl (
                    refl,
                    record {
                      no_refresh = no_refresh;
                      no_discord =
                          inr (NoDiscord-at discord_token discord t f (undecoded tokens e d));
                    },
                  ))
            | inr (decoded, d) ↦
                rw (e, discord_login, d)
                  (inr (
                    sign_in-IsFresh env token tokens decoded _
                      (inr (no_refresh, (discord_token, discord, t, f, e, d)))
                      (is_some-cases token.discord_refresh_token discord.refresh_token)))
          ]
        ]
      where
        undecoded :
            (tokens : BackendTokens)
            → env.auth_discord discord.access_token ≡ ok tokens
            → env.decode tokens.access_token ≡ none
            → (tokens' : BackendTokens) (decoded : JwtPayload)
            → env.auth_discord discord.access_token ≡ ok tokens'
            → ¬ (env.decode tokens'.access_token ≡ some decoded)
        undecoded tokens e d tokens' decoded e' d' = cc

    discord_fallback-Refreshed : Refreshed env token (discord_fallback env token)
    unfolding discord_fallback
    discord_fallback-Refreshed = elim (Option-cases (truthy token.discord_refresh_token)) [
      | inl e ↦
          rw (e, discord_fallback)
            (inl (refl, record { no_refresh = no_refresh; no_discord = inr (no_token e) }))
      | inr (discord_token, e) ↦ elim (Fetched-cases (env.discord_refresh discord_token)) [
        | inl f ↦
            rw (e, discord_fallback, f)
              (inl (
                refl,
                record {
                  no_refresh = no_refresh;
                  no_discord = inr (no_answer discord_token e (λ discord g. cc));
                },
              ))
        | inr (inl f) ↦
            rw (e, discord_fallback, f)
              (inl (
                refl,
                record {
                  no_refresh = no_refresh;
                  no_discord = inr (no_answer discord_token e (λ discord g. cc));
                },
              ))
        | inr (inr (discord, f)) ↦
            rw (e, discord_fallback, f) (by_discord discord_token discord e f)
      ]
    ]
      where
        no_token : truthy token.discord_refresh_token ≡ none → NoDiscord env token
        no_token e tokens decoded (d, discord, t, f, a, g) = cc

        no_answer :
            (discord_token : Text)
            → truthy token.discord_refresh_token ≡ some discord_token
            → ((discord : DiscordTokens) → ¬ (env.discord_refresh discord_token ≡ ok discord))
            → NoDiscord env token
        no_answer discord_token e never tokens decoded (d, discord, t, f, a, g) = never discord (cc)

pub refresh_backend_token-IsFresh :
    (env : Env) (token : Token)
    → ((refresh_backend_token env token ≡ expire token) × IsRefused env token)
      ⊎ IsFresh env token (refresh_backend_token env token)
unfolding refresh_backend_token
refresh_backend_token-IsFresh env token = elim (Option-cases (truthy token.backend_refresh_token)) [
  | inl e ↦ rw (e, refresh_backend_token) (discord_fallback-Refreshed env token (no_token e))
  | inr (r, e) ↦ elim (Fetched-cases (env.refresh r)) [
    | inl f ↦
        rw (e, refresh_backend_token, f)
          (inl (
            refl,
            record {
              no_refresh = NoRefresh-at env token r e (λ tokens decoded g. cc);
              no_discord = inl (r, e, f);
            },
          ))
    | inr (inl f) ↦
        rw (e, refresh_backend_token, f)
          (discord_fallback-Refreshed env token
            (NoRefresh-at env token r e (λ tokens decoded g. cc)))
    | inr (inr (tokens, f)) ↦ elim (Option-cases (env.decode tokens.access_token)) [
      | inl d ↦
          rw (e, refresh_backend_token, f, d)
            (discord_fallback-Refreshed env token
              (NoRefresh-at env token r e (undecoded r tokens f d)))
      | inr (decoded, d) ↦
          rw (e, refresh_backend_token, f, d)
            (inr (
              sign_in-IsFresh env token tokens decoded token.discord_refresh_token
                (inl (r, e, f, d)) (is_some-cases token.discord_refresh_token none)))
    ]
  ]
]
  where
    no_token : truthy token.backend_refresh_token ≡ none → NoRefresh env token
    no_token e tokens decoded (r, t, f, d) = cc

    undecoded :
        (r : Text) (tokens : BackendTokens)
        → env.refresh r ≡ ok tokens
        → env.decode tokens.access_token ≡ none
        → (tokens' : BackendTokens) (decoded : JwtPayload) → env.refresh r ≡ ok tokens'
        → ¬ (env.decode tokens'.access_token ≡ some decoded)
    undecoded r tokens f d tokens' decoded f' d' = cc

-- A token that may be handed on: if it is usable, it has not run out.
abbrev IsLive : ℕ → Token → Type 0
IsLive now t = (is_usable t ≡ false) ⊎ ((n : ℕ) × (t.access_token_expires ≡ some n) × (now < n))

IsLive-of_Refreshed : (env : Env) (token t : Token) → Refreshed env token t → IsLive env.now t
IsLive-of_Refreshed env token t (inl (e, refused)) = inl (rw e)
IsLive-of_Refreshed env token t (inr f) = inr (env.now + an_hour, f.expires, omega arith)

subsequent-IsLive : (env : Env) (token : Token) → IsLive env.now (subsequent env token)
unfolding subsequent
subsequent-IsLive env token = elim (Bool-cases (is_current env.now token.access_token_expires)) [
  | inl current ↦ rw current (inr (current_expiry env.now token.access_token_expires current))
  | inr stale ↦ rw stale (IsLive-of_Refreshed env token _ (refresh_backend_token-IsFresh env token))
]
  where
    current_expiry :
        (now : ℕ) (o : Option ℕ) → is_current now o ≡ true → (n : ℕ) × (o ≡ some n) × (now < n)
    current_expiry now none h = cc
    current_expiry now (some n) h = (n, refl, ground arith)

provider_login-IsLive :
    (env : Env) (answer : Fetched BackendTokens) (keep : Token → Token) (token : Token)
    → ((t : Token) → (keep t).access_token_expires ≡ t.access_token_expires)
    → IsLive env.now (provider_login env answer keep token)
unfolding provider_login
provider_login-IsLive env threw keep token k = inl refl
provider_login-IsLive env not_ok keep token k = inl refl
provider_login-IsLive env (ok tokens) keep token k =
    elim (Option-cases (env.decode tokens.access_token)) [
      | inl d ↦ rw (d, provider_login) (inl refl)
      | inr (decoded, d) ↦ rw (d, provider_login) (inr (env.now + an_hour, k _, omega arith))
    ]

oauth_login-IsLive :
    (env : Env) (account : Account) (token : Token) → IsLive env.now (oauth_login env account token)
unfolding oauth_login
oauth_login-IsLive env account token = elim (Option-cases (token_of (codes "google") account)) [
  | inr (a, e) ↦
      rw (e, oauth_login) (provider_login-IsLive env (env.auth_google a) _ token (λ t. refl))
  | inl e ↦ elim (Option-cases (token_of (codes "discord") account)) [
    | inr (a, f) ↦
        rw (e, oauth_login, f) (provider_login-IsLive env (env.auth_discord a) _ token (λ t. refl))
    | inl f ↦ rw (e, oauth_login, f) (subsequent-IsLive env token)
  ]
]

-- Whatever the login and the answers, the token that the `jwt` callback hands on is not usable, or
-- its expiry is in the future: a session never runs on an access token that has run out.
pub jwt_callback-IsLive :
    (env : Env) (account : Option Account) (user : Option DevUser) (token : Token)
    → (is_usable (jwt_callback env account user token) ≡ false)
      ⊎ ((n : ℕ) × ((jwt_callback env account user token).access_token_expires ≡ some n)
          × (env.now < n))
unfolding jwt_callback dev_login
jwt_callback-IsLive env none user token = subsequent-IsLive env token
jwt_callback-IsLive env (some account) none token = oauth_login-IsLive env account token
jwt_callback-IsLive env (some account) (some user) token =
    elim (Bool-cases (account.provider == codes "dev-login")) [
      | inl dev ↦ rw dev (inr (env.now + an_hour, refl, omega arith))
      | inr other ↦ rw other (oauth_login-IsLive env account token)
    ]
