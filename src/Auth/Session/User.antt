-- ===== src/Auth/Session/User.antt =====
-- What the session holds of its token.
use mawster.Base.{
  Text, Option, none, some, Bool, true, false, not, ◌||◌, ◌≡◌, refl, ◌⊎◌, inl, inr, or_opt,
  Bool-cases, Option-cases, arith,
}
use mawster.Auth.{Token, Profile, Fetched, threw, not_ok, ok, Env, truthy, is_usable}
use mawster.Auth.Session.{
  SessionUser, Session, token_expired_error, profile_session, synced_session, session_callback,
}

-- What the answer of `/auth/session` gives of a field; nothing, where there was no good answer.
abbrev of_profile : (Profile → Option Text) → Fetched Profile → Option Text
of_profile field threw = none
of_profile field not_ok = none
of_profile field (ok profile) = field profile

-- The answer of `/auth/session` to the token; it is not asked without an access token.
abbrev profile_answer : Env → Token → Fetched Profile
profile_answer env token = elim (truthy token.access_token) [
  | none ↦ not_ok
  | some access_token ↦ env.auth_session access_token
]

pub record IsSynced (env : Env) (token : Token) (session : Session) : Type 0 where
  pub user : SessionUser
  pub has_user : session.user ≡ some user
  pub access_token : session.access_token ≡ token.access_token
  pub id : user.id ≡ or_opt (of_profile (λ p. p.id) (profile_answer env token)) token.id
  pub role : user.role ≡ or_opt (of_profile (λ p. p.role) (profile_answer env token)) token.role

profile_session-IsSynced :
    (env : Env) (token : Token) (session : Session) (answer : Fetched Profile)
    → profile_answer env token ≡ answer
    → IsSynced env token (profile_session answer token session)
profile_session-IsSynced env token session threw e = record {
  user = _;
  has_user = refl;
  access_token = refl;
  id = rw e refl;
  role = rw e refl;
}
profile_session-IsSynced env token session not_ok e = record {
  user = _;
  has_user = refl;
  access_token = refl;
  id = rw e refl;
  role = rw e refl;
}
profile_session-IsSynced env token session (ok profile) e = record {
  user = _;
  has_user = refl;
  access_token = refl;
  id = rw e refl;
  role = rw e refl;
}

synced_session-profile_session :
    (env : Env) (token : Token) (session : Session)
    → synced_session env token session ≡ profile_session (profile_answer env token) token session
unfolding synced_session
synced_session-profile_session env token session = elim (Option-cases (truthy token.access_token)) [
  | inl e ↦ rw (profile_answer, synced_session, e) refl
  | inr (a, e) ↦ rw (profile_answer, synced_session, e) refl
]

-- A session with no user and the error TokenExpiredError.
abbrev pub IsExpired : Session → Type 0
IsExpired session = (session.user ≡ none) × (session.error ≡ some token_expired_error)

-- A token that is not usable gives a session with no user and the error TokenExpiredError; a
-- usable one gives a session with the token's access token and a user, whose id and role are those
-- of the profile that the back end answers with, and the token's where it gives none.
pub session_callback-IsSynced :
    (env : Env) (token : Token) (session : Session)
    → ((is_usable token ≡ false) × IsExpired (session_callback env token session))
      ⊎ ((is_usable token ≡ true) × IsSynced env token (session_callback env token session))
unfolding session_callback
session_callback-IsSynced env token session = elim (Bool-cases (unusable token)) [
  | inl u ↦ inl (usable_of token true u, rw u (refl, refl))
  | inr u ↦ inr (
    usable_of token false u,
    rw (u, synced_session-profile_session env token session)
        (profile_session-IsSynced env token session (profile_answer env token) refl),
  )
]
  where
    unusable : Token → Bool
    unusable token = token.expired || not token.backend_authenticated

    usable_of : (token : Token) (b : Bool) → unusable token ≡ b → is_usable token ≡ not b
    usable_of token b h = ground arith
