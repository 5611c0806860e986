-- ===== src/Auth/Backend/Authorized.antt =====
-- Which requests reach the back end, and with which token.
use mawster.Base.{
  ℕ, ◌<◌, Text, ◌++◌, Option, none, some, Bool, true, false, ◌≡◌, refl, ap, sym, ◌∙◌, [], ◌∷◌,
  text_beq, ◌⊎◌, inl, inr, text_eq, codes, Bool-cases, Option-cases,
}
use mathlib.Core.Bool.{false≢true}
use mawster.Auth.{Token, Env, truthy}
use mawster.Auth.Session.{Session, session_callback}
use mawster.Auth.Session.User.{session_callback-IsSynced, IsExpired}
use mawster.Auth.Refresh.{jwt_callback}
use mawster.Auth.Refresh.Fresh.{jwt_callback-IsLive}
use mawster.Auth.Backend.{
  Request, BackendRequest, BackendResponse, back_proxy, private_proxy, is_public_path,
  backend_request, access_token_of, has_expired, bearer,
}

truthy-some : (o : Option Text) (a : Text) → truthy o ≡ some a → o ≡ some a
truthy-some none a h = h
truthy-some (some []) a h = absurd cc
truthy-some (some (c ∷ s)) a h = h

has_expired-IsExpired : (session : Session) → IsExpired session → has_expired (some session) ≡ true
unfolding text_beq
has_expired-IsExpired session h = rw h.1 refl

not_live : {b : Bool} → b ≡ false → b ≡ true → ⊥
not_live p q = false≢true (sym p ∙ q)

module _ (fetch : BackendRequest → Option BackendResponse) (api_url : Text) where
  -- The three outcomes of the guard.
  abbrev Outcome : Option Session → Request → Type 0
  Outcome session req =
      ((back_proxy fetch api_url session req).0 ≡ none)
      ⊎ ((is_public_path req ≡ true)
          × ((back_proxy fetch api_url session req).0 ≡ some (backend_request api_url none req)))
      ⊎ ((a : Text) × (access_token_of session ≡ some a)
          × (has_expired session ≡ false)
          × ((back_proxy fetch api_url session req).0
              ≡ some (backend_request api_url (some a) req)))

  back_proxy-Outcome : (session : Option Session) (req : Request) → Outcome session req
  unfolding back_proxy private_proxy
  back_proxy-Outcome session req = elim (Bool-cases (is_public_path req)) [
    | inl public ↦ inr (inl (public, rw public refl))
    | inr private ↦ elim (Option-cases (access_token_of session)) [
      | inl e ↦ inl (rw (private, e, private_proxy) refl)
      | inr (a, e) ↦ elim (Bool-cases (has_expired session)) [
        | inl expired ↦ inl (rw (private, e, private_proxy, expired) refl)
        | inr live ↦ inr (inr (a, e, live, rw (private, e, private_proxy, live) refl))
      ]
    ]
  ]

  -- A request is sent to the back end only for the public path, and then without a token, or with
  -- the session's access token, which is not empty, of a session that has not expired.
  back_proxy-authorization :
      (session : Option Session) (req : Request) (sent : BackendRequest)
      → (back_proxy fetch api_url session req).0 ≡ some sent
      → ((is_public_path req ≡ true) × (sent.authorization ≡ none))
        ⊎ ((a : Text) × (access_token_of session ≡ some a)
            × (has_expired session ≡ false)
            × (sent.authorization ≡ some (codes "Bearer " ++ a)))
  back_proxy-authorization session req sent h = elim (back_proxy-Outcome session req) [
    | inl e ↦ absurd (sent_none e)
    | inr (inl (public, e)) ↦ inl (public, authorization_of none e)
    | inr (inr (a, t, live, e)) ↦ inr (a, t, live, authorization_of (some a) e)
  ]
    where
      sent_none : (back_proxy fetch api_url session req).0 ≡ none → ⊥
      sent_none e = cc

      authorization_of :
          (t : Option Text)
          → (back_proxy fetch api_url session req).0 ≡ some (backend_request api_url t req)
          → sent.authorization ≡ bearer t
      authorization_of t e = ap (λ r. r.authorization) (sent_is t e)
        where
          sent_is :
              (t : Option Text)
              → (back_proxy fetch api_url session req).0 ≡ some (backend_request api_url t req)
              → sent ≡ backend_request api_url t req
          sent_is t e = cc

  -- From the cookie's token to the back end: a request on a path that is not public is sent only
  -- when the token that the callbacks made has an access token and an expiry in the future, and it
  -- carries that access token.
  pub back_proxy-jwt_callback :
      (env : Env) (token : Token) (session : Session) (req : Request) (sent : BackendRequest)
      → is_public_path req ≡ false
      → (back_proxy fetch api_url
          (some (session_callback env (jwt_callback env none none token) session))
          req).0
        ≡ some sent
      → (a : Text) × (n : ℕ) × ((jwt_callback env none none token).access_token ≡ some a)
        × (sent.authorization ≡ some (codes "Bearer " ++ a))
        × ((jwt_callback env none none token).access_token_expires ≡ some n)
        × (env.now < n)
  back_proxy-jwt_callback env token session req sent private h =
      elim (back_proxy-authorization _ req sent h) [
        | inl (public, e) ↦ absurd cc
        | inr (a, t, live, e) ↦
            elim (session_callback-IsSynced env (jwt_callback env none none token) session) [
              | inl (unusable, expired) ↦ absurd (
                  not_live live (
                    has_expired-IsExpired
                      (session_callback env (jwt_callback env none none token) session) expired))
              | inr (usable, synced) ↦ elim (jwt_callback-IsLive env none none token) [
                | inl unusable ↦ absurd cc
                | inr (n, expires, future) ↦
                    (a, n, sym synced.access_token ∙ truthy-some _ a t, e, expires, future)
              ]
            ]
      ]
