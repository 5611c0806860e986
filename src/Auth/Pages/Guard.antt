-- ===== src/Auth/Pages/Guard.antt =====
-- What the page guard lets through.
use mawster.Base.{
  ℕ, Text, [], ◌∷◌, Option, none, some, Bool, true, false, not, ◌&&◌, ◌||◌, ◌≡◌, refl, ◌⊎◌, inl,
  inr, ◌↔◌, text_eq, text_beq, starts_with, codes, Bool-cases, arith,
}
use mawster.Auth.{Token, is_usable}
use mawster.Auth.Pages.{
  next, redirect, proxy, guarded, is_path_matching, is_signed_in, is_login_page, is_staff,
  is_public, is_admin_path,
}

-- Who may see a page: a visitor the public pages; a user the public pages but those of the login,
-- and every other page but those of the administration, which only the staff may see.
abbrev pub may_see : Option Token → Text → Bool
may_see none path = is_public path
may_see (some token) path =
    (is_public path || is_usable token)
    && not (is_usable token && is_login_page path)
    && (is_public path || not (is_admin_path path) || is_staff token)

-- The guard lets exactly those requests through that may be seen.
pub proxy-next :
    (token : Option Token) (path : Text) → (proxy token path ≡ next) ↔ (may_see token path ≡ true)
unfolding proxy guarded
proxy-next none path = ground arith
proxy-next (some token) path = ground arith

-- Both pages that the guard sends to are let through.
proxy-home : (token : Option Token) → proxy token (codes "/") ≡ next
unfolding proxy is_path_matching starts_with text_beq
proxy-home none = refl
proxy-home (some token) = elim (Bool-cases (is_usable token)) [
  | inl usable ↦ rw usable refl
  | inr unusable ↦ rw unusable refl
]

proxy-login :
    (token : Option Token) → is_signed_in token ≡ false → proxy token (codes "/login") ≡ next
unfolding proxy is_path_matching starts_with text_beq
proxy-login none h = refl
proxy-login (some token) h = rw h refl

-- Where the guard sends to.
proxy_target :
    (token : Option Token) (path url : Text) (callback_url : Option Text)
    → proxy token path ≡ redirect url callback_url
    → (url ≡ codes "/") ⊎ ((url ≡ codes "/login") × (is_signed_in token ≡ false))
unfolding proxy guarded
proxy_target none path url callback_url h = elim (Bool-cases (is_public path)) [
  | inl public ↦ absurd (ground arith)
  | inr private ↦ inr (ground arith, refl)
]
proxy_target (some token) path url callback_url h = elim (Bool-cases (is_usable token)) [
  | inl usable ↦ inl (ground arith)
  | inr unusable ↦ inr (ground arith, unusable)
]

-- A redirect is followed by no further redirect: the page it names is let through.
pub proxy-redirect :
    (token : Option Token) (path url : Text) (callback_url : Option Text)
    → proxy token path ≡ redirect url callback_url
    → proxy token url ≡ next
proxy-redirect token path url callback_url h = elim (proxy_target token path url callback_url h) [
  | inl home ↦ rw home (proxy-home token)
  | inr (login, signed_out) ↦ rw login (proxy-login token signed_out)
]

admin_path_starts :
    (path : Text) → is_admin_path path ≡ true → (rest : Text) × (path ≡ b'/' ∷ b'a' ∷ b'd' ∷ rest)
unfolding is_path_matching starts_with text_beq
admin_path_starts [] h = absurd (ground arith)
admin_path_starts (c ∷ []) h = absurd (ground arith)
admin_path_starts (c ∷ d ∷ []) h = absurd (ground arith)
admin_path_starts (c ∷ d ∷ e ∷ rest) h = (rest, ap3 (ground arith) (ground arith) (ground arith))
  where
    ap3 : {c c' d d' e e' : ℕ} → c ≡ c' → d ≡ d' → e ≡ e' → c ∷ d ∷ e ∷ rest ≡ c' ∷ d' ∷ e' ∷ rest
    ap3 p q r = cc

admin_path-not-is_public : (path : Text) → is_admin_path path ≡ true → is_public path ≡ false
unfolding is_path_matching starts_with text_beq
admin_path-not-is_public path h = rw (admin_path_starts path h).1 refl

-- Nobody gets a page of the administration but a user of the staff who is signed in.
proxy-admin :
    (token : Option Token) (path : Text)
    → is_admin_path path ≡ true
    → proxy token path ≡ next
    → (t : Token) × (token ≡ some t) × (is_usable t ≡ true) × (is_staff t ≡ true)
unfolding proxy guarded
proxy-admin none path admin h = absurd (ground (arith, admin_path-not-is_public path admin))
proxy-admin (some t) path admin h = (
  t,
  refl,
  ground (arith, admin_path-not-is_public path admin),
  ground (arith, admin_path-not-is_public path admin),
)
