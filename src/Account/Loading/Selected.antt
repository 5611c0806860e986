-- ===== src/Account/Loading/Selected.antt =====
-- The account that is selected once the accounts are loaded.
use mawster.Base.{
  resolved, Text, List, [], ◌∷◌, Option, none, some, true, false, ◌≡◌, refl, sym, ap, is_empty, any,
  find, text_eq, text_beq, beq_refl, Bool-cases, Option-cases, inl, inr, ◌⊎◌, arith, In, In-find,
  All, In-All,
}
use mawster.Account.{GameAccount, RosterPage, active_tab, accounts_tab}
use mawster.Account.Loading.{
  is_account, is_listed, default_id, select_account, fetch_accounts_answered,
}

abbrev IsNamed : GameAccount → Type 0
IsNamed a = is_empty a.id ≡ false

any-In :
    (a : GameAccount) (accounts : List GameAccount)
    → In a accounts
    → any (is_account a.id) accounts ≡ true
any-In a [] m = absurd m
any-In a (b ∷ accounts) (inl e) = rw (sym e, beq_refl a.id) refl
any-In a (b ∷ accounts) (inr m) = ground (arith, any-In a accounts m)

is_listed-In :
    (a : GameAccount) (accounts : List GameAccount)
    → All IsNamed accounts
    → In a accounts
    → is_listed accounts (some a.id) ≡ true
unfolding is_listed
is_listed-In a accounts named m = rw (In-All IsNamed a accounts named m, any-In a accounts m) refl

is_listed-default_id :
    (a : GameAccount) (accounts : List GameAccount)
    → All IsNamed (a ∷ accounts)
    → is_listed (a ∷ accounts) (default_id (a ∷ accounts)) ≡ true
is_listed-default_id a accounts named =
    elim (Option-cases (find (λ a. a.is_primary) (a ∷ accounts))) [
      | inl missing ↦ rw missing (is_listed-In a (a ∷ accounts) named (inl refl))
      | inr (b, found) ↦
          rw found (
            is_listed-In b (a ∷ accounts) named
              (In-find (λ a. a.is_primary) b (a ∷ accounts) found))
    ]

select_account-listed :
    (a : GameAccount) (accounts : List GameAccount) (current : Option Text)
    → All IsNamed (a ∷ accounts)
    → is_listed (a ∷ accounts) (select_account (a ∷ accounts) current) ≡ true
unfolding select_account
select_account-listed a accounts current named =
    elim (Bool-cases (is_listed (a ∷ accounts) current)) [
      | inl listed ↦ rw listed listed
      | inr unlisted ↦ rw unlisted (is_listed-default_id a accounts named)
    ]

select_account-stays :
    (accounts : List GameAccount) (current : Option Text)
    → is_listed accounts current ≡ true
    → select_account accounts current ≡ current
unfolding select_account
select_account-stays accounts current listed = rw listed refl

select_account-none : (current : Option Text) → select_account [] current ≡ none
unfolding select_account is_listed
select_account-none none = refl
select_account-none (some id) = elim (Bool-cases (is_empty id)) [
  | inl empty ↦ rw empty refl
  | inr full ↦ rw full refl
]

-- Once the accounts are loaded, one of them is selected, or there is none and the page shows the
-- tab of the accounts; and loading the same accounts again changes nothing. Every account has an
-- id.
pub fetch_accounts_answered_selects :
    (accounts : List GameAccount) (s s' : RosterPage)
    → All IsNamed accounts
    → fetch_accounts_answered (resolved accounts) s ≡ s'
    → ((is_listed accounts s'.selected_account_id ≡ true)
        ⊎ (accounts ≡ []) × (s'.selected_account_id ≡ none) × (active_tab s' ≡ accounts_tab))
      × (fetch_accounts_answered (resolved accounts) s' ≡ s')
unfolding fetch_accounts_answered text_beq
fetch_accounts_answered_selects [] s s' named run =
    rw (sym run, select_account-none s.selected_account_id, select_account-none none)
      (inr (refl, refl, refl), refl)
fetch_accounts_answered_selects (a ∷ accounts) s s' named run =
    let listed = select_account-listed a accounts s.selected_account_id named in
    rw (sym run) (
      inl listed,
      ap
          (λ id. record s {
            accounts = a ∷ accounts;
            selected_account_id = id;
            loading_accounts = false;
          })
          (select_account-stays (a ∷ accounts) _ listed),
    )
