-- ===== src/Accounts/Sessions.antt =====
-- Sessions of auth.py: what a token gives access to, and for how long.
use Prim.Native.String.{◌++◌ as cat}
use text.Mathlib.TextLemmas.{cons-append, nil-append}
use multi_channel_ai_gateway.Base.{
  ℕ, ◌+◌, ◌*◌, ◌<◌, String, true, false, ◌&&◌, Option, none, some, [], ◌∷◌, ◌≡◌, refl, ap, ◌⊎◌, inl,
  inr, ◌==◌, ltb, is_some, find, delete_where, arith, Bool-cases, Option-cases, ==-eq, ==-refl,
  find_sound, find-append_none, lt→ltb, count-delete_self, find-and_of_count-zero,
  count_of_find-none,
}
use multi_channel_ai_gateway.Base.Text.{strip, starts_with, drop_chars}
use multi_channel_ai_gateway.Models.{Time}
use multi_channel_ai_gateway.Accounts.Rows.{
  User, Account, AuthSession, AuthDb, Platform, user_has_id, account_has_id,
}
use multi_channel_ai_gateway.Accounts.Mfa.{
  Outcome, returned, value_error, type_failure, enabled_credential,
}
use multi_channel_ai_gateway.Accounts.Auth.{
  Principal, Proved, session_has, create_session, authenticate_password, login, bearer_token,
  principal_from_bearer, revoke_session, normalize_username, session_row, session_account,
  live_session, admitted_user, active_username,
}

abbrev pub header_of : String → Option String
header_of token = some (cat "Bearer " token)

bearer_token-header :
    (token : String) → strip token ≡ token → bearer_token (header_of token) ≡ some token
unfolding bearer_token starts_with drop_chars
bearer_token-header token h = rw cons-append (
    rw cons-append (
      rw cons-append (
        rw cons-append
          (rw cons-append (rw cons-append (rw cons-append (rw nil-append (ap (λ s. some s) h))))))))

Outcome-split {ℓ} :
    {A : Type ℓ} (o : Outcome A)
    → ((a : A) × (o ≡ returned a)) ⊎ ((o ≡ value_error) ⊎ (o ≡ type_failure))
Outcome-split (returned a) = inl (a, refl)
Outcome-split value_error = inr (inl refl)
Outcome-split type_failure = inr (inr refl)

returned-inj : {x y : Proved} → returned (some x) ≡ returned (some y) → x ≡ y
returned-inj h = cc

module _ (platform : Platform) where
  -- The principal is that of the session: the administrator, where the session is of no account,
  -- or the active account in the table whose id it has, with a user that is not blocked.
  abbrev pub SpeaksFor : AuthDb → AuthSession → Principal → Type 0
  SpeaksFor db row p =
      (p.role ≡ row.role)
      × (p.user_id ≡ row.user_id)
      × (((row.account_id ≡ none) × (p.username ≡ platform.admin_username))
          ⊎ ((id : String) × (account : Account) × (user : User) × (row.account_id ≡ some id)
              × (find (account_has_id id) db.accounts ≡ some account)
              × (account.is_active ≡ true)
              × (find (user_has_id account.user_id) db.users ≡ some user)
              × (user.is_blocked ≡ false)
              × (p.username ≡ account.username)))

  session_row_sound :
      (db : AuthDb) (row : AuthSession) (p : Principal)
      → session_row platform db (some row) ≡ some p
      → SpeaksFor db row p
  unfolding session_row
  session_row_sound db row p h = elim (Option-cases row.account_id) [
    | inl n ↦
        let read = rw n at h in
        (ground (arith, read), ground (arith, read), inl (n, ground (arith, read)))
    | inr (id, n) ↦ elim (Option-cases (find (account_has_id id) db.accounts)) [
      | inl f ↦ absurd (cc (rw (n, f) at h))
      | inr (a, f) ↦ elim (Option-cases (find (user_has_id a.user_id) db.users)) [
        | inl u ↦ absurd (ground (arith, rw (n, f) at h, u))
        | inr (user, u) ↦
            let read = rw (n, f) at h in
            (
              ground (arith, read, u),
              ground (arith, read, u),
              inr (
                id,
                a,
                user,
                n,
                f,
                ground (arith, read, u),
                u,
                ground (arith, read, u),
                ground (arith, read, u),
              ),
            )
      ]
    ]
  ]

  -- Whoever a header is accepted for has a session in the table of that token which has not expired,
  -- and has its role and user. A session of no account is the administrator's; with a session of an
  -- account, the account is in the table and active now, gives the name, and its user exists and is
  -- not blocked.
  pub principal_from_bearer_sound :
      (now : Time) (db : AuthDb) (header : Option String) (p : Principal)
      → principal_from_bearer platform now db header ≡ some p
      → (token : String) × (row : AuthSession) × (bearer_token header ≡ some token)
        × (find (live_session now (platform.sha256 token)) db.sessions ≡ some row)
        × (row.token_hash ≡ platform.sha256 token)
        × (now < row.expires_at)
        × SpeaksFor db row p
  unfolding principal_from_bearer
  principal_from_bearer_sound now db header p h = elim (Option-cases (bearer_token header)) [
    | inl b ↦ absurd (cc (rw b at h))
    | inr (token, b) ↦ elim (Bool-cases (token == "")) [
      | inl e ↦ absurd (cc (rw (b, e) at h))
      | inr e ↦ elim (Option-cases (find (live_session now (platform.sha256 token)) db.sessions)) [
        | inl f ↦ absurd (cc (rw (b, e, f) at h))
        | inr (row, f) ↦
            let live = find_sound (live_session now (platform.sha256 token)) db.sessions f in
            (
              token,
              row,
              b,
              f,
              ==-eq row.token_hash _ (ground (arith, live)),
              ground (arith, live),
              session_row_sound db row p (rw (b, e, f) at h),
            )
      ]
    ]
  ]

  -- What a password proves is of the administrator, or of an active account that is found by its
  -- name and whose user is not blocked.
  authenticate_password-inv :
      (db : AuthDb) (username password : String) (x : Proved)
      → authenticate_password platform db username password ≡ returned (some x)
      → ((x.account_id ≡ none)
          × (x.principal
              ≡ record { role = "admin"; user_id = none; username = platform.admin_username }))
        ⊎ ((name : String) × (a : Account) × (find (active_username name) db.accounts ≡ some a)
            × (admitted_user (find (user_has_id a.user_id) db.users) ≡ true)
            × (x.account_id ≡ some a.id)
            × (x.principal
                ≡ record { role = a.role; user_id = some a.user_id; username = a.username }))
  unfolding authenticate_password
  authenticate_password-inv db username password x h =
      elim (Outcome-split (normalize_username platform username)) [
        | inr (inl e) ↦ absurd (cc (rw e at h))
        | inr (inr e) ↦ absurd (cc (rw e at h))
        | inl (n, e) ↦
            elim (Bool-cases (
              (n == platform.lower (strip platform.admin_username))
              && platform.verify_admin_token password)) [
                | inl t ↦ let same = returned-inj (rw (e, t) at h) in inl (rw (← same), rw (← same))
                | inr t ↦ elim (Option-cases (find (active_username n) db.accounts)) [
                  | inl f ↦ absurd (cc (rw f at (rw (e, t) at h)))
                  | inr (a, f) ↦
                      elim (Bool-cases (
                        platform.verify_password password a.password_hash
                        && admitted_user (find (user_has_id a.user_id) db.users))) [
                          | inr v ↦ absurd (cc (rw (f, v) at (rw (e, t) at h)))
                          | inl v ↦
                              let same = returned-inj (rw (f, v) at (rw (e, t) at h)) in
                              inr (n, a, f, ground (arith, v), rw (← same), rw (← same))
                        ]
                ]
              ]
      ]

  -- The session that a login makes is found by its token.
  created_session :
      (now later : Time) (days : ℕ) (token role : String) (user_id account_id : Option String)
      (db : AuthDb)
      → strip token ≡ token
      → (token == "") ≡ false
      → find (session_has (platform.sha256 token)) db.sessions ≡ none
      → later < now + days * 86400
      → let db' = create_session platform now days token role user_id account_id db in
        principal_from_bearer platform later db' (header_of token)
        ≡ session_row platform db' (
            some (record {
              account_id = account_id;
              user_id = user_id;
              token_hash = platform.sha256 token;
              role = role;
              expires_at = now + days * 86400;
            }))
  unfolding principal_from_bearer create_session find
  created_session now later days token role user_id account_id db trimmed filled fresh early =
      let hash = platform.sha256 token in
      let none_yet =
        find-and_of_count-zero (session_has hash) (λ s. ltb later s.expires_at) db.sessions
          (count_of_find-none (session_has hash) db.sessions fresh) in
      let at_end =
        find-append_none (live_session later hash) db.sessions
          (record {
            account_id = account_id;
            user_id = user_id;
            token_hash = hash;
            role = role;
            expires_at = now + days * 86400;
          }
            ∷ [])
          none_yet in
      rw (bearer_token-header token trimmed)
        (rw filled (rw at_end (rw (==-refl hash, lt→ltb later (now + days * 86400) early))))

  -- Until it expires, the token of a password login stands for the principal that logged in, if
  -- accounts are found under their ids. The token is not empty, has no white space at its ends,
  -- and no session has its digest before.
  pub login-principal :
      (now later : Time) (days : ℕ) (token : String) (db db' : AuthDb) (username password : String)
      (p : Principal)
      → strip token ≡ token
      → (token == "") ≡ false
      → find (session_has (platform.sha256 token)) db.sessions ≡ none
      → ((name : String) (a : Account)
          → find (active_username name) db.accounts ≡ some a
          → find (account_has_id a.id) db.accounts ≡ some a)
      → later < now + days * 86400
      → login platform now days token db username password ≡ (db', returned (some (token, p)))
      → principal_from_bearer platform later db' (header_of token) ≡ some p
  unfolding login principal_from_bearer
  login-principal now later days token db db' username password p trimmed filled fresh found early
        h =
      elim (Outcome-split (authenticate_password platform db username password)) [
        | inr (inl e) ↦ absurd (cc (rw e at h))
        | inr (inr e) ↦ absurd (cc (rw e at h))
        | inl (none, e) ↦ absurd (cc (rw e at h))
        | inl (some x, e) ↦ elim (Bool-cases (is_some (enabled_credential db x.subject))) [
          | inl m ↦ absurd (cc (rw (e, m) at h))
          | inr m ↦
              let made = rw (e, m) at h in
              let state : create_session platform now days token x.principal.role
                    x.principal.user_id x.account_id db
                  ≡ db' =
                ap (λ (r : AuthDb × Outcome (Option (String × Principal))). r.0) made in
              let who : x.principal ≡ p =
                cc (ap (λ (r : AuthDb × Outcome (Option (String × Principal))). r.1) made) in
              rw (← state, ← who)
                (rw (created_session now later days token _ _ _ db trimmed filled fresh early)
                  (elim (authenticate_password-inv db username password x e) [
                    | inl (a, same) ↦ ground (arith, a, same)
                    | inr (name, a, f, user, id, same) ↦
                        let active = find_sound (active_username name) db.accounts f in
                        unfold create_session session_account in
                        rw (id, found name a f, user) (ground (arith, active, same))
                  ]))
        ]
      ]

  no_session :
      (later : Time) (db : AuthDb) (token : String)
      → find
          (live_session later (platform.sha256 token))
          (delete_where (session_has (platform.sha256 token)) db.sessions)
        ≡ none
  no_session later db token =
      find-and_of_count-zero (session_has (platform.sha256 token)) (λ s. ltb later s.expires_at)
        (delete_where (session_has (platform.sha256 token)) db.sessions)
        (count-delete_self (session_has (platform.sha256 token)) db.sessions)

  -- A revoked token is worth nothing, at any time.
  pub revoke_session-ends :
      (later : Time) (db : AuthDb) (header : Option String)
      → principal_from_bearer platform later (revoke_session platform db header) header ≡ none
  unfolding revoke_session principal_from_bearer
  revoke_session-ends later db header = elim (Option-cases (bearer_token header)) [
    | inl b ↦ rw b
    | inr (token, b) ↦ elim (Bool-cases (token == "")) [
      | inl e ↦ rw (b, e)
      | inr e ↦ rw (b, e) (rw (no_session later db token))
    ]
  ]
