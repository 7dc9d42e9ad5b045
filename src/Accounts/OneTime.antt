-- ===== src/Accounts/OneTime.antt =====
-- One-time tokens of password_reset.py and account_activation.py.
use multi_channel_ai_gateway.Base.{
  ℕ, ◌≤◌, ◌<◌, String, Bool, true, ◌||◌, Option, none, some, List, ◌≡◌, refl, sym, ap, inl, inr,
  ◌==◌, leb, ltb, is_just, find, update_where, count_where, arith, Bool-cases, Option-cases, ==-eq,
  ==-refl, find_sound, find-delete_self, count-delete_self, find-update,
}
use multi_channel_ai_gateway.Base.Text.{text_length}
use multi_channel_ai_gateway.Models.{Time}
use multi_channel_ai_gateway.Accounts.Rows.{
  User, Account, AuthSession, AuthDb, Platform, PasswordResetToken, user_has_id, account_has_id,
}
use multi_channel_ai_gateway.Accounts.Tokens.{
  invalid, Result, ok, err, reset_has, hash_password, consume_password_reset, reset_writes,
  reset_allowed,
}

allowed_active :
    (user : Option User) (account : Account)
    → reset_allowed user account ≡ true
    → account.is_active ≡ true
allowed_active none account h = absurd (cc h)
allowed_active (some user) account h = elim (Bool-cases user.is_blocked) [
  | inl b ↦ absurd (cc (rw b at h))
  | inr b ↦ elim (Bool-cases account.is_active) [ inl a ↦ a | inr a ↦ absurd (cc (rw (b, a) at h)) ]
]

ok-account :
    {a b : AuthDb} {x y : Account} → ◌≡◌ {A = AuthDb × Result Account} (a, ok x) (b, ok y) → y ≡ x
ok-account h = cc h

-- The account that `save_account` has written is found.
saved_found :
    (id : String) (new old : Account) (accounts : List Account)
    → new.id ≡ id
    → find (account_has_id id) accounts ≡ some old
    → find (account_has_id id) (update_where (account_has_id id) (λ _. new) accounts) ≡ some new
saved_found id new old accounts e h =
    rw
      (
        find-update (account_has_id id) (account_has_id id) (λ _. new) accounts
            (λ u k. rw (k, e) (==-refl id)),
        h,
      )
      (rw (find_sound (account_has_id id) accounts h) refl)

module _ (platform : Platform) where
  abbrev pub reset_for : AuthDb → String → Option PasswordResetToken
  reset_for db token = find (reset_has (platform.sha256 token)) db.reset_tokens

  -- A reset that succeeds had a token that was there and had not expired, of an active account whose
  -- user is not blocked, and a password that is long enough; it makes the writes of a reset.
  consume_password_reset-inv :
      (now : Time) (db db' : AuthDb) (token password : String) (n : ℕ) (account : Account)
      → consume_password_reset platform now db token password n ≡ (db', ok account)
      → (row : PasswordResetToken) × (old : Account) × (reset_for db token ≡ some row)
        × (now < row.expires_at)
        × (find (account_has_id row.account_id) db.accounts ≡ some old)
        × (old.is_active ≡ true)
        × (n ≤ text_length password)
        × (db' ≡ reset_writes row old (platform.scrypt_hash password) db)
        × (account ≡ record old { password_hash = platform.scrypt_hash password })
  unfolding consume_password_reset hash_password
  consume_password_reset-inv now db db' token password n account h =
      elim (Bool-cases ((token == "") || ltb 200 (text_length token))) [
        | inl b ↦ absurd (cc (rw b at h))
        | inr b ↦ elim (Option-cases (reset_for db token)) [
          | inl f ↦ absurd (cc (rw (b, f) at h))
          | inr (row, f) ↦ elim (Bool-cases (leb row.expires_at now)) [
            | inl x ↦ absurd (cc (rw x at (rw (b, f) at h)))
            | inr x ↦ elim (Option-cases (find (account_has_id row.account_id) db.accounts)) [
              | inl a ↦ absurd (cc (rw a at (rw x at (rw (b, f) at h))))
              | inr (old, a) ↦
                  elim (Bool-cases (reset_allowed (find (user_has_id row.user_id) db.users) old)) [
                    | inr g ↦ absurd (cc (rw g at (rw a at (rw x at (rw (b, f) at h)))))
                    | inl g ↦ elim (Bool-cases (ltb (text_length password) n)) [
                      | inl w ↦ absurd (cc (rw w at (rw g at (rw a at (rw x at (rw (b, f) at h))))))
                      | inr w ↦
                          let made = rw w at (rw g at (rw a at (rw x at (rw (b, f) at h)))) in
                          (
                            row,
                            old,
                            f,
                            ground (arith, x),
                            a,
                            allowed_active _ old g,
                            ground (arith, w),
                            sym (ap (λ (r : AuthDb × Result Account). r.0) made),
                            ok-account made,
                          )
                    ]
                  ]
            ]
          ]
        ]
      ]

  absent_refused :
      (now : Time) (db : AuthDb) (token password : String) (n : ℕ)
      → reset_for db token ≡ none
      → consume_password_reset platform now db token password n ≡ (db, err invalid)
  unfolding consume_password_reset
  absent_refused now db token password n h =
      elim (Bool-cases ((token == "") || ltb 200 (text_length token))) [
        | inl b ↦ rw b
        | inr b ↦ rw (b, h)
      ]

  abbrev pub of_account : String → AuthSession → Bool
  of_account id s = is_just s.account_id id

  -- A reset that succeeds serves once: the token is refused ever after. It gives the account the new
  -- hash and leaves no login of it alive, neither a session nor a pending challenge.
  pub consume_password_reset-once :
      (now later : Time) (db db' : AuthDb) (token password again : String) (n m : ℕ)
      (account : Account)
      → consume_password_reset platform now db token password n ≡ (db', ok account)
      → (consume_password_reset platform later db' token again m ≡ (db', err invalid))
        × (find (account_has_id account.id) db'.accounts ≡ some account)
        × (account.password_hash ≡ platform.scrypt_hash password)
        × (count_where (of_account account.id) db'.sessions ≡ 0)
        × (count_where (λ c. is_just c.account_id account.id) db'.challenges ≡ 0)
  unfolding reset_writes
  consume_password_reset-once now later db db' token password again n m account h =
      let (row, old, there, _, owner, _, _, after, made) =
        consume_password_reset-inv now db db' token password n account h in
      let hash = platform.sha256 token in
      let known = ==-eq row.token_hash hash (find_sound (reset_has hash) db.reset_tokens there) in
      let same =
        ==-eq old.id row.account_id
          (find_sound (account_has_id row.account_id) db.accounts owner) in
      let new = record old { password_hash = platform.scrypt_hash password } in
      rw (after, made)
        (
          absent_refused later _ token again m
              (rw known (find-delete_self (reset_has hash) db.reset_tokens)),
          saved_found old.id new old db.accounts refl (rw same owner),
          refl,
          count-delete_self (of_account old.id) db.sessions,
          count-delete_self (λ c. is_just c.account_id old.id) db.challenges,
        )
