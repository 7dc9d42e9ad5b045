-- ===== src/Accounts/Activation.antt =====
-- Activation links of account_activation.py.
use multi_channel_ai_gateway.Base.{
  ℕ, String, Bool, true, ◌||◌, Option, none, some, ◌≡◌, refl, sym, ap, inl, inr, ◌==◌, leb, ltb,
  find, insert_row, Bool-cases, Option-cases, ==-eq, find_sound, find-delete_self,
}
use multi_channel_ai_gateway.Base.Text.{text_length}
use multi_channel_ai_gateway.Models.{Time}
use multi_channel_ai_gateway.Accounts.Rows.{
  User, Account, AuthDb, Platform, AccountActivationToken, user_has_id,
}
use multi_channel_ai_gateway.Accounts.Tokens.{
  invalid, Result, ok, err, activation_has, delete_activation, hash_password, activate_account,
}

ok-account :
    {a b : AuthDb} {x y : Account} → ◌≡◌ {A = AuthDb × Result Account} (a, ok x) (b, ok y) → y ≡ x
ok-account h = cc h

abbrev pub has_username : String → Account → Bool
has_username name a = a.username == name

abbrev pub owned_by_user : String → Account → Bool
owned_by_user user a = a.user_id == user

module _ (platform : Platform) where
  abbrev activation_for : AuthDb → String → Option AccountActivationToken
  activation_for db token = find (activation_has (platform.sha256 token)) db.activation_tokens

  abbrev created : String → String → String → User → Account
  created id username password user = record {
    id = id;
    user_id = user.id;
    username = username;
    password_hash = platform.scrypt_hash password;
    role = "user";
    is_active = true;
  }

  activate_account-inv :
      (now : Time) (id : String) (db db' : AuthDb) (token username password : String) (n : ℕ)
      (account : Account)
      → activate_account platform now id db token username password n ≡ (db', ok account)
      → (row : AccountActivationToken) × (user : User) × (activation_for db token ≡ some row)
        × (find (owned_by_user user.id) db.accounts ≡ none)
        × (find (has_username username) db.accounts ≡ none)
        × (db'
            ≡ delete_activation row (record db {
              accounts = insert_row (created id username password user) db.accounts;
            }))
        × (account ≡ created id username password user)
  unfolding activate_account hash_password
  activate_account-inv now id db db' token username password n account h =
      elim (Bool-cases ((token == "") || ltb 200 (text_length token))) [
        | inl b ↦ absurd (cc (rw b at h))
        | inr b ↦ elim (Option-cases (activation_for db token)) [
          | inl f ↦ absurd (cc (rw (b, f) at h))
          | inr (row, f) ↦ elim (Bool-cases (leb row.expires_at now)) [
            | inl x ↦ absurd (cc (rw x at (rw (b, f) at h)))
            | inr x ↦ elim (Option-cases (find (user_has_id row.user_id) db.users)) [
              | inl u ↦ absurd (cc (rw u at (rw x at (rw (b, f) at h))))
              | inr (user, u) ↦ elim (Bool-cases user.is_blocked) [
                | inl k ↦ absurd (cc (rw k at (rw u at (rw x at (rw (b, f) at h)))))
                | inr k ↦ elim (Option-cases (find (owned_by_user user.id) db.accounts)) [
                  | inr (a, e) ↦
                      absurd (cc (rw e at (rw k at (rw u at (rw x at (rw (b, f) at h))))))
                  | inl e ↦ elim (Bool-cases (ltb (text_length password) n)) [
                    | inl w ↦
                        absurd
                          (cc (rw w at (rw e at (rw k at (rw u at (rw x at (rw (b, f) at h)))))))
                    | inr w ↦
                        let read =
                          rw w at (rw e at (rw k at (rw u at (rw x at (rw (b, f) at h))))) in
                        elim (Option-cases (find (has_username username) db.accounts)) [
                          | inr (a, g) ↦ absurd (cc (rw g at read))
                          | inl g ↦
                              let made = rw g at read in
                              (
                                row,
                                user,
                                f,
                                e,
                                g,
                                sym (ap (λ (r : AuthDb × Result Account). r.0) made),
                                ok-account made,
                              )
                        ]
                  ]
                ]
              ]
            ]
          ]
        ]
      ]

  activation_absent :
      (now : Time) (id : String) (db : AuthDb) (token username password : String) (n : ℕ)
      → activation_for db token ≡ none
      → activate_account platform now id db token username password n ≡ (db, err invalid)
  unfolding activate_account
  activation_absent now id db token username password n h =
      elim (Bool-cases ((token == "") || ltb 200 (text_length token))) [
        | inl b ↦ rw b refl
        | inr b ↦ rw (b, h) refl
      ]

  -- An activation link that made an account is spent: it is refused ever after, whatever is sent
  -- with it. The account is the first of its user and the first with its name, and the only row
  -- added.
  pub activate_account-once :
      (now later : Time) (id id' : String) (db db' : AuthDb)
      (token username password again other : String) (n m : ℕ) (account : Account)
      → activate_account platform now id db token username password n ≡ (db', ok account)
      → (activate_account platform later id' db' token again other m ≡ (db', err invalid))
        × (find (owned_by_user account.user_id) db.accounts ≡ none)
        × (find (has_username username) db.accounts ≡ none)
        × (db'.accounts ≡ insert_row account db.accounts)
        × (account.username ≡ username)
        × (account.password_hash ≡ platform.scrypt_hash password)
  activate_account-once now later id id' db db' token username password again other n m account h =
      let (row, user, there, first, unused, after, made) =
        activate_account-inv now id db db' token username password n account h in
      let hash = platform.sha256 token in
      let known =
        ==-eq row.token_hash hash (find_sound (activation_has hash) db.activation_tokens there) in
      rw (after, made)
        (
          activation_absent later id' _ token again other m
              (rw known (find-delete_self (activation_has hash) db.activation_tokens)),
          first,
          unused,
          refl,
          refl,
          refl,
        )
