-- ===== src/Accounts/Attempts.antt =====
-- Login challenges of mfa.py: they serve once, and they take five wrong codes at most.
use multi_channel_ai_gateway.Base.{
  ◌+◌, ◌≤◌, ◌<◌, String, Bool, true, false, ◌||◌, Option, none, some, List, [], ◌∷◌, ◌≡◌, refl, sym,
  ◌∙◌, ap, ◌⊎◌, inl, inr, ◌==◌, leb, ltb, arith, Bool-cases, length, ==-eq, ==-refl, find,
  find_sound, find-delete_self, find-update, Option-cases,
}
use multi_channel_ai_gateway.Base.Text.{text_length}
use multi_channel_ai_gateway.Models.{Time}
use multi_channel_ai_gateway.Accounts.Rows.{MfaChallenge, MfaCredential, AuthDb, Platform}
use multi_channel_ai_gateway.Accounts.Mfa.{
  Outcome, returned, value_error, type_failure, MfaSubject, has_token, live_challenge,
  delete_challenge, credential_for, save_credential, challenge_max_attempts,
}
use multi_channel_ai_gateway.Accounts.Factor.{
  consume_challenge, checked_factor, count_failure, subject_of,
}

Outcome-cases :
    (o : Outcome (Option MfaCredential))
    → ((c : MfaCredential) × (o ≡ returned (some c)))
      ⊎ ((o ≡ returned none) ⊎ ((o ≡ value_error) ⊎ (o ≡ type_failure)))
Outcome-cases (returned (some c)) = inl (c, refl)
Outcome-cases (returned none) = inr (inl refl)
Outcome-cases value_error = inr (inr (inl refl))
Outcome-cases type_failure = inr (inr (inr refl))

module _ (platform : Platform) where
  abbrev pub challenge_for : AuthDb → String → Option MfaChallenge
  challenge_for db token = find (has_token (platform.sha256 token)) db.challenges

  gone :
      (db : AuthDb) (token : String) (row : MfaChallenge)
      → challenge_for db token ≡ some row
      → challenge_for (delete_challenge row db) token ≡ none
  gone db token row h =
      let same =
        ==-eq row.token_hash _ (find_sound (has_token (platform.sha256 token)) db.challenges h) in
      rw same (find-delete_self (has_token (platform.sha256 token)) db.challenges)

  absent_refused :
      (now : Time) (db : AuthDb) (token entry : String)
      → challenge_for db token ≡ none
      → consume_challenge platform now db token entry ≡ (db, returned none)
  unfolding consume_challenge live_challenge
  absent_refused now db token entry h =
      elim (Bool-cases ((token == "") || ltb 200 (text_length token))) [
        | inl f ↦ rw f
        | inr f ↦ rw (f, h)
      ]

  malformed_refused :
      (now : Time) (db : AuthDb) (token entry : String)
      → ((token == "") || ltb 200 (text_length token)) ≡ true
      → consume_challenge platform now db token entry ≡ (db, returned none)
  unfolding consume_challenge live_challenge
  malformed_refused now db token entry h = rw h

  counted :
      (db : AuthDb) (token : String) (row : MfaChallenge)
      → challenge_for db token ≡ some row
      → (challenge_for (count_failure row db) token ≡ none)
        ⊎ ((row' : MfaChallenge) × (challenge_for (count_failure row db) token ≡ some row')
            × (row'.attempts ≡ row.attempts + 1)
            × (row'.attempts < challenge_max_attempts))
  unfolding count_failure
  counted db token row there =
      let hash = platform.sha256 token in
      let same = ==-eq row.token_hash hash (find_sound (has_token hash) db.challenges there) in
      let row' = record row { attempts = row.attempts + 1 } in
      elim (Bool-cases (leb challenge_max_attempts (row.attempts + 1))) [
        | inl full ↦ inl (rw full (gone db token row there))
        | inr more ↦ inr (
          row',
          rw
              (
                more,
                find-update (has_token row.token_hash) (has_token hash) (λ _. row') db.challenges
                    (λ a k. ap (λ x. x == hash) (sym (==-eq a.token_hash row.token_hash k))),
                there,
              )
              (rw ==-refl),
          refl,
          ground (arith, more),
        )
      ]

  -- Every guess of the list fails, one after the other from `db`, and they end in `db'`.
  abbrev pub AllFail : AuthDb → String → List (Time × String) → AuthDb → Type 0
  AllFail db token [] db' = db ≡ db'
  AllFail db token ((now, entry) ∷ rest) db' =
      (mid : AuthDb) × (consume_challenge platform now db token entry ≡ (mid, returned none))
      × AllFail mid token rest db'

  stays_absent :
      (guesses : List (Time × String)) (db db' : AuthDb) (token : String)
      → challenge_for db token ≡ none
      → AllFail db token guesses db'
      → challenge_for db' token ≡ none
  stays_absent [] db db' token h e = rw (← e) h
  stays_absent ((now, entry) ∷ rest) db db' token h (mid, one, fails) =
      let same : db ≡ mid =
        ap (λ (r : AuthDb × Outcome (Option MfaSubject)). r.0)
          (sym (absent_refused now db token entry h) ∙ one) in
      stays_absent rest mid db' token (rw (← same) h) fails

  abbrev lapsed : Time → MfaChallenge → Bool
  lapsed now row = leb row.expires_at now || leb challenge_max_attempts row.attempts

  -- The ways in which a call can end, where the challenge is there.
  ends :
      (now : Time) (db : AuthDb) (token entry : String) (row : MfaChallenge)
      → ((token == "") || ltb 200 (text_length token)) ≡ false
      → challenge_for db token ≡ some row
      → (consume_challenge platform now db token entry ≡ (delete_challenge row db, returned none))
        ⊎ (((c : MfaCredential) × (consume_challenge platform now db token entry
                ≡ (delete_challenge row (save_credential c db), returned (some (subject_of row)))))
            ⊎ (((lapsed now row ≡ false)
                  × (consume_challenge platform now db token entry
                      ≡ (count_failure row db, returned none)))
                ⊎ ((consume_challenge platform now db token entry ≡ (db, value_error))
                    ⊎ (consume_challenge platform now db token entry ≡ (db, type_failure)))))
  unfolding consume_challenge live_challenge
  ends now db token entry row form there = elim (Bool-cases (lapsed now row)) [
    | inl l ↦ inl (rw (form, there, l))
    | inr l ↦ elim (Option-cases (credential_for db row.subject_type row.subject_id)) [
      | inl c ↦ inl (rw (form, there, l) (rw c))
      | inr (cred, c) ↦ elim (Bool-cases cred.enabled) [
        | inr e ↦ inl (rw (form, there, l) (rw c (rw e)))
        | inl e ↦ elim (Outcome-cases (checked_factor platform now entry cred)) [
          | inl (cred', o) ↦ inr (inl (cred', rw (form, there, l) (rw c (rw (o, e)))))
          | inr (inl o) ↦ inr (inr (inl (l, rw (form, there, l) (rw c (rw (o, e))))))
          | inr (inr (inl o)) ↦ inr (inr (inr (inl (rw (form, there, l) (rw c (rw (o, e)))))))
          | inr (inr (inr o)) ↦ inr (inr (inr (inr (rw (form, there, l) (rw c (rw (o, e)))))))
        ]
      ]
    ]
  ]

  -- A challenge that let someone in is gone: its token is refused from then on, with any code.
  pub consume_challenge-single_use :
      (now later : Time) (db db' : AuthDb) (token entry again : String) (subject : MfaSubject)
      → consume_challenge platform now db token entry ≡ (db', returned (some subject))
      → consume_challenge platform later db' token again ≡ (db', returned none)
  consume_challenge-single_use now later db db' token entry again subject h =
      elim (Option-cases (challenge_for db token)) [
        | inl f ↦ absurd (cc (absent_refused now db token entry f))
        | inr (row, f) ↦ elim (Bool-cases ((token == "") || ltb 200 (text_length token))) [
          | inl bad ↦ absurd (cc (malformed_refused now db token entry bad))
          | inr form ↦ elim (ends now db token entry row form f) [
            | inl e ↦ absurd (cc e)
            | inr (inl (c, e)) ↦
                let same : delete_challenge row (save_credential c db) ≡ db' =
                  ap (λ (r : AuthDb × Outcome (Option MfaSubject)). r.0) (sym e ∙ h) in
                absent_refused later db' token again
                  (rw (← same) (gone (save_credential c db) token row f))
            | inr (inr (inl (_, e))) ↦ absurd (cc e)
            | inr (inr (inr (inl e))) ↦ absurd (cc e)
            | inr (inr (inr (inr e))) ↦ absurd (cc e)
          ]
        ]
      ]

  -- One failed guess, where the token has the form that `create_challenge` gives it.
  guess_fails :
      (now : Time) (db db' : AuthDb) (token entry : String) (row : MfaChallenge)
      → ((token == "") || ltb 200 (text_length token)) ≡ false
      → challenge_for db token ≡ some row
      → consume_challenge platform now db token entry ≡ (db', returned none)
      → (challenge_for db' token ≡ none)
        ⊎ ((row' : MfaChallenge) × (challenge_for db' token ≡ some row')
            × (row'.attempts ≡ row.attempts + 1)
            × (row'.attempts < challenge_max_attempts))
  guess_fails now db db' token entry row form there h =
      elim (ends now db token entry row form there) [
        | inl e ↦
            let same : delete_challenge row db ≡ db' =
              ap (λ (r : AuthDb × Outcome (Option MfaSubject)). r.0) (sym e ∙ h) in
            inl (rw (← same) (gone db token row there))
        | inr (inl (c, e)) ↦ absurd (cc e)
        | inr (inr (inl (l, e))) ↦
            let same : count_failure row db ≡ db' =
              ap (λ (r : AuthDb × Outcome (Option MfaSubject)). r.0) (sym e ∙ h) in
            rw (← same) (counted db token row there)
        | inr (inr (inr (inl e))) ↦ absurd (cc e)
        | inr (inr (inr (inr e))) ↦ absurd (cc e)
      ]

  fails_exhaust :
      (guesses : List (Time × String)) (db db' : AuthDb) (token : String) (row : MfaChallenge)
      → ((token == "") || ltb 200 (text_length token)) ≡ false
      → challenge_for db token ≡ some row
      → row.attempts < challenge_max_attempts
      → AllFail db token guesses db'
      → challenge_max_attempts ≤ row.attempts + length guesses
      → challenge_for db' token ≡ none
  fails_exhaust [] db db' token row form there room fails many = absurd (omega arith)
  fails_exhaust ((now, entry) ∷ rest) db db' token row form there room (mid, one, fails) many =
      elim (guess_fails now db mid token entry row form there one) [
        | inl none_left ↦ stays_absent rest mid db' token none_left fails
        | inr (row', there', count, room') ↦
            fails_exhaust rest mid db' token row' form there' room' fails (omega arith)
      ]

  -- Five failed guesses, at whatever times and with whatever codes, end a challenge that had no
  -- failed guess before: whatever is sent with its token afterwards is refused and changes nothing.
  -- The token must have the form that the code gives it (not empty, at most 200 characters).
  pub consume_challenge-five_guesses :
      (guesses : List (Time × String)) (later : Time) (db db' : AuthDb) (token entry : String)
      (row : MfaChallenge)
      → ((token == "") || ltb 200 (text_length token)) ≡ false
      → challenge_for db token ≡ some row
      → row.attempts ≡ 0
      → AllFail db token guesses db'
      → 5 ≤ length guesses
      → consume_challenge platform later db' token entry ≡ (db', returned none)
  consume_challenge-five_guesses guesses later db db' token entry row form there start fails many =
      absent_refused later db' token entry
        (fails_exhaust guesses db db' token row form there (omega arith) fails (omega arith))
