-- ===== src/Accounts/Replay.antt =====
-- Second factors of totp.py and mfa.py: what is accepted is new, and cannot be used again.
use multi_channel_ai_gateway.Base.{
  ℕ, ◌+◌, ◌-◌, ◌≤◌, ◌<◌, String, true, ◌||◌, not, none, some, Option, List, [], ◌∷◌, ◌≡◌, refl, ◌⊎◌,
  inl, inr, ◌==◌, nat_eq, arith, Bool-cases, ==-eq, All, count_where, if◌then◌else◌, false,
}
use multi_channel_ai_gateway.Base.Text.{strip, text_length, is_ascii}
use multi_channel_ai_gateway.Models.{Time}
use multi_channel_ai_gateway.Accounts.Rows.{MfaCredential, Platform}
use multi_channel_ai_gateway.Accounts.Totp.{
  Verdict, accepted, rejected, type_error, verify_totp, totp_code, try_candidates, counter_at,
  recovery_code_hash, is_used,
}
use multi_channel_ai_gateway.Accounts.Mfa.{returned, mem, remove_first, second_factor}

Verdict-cases : (v : Verdict) → ((c : ℕ) × (v ≡ accepted c)) ⊎ ((v ≡ rejected) ⊎ (v ≡ type_error))
Verdict-cases (accepted c) = inl (c, refl)
Verdict-cases rejected = inr (inl refl)
Verdict-cases type_error = inr (inr refl)

-- How often a text stands in a list.
abbrev pub count_text : String → List String → ℕ
count_text k = count_where (λ x. x == k)

count-remove_first :
    (k x : String) (xs : List String)
    → mem x xs ≡ true
    → count_text k (remove_first x xs) + (if x == k then 1 else 0) ≡ count_text k xs
unfolding remove_first count_where
count-remove_first k x [] e = cc
count-remove_first k x (y ∷ ys) e = elim (Bool-cases (y == x)) [
  | inl t ↦ let same : y ≡ x = ==-eq y x t in rw (t, same) (ground arith)
  | inr f ↦ rw f (ground (arith, f, count-remove_first k x ys (rw f at e)))
]

-- Later than the last step that was used, where there was one.
abbrev pub Later : Option ℕ → ℕ → Type 0
Later last c = (l : ℕ) → last ≡ some l → l < c

unused-Later : (last : Option ℕ) (c : ℕ) → is_used last c ≡ false → Later last c
unused-Later none c u = λ l e. absurd (cc e)
unused-Later (some m) c u = λ l e. let same : m ≡ l = cc e in rw (← same) (ground (arith, u))

module _ (platform : Platform) where
  try_candidates-accepted :
      (P : ℕ → Type 0) (secret guess : String) (last : Option ℕ) (c : ℕ) (cs : List ℕ)
      → All P cs
      → try_candidates platform secret guess last cs ≡ accepted c
      → (is_used last c ≡ false) × P c × (totp_code platform secret c ≡ guess)
  unfolding try_candidates
  try_candidates-accepted P secret guess last c [] all h = cc
  try_candidates-accepted P secret guess last c (x ∷ xs) (p, all) h =
      elim (Bool-cases (is_used last x)) [
        | inl u ↦ try_candidates-accepted P secret guess last c xs all (rw u at h)
        | inr u ↦ elim (Bool-cases (is_ascii guess)) [
          | inr a ↦ absurd (cc (rw (u, a) at h))
          | inl a ↦ elim (Bool-cases (totp_code platform secret x == guess)) [
            | inr g ↦ try_candidates-accepted P secret guess last c xs all (rw (u, a, g) at h)
            | inl g ↦
                let same : x ≡ c = cc (rw (u, a, g) at h) in rw (← same) (u, p, ==-eq _ guess g)
          ]
        ]
      ]

  -- An accepted code is the code of one of the three steps around the present one, and that step
  -- is later than the last step that was used before, where there was one.
  pub verify_totp-accepted :
      (now : Time) (secret guess : String) (last : Option ℕ) (c : ℕ)
      → verify_totp platform now secret guess last ≡ accepted c
      → Later last c
        × (counter_at now ≤ c + 1)
        × (c ≤ counter_at now + 1)
        × (totp_code platform secret c ≡ guess)
  unfolding verify_totp
  verify_totp-accepted now secret guess last c h =
      let current = counter_at now in
      let near = λ (x : ℕ). (current ≤ x + 1) × (x ≤ current + 1) in
      elim (Bool-cases (not (nat_eq (text_length guess) 6) || not (platform.is_digit guess))) [
        | inl bad ↦ absurd (cc (rw bad at h))
        | inr fine ↦
            let (fresh, (lower, upper), same) =
              try_candidates-accepted near secret guess last c
                ((current - 1) ∷ current ∷ (current + 1) ∷ [])
                (
                  (omega arith, omega arith),
                  ((omega arith, omega arith), ((omega arith, omega arith), tt)),
                )
                (rw fine at h) in
            (unused-Later last c fresh, lower, upper, same)
      ]

  -- An accepted second factor is used up, and nothing else of the credential changes. Either it
  -- was the code of a step around the present one that is later than the last used one, where there
  -- was one, and the credential remembers exactly that step, or it was a recovery code in the list,
  -- and just one occurrence of its digest is gone, with all others as they were.
  pub second_factor-consumes :
      (now : Time) (entry : String) (row row' : MfaCredential)
      → second_factor platform now entry row ≡ returned (some row')
      → let digest = recovery_code_hash platform entry in
        ((c : ℕ) × (row' ≡ record row { last_totp_counter = some c })
          × Later row.last_totp_counter c
          × (counter_at now ≤ c + 1)
          × (c ≤ counter_at now + 1)
          × (totp_code platform (platform.decrypt_secret row.secret_encrypted) c ≡ strip entry))
        ⊎ ((left : List String) × (row' ≡ record row { recovery_code_hashes = left })
            × (mem digest row.recovery_code_hashes ≡ true)
            × ((k : String)
                → count_text k left + (if digest == k then 1 else 0)
                  ≡ count_text k row.recovery_code_hashes))
  unfolding second_factor
  second_factor-consumes now entry row row' h =
      let secret = platform.decrypt_secret row.secret_encrypted in
      elim (Verdict-cases (verify_totp platform now secret (strip entry) row.last_totp_counter)) [
        | inl (c, e) ↦
            let done : row' ≡ record row { last_totp_counter = some c } =
              ground (arith, rw e at h) in
            let (fresh, lower, upper, same) =
              verify_totp-accepted now secret (strip entry) row.last_totp_counter c e in
            inl (c, done, fresh, lower, upper, same)
        | inr (inr e) ↦ absurd (cc (rw e at h))
        | inr (inl e) ↦
            let digest = recovery_code_hash platform entry in
            elim (Bool-cases (mem digest row.recovery_code_hashes)) [
              | inr m ↦ absurd (cc (rw (e, m) at h))
              | inl m ↦
                  let done : row' ≡ record row {
                    recovery_code_hashes = remove_first digest row.recovery_code_hashes;
                  } =
                    ground (arith, rw (e, m) at h) in
                  inr (
                    remove_first digest row.recovery_code_hashes,
                    done,
                    m,
                    λ k. count-remove_first k digest row.recovery_code_hashes m,
                  )
            ]
      ]
