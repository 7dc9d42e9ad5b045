-- ===== src/Policy/Best.antt =====
-- The most specific row that `get_command_decision` of policy.py finds among some rows.
use mathlib.Core.List.{Memᴰ}
use multi_channel_ai_gateway.Base.{
  ℕ, ◌≤◌, String, true, false, ◌&&◌, Option, none, some, List, [], ◌∷◌, ◌≡◌, refl, inl, inr, ◌⊎◌,
  ltb, ltb→lt, arith, All, Bool-cases,
}
use multi_channel_ai_gateway.Binding.Tables.{CommandPolicy}
use multi_channel_ai_gateway.Policy.Decision.{applies, score, beats, best_row}

ltb-false : (a b : ℕ) → ltb a b ≡ false → b ≤ a
ltb-false a b h = ground arith

module _ (user_id channel : String) where
  -- The row is at least as specific as every row of the list that applies.
  abbrev Tops : CommandPolicy → List CommandPolicy → Type 0
  Tops best = All (λ row.
      applies user_id channel row ≡ true → score user_id channel row ≤ score user_id channel best)

  abbrev Below : Option CommandPolicy → CommandPolicy → Type 0
  Below none best = Unit
  Below (some b) best = score user_id channel b ≤ score user_id channel best

  beaten :
      (acc : Option CommandPolicy) (row best : CommandPolicy)
      → (applies user_id channel row && beats user_id channel row acc) ≡ true
      → score user_id channel row ≤ score user_id channel best
      → Below acc best
  beaten none row best h le = tt
  beaten (some b) row best h le = elim (Bool-cases (applies user_id channel row)) [
    | inr n ↦ absurd (cc (rw n at h))
    | inl a ↦
        let less = ltb→lt (score user_id channel b) (score user_id channel row) (rw a at h) in
        omega (arith, less, le)
  ]

  skipped :
      (acc : Option CommandPolicy) (row best : CommandPolicy)
      → (applies user_id channel row && beats user_id channel row acc) ≡ false
      → Below acc best
      → applies user_id channel row ≡ true
      → score user_id channel row ≤ score user_id channel best
  skipped none row best h le a = absurd (cc (rw a at h))
  skipped (some b) row best h le a =
      let most = ltb-false (score user_id channel b) (score user_id channel row) (rw a at h) in
      omega (arith, most, le)

  pub best_row-Tops :
      (rows : List CommandPolicy) (acc : Option CommandPolicy) (best : CommandPolicy)
      → best_row user_id channel rows acc ≡ some best
      → Tops best rows × Below acc best
  unfolding best_row
  best_row-Tops [] none best h = (tt, tt)
  best_row-Tops [] (some b) best h = let same : b ≡ best = cc h in (tt, rw same (omega arith))
  best_row-Tops (row ∷ rows) acc best h =
      elim (Bool-cases (applies user_id channel row && beats user_id channel row acc)) [
        | inl y ↦
            let (tops, below) = best_row-Tops rows (some row) best (rw y at h) in
            ((λ _. below, tops), beaten acc row best y below)
        | inr n ↦
            let (tops, below) = best_row-Tops rows acc best (rw n at h) in
            ((skipped acc row best n below, tops), below)
      ]

  pub best_row-applies :
      (rows : List CommandPolicy) (acc : Option CommandPolicy) (best : CommandPolicy)
      → best_row user_id channel rows acc ≡ some best
      → (applies user_id channel best ≡ true) ⊎ (acc ≡ some best)
  unfolding best_row
  best_row-applies [] acc best h = inr h
  best_row-applies (row ∷ rows) acc best h =
      elim (Bool-cases (applies user_id channel row && beats user_id channel row acc)) [
        | inr n ↦ best_row-applies rows acc best (rw n at h)
        | inl y ↦ elim (best_row-applies rows (some row) best (rw y at h)) [
          | inl a ↦ inl a
          | inr e ↦
              let same : row ≡ best = cc e in
              inl (
                rw (← same) (elim (Bool-cases (applies user_id channel row)) [
                  | inl a ↦ a
                  | inr n ↦ absurd (cc (rw n at y))
                ]))
        ]
      ]

  pub best_row-listed :
      (rows : List CommandPolicy) (acc : Option CommandPolicy) (best : CommandPolicy)
      → best_row user_id channel rows acc ≡ some best
      → Memᴰ best rows ⊎ (acc ≡ some best)
  unfolding best_row
  best_row-listed [] acc best h = inr h
  best_row-listed (row ∷ rows) acc best h =
      elim (Bool-cases (applies user_id channel row && beats user_id channel row acc)) [
        | inl y ↦ elim (best_row-listed rows (some row) best (rw y at h)) [
          | inl m ↦ inl (Memᴰ.tail m)
          | inr e ↦ let same : best ≡ row = cc e in inl (Memᴰ.head same)
        ]
        | inr n ↦ elim (best_row-listed rows acc best (rw n at h)) [
          | inl m ↦ inl (Memᴰ.tail m)
          | inr e ↦ inr e
        ]
      ]

  best_row-some :
      (rows : List CommandPolicy) (b : CommandPolicy)
      → (best : CommandPolicy) × (best_row user_id channel rows (some b) ≡ some best)
  unfolding best_row
  best_row-some [] b = (b, refl)
  best_row-some (row ∷ rows) b =
      elim (Bool-cases (applies user_id channel row && beats user_id channel row (some b))) [
        | inl y ↦ rw y (best_row-some rows row)
        | inr n ↦ rw n (best_row-some rows b)
      ]

  pub best_row-none :
      (rows : List CommandPolicy)
      → best_row user_id channel rows none ≡ none
      → All (λ r. applies user_id channel r ≡ false) rows
  unfolding best_row
  best_row-none [] h = tt
  best_row-none (row ∷ rows) h = elim (Bool-cases (applies user_id channel row)) [
    | inr n ↦ (n, best_row-none rows (rw n at h))
    | inl a ↦ let (best, e) = best_row-some rows row in absurd (cc (rw a at h, e))
  ]
