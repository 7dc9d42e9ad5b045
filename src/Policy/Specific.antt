-- ===== src/Policy/Specific.antt =====
-- The most specific policy decides.
use mathlib.Core.List.{Memᴰ}
use mathlib.Core.List.Memᴰ
use multi_channel_ai_gateway.Base.{
  Bool, ==-eq, ==-refl, ◌≤◌, String, true, false, none, List, [], ◌∷◌, ◌≡◌, refl, inl, inr, ◌⊎◌,
  find, select_where, All, Bool-cases, Option-cases,
}
use multi_channel_ai_gateway.Accounts.Rows.{User, user_has_id}
use multi_channel_ai_gateway.Binding.Tables.{CommandPolicy}
use multi_channel_ai_gateway.Policy.Decision.{
  Modes, applies, score, best_row, row_decision, default_decision, resolve_user_mode,
  get_command_decision, for_command,
}
use multi_channel_ai_gateway.Policy.Best.{
  best_row-Tops, best_row-applies, best_row-listed, best_row-none,
}

module _ (p : CommandPolicy → Bool) where
  Mem-cases :
      {r x : CommandPolicy} {xs : List CommandPolicy} → Memᴰ r (x ∷ xs) → (r ≡ x) ⊎ Memᴰ r xs
  Mem-cases (Memᴰ.head e) = inl e
  Mem-cases (Memᴰ.tail m) = inr m

  Mem-select :
      (rows : List CommandPolicy) (r : CommandPolicy)
      → Memᴰ r (select_where p rows)
      → Memᴰ r rows × (p r ≡ true)
  unfolding select_where
  Mem-select [] r m = absurd (Memᴰ.not-nil m)
  Mem-select (x ∷ xs) r m = elim (Bool-cases (p x)) [
    | inr f ↦ let (there, fits) = Mem-select xs r (rw f at m) in (Memᴰ.tail there, fits)
    | inl y ↦ elim (Mem-cases (rw y at m)) [
      | inl e ↦ (Memᴰ.head e, rw e y)
      | inr n ↦ let (there, fits) = Mem-select xs r n in (Memᴰ.tail there, fits)
    ]
  ]

  select-Mem :
      (rows : List CommandPolicy) (r : CommandPolicy)
      → Memᴰ r rows
      → p r ≡ true
      → Memᴰ r (select_where p rows)
  unfolding select_where
  select-Mem [] r m fits = absurd (Memᴰ.not-nil m)
  select-Mem (x ∷ xs) r m fits = elim (Mem-cases m) [
    | inl e ↦ let y : p x ≡ true = rw (← e) fits in rw y (Memᴰ.head e)
    | inr n ↦ elim (Bool-cases (p x)) [
      | inl y ↦ rw y (Memᴰ.tail (select-Mem xs r n fits))
      | inr f ↦ rw f (select-Mem xs r n fits)
    ]
  ]

  Mem-All :
      (P : CommandPolicy → Type 0) (rows : List CommandPolicy) (r : CommandPolicy)
      → All P rows
      → Memᴰ r rows
      → P r
  Mem-All P [] r all m = absurd (Memᴰ.not-nil m)
  Mem-All P (x ∷ xs) r (h, all) m = elim (Mem-cases m) [
    | inl e ↦ rw e h
    | inr n ↦ Mem-All P xs r all n
  ]

-- A row of the table for the command.
abbrev pub Concerns : List CommandPolicy → String → CommandPolicy → Type 0
Concerns policies command row = Memᴰ row policies × (row.command ≡ command)

-- The decision on a command is that of a row of the table for this command which applies to the user
-- and the channel, and no other row for it which applies is more specific: one for the user counts 2,
-- one for the channel 1. If no row for the command applies, the mode of the user decides.
pub get_command_decision_specific :
    (modes : Modes) (users : List User) (policies : List CommandPolicy)
    (user_id channel command : String)
    → let decision = get_command_decision modes users policies user_id channel command in
      ((best : CommandPolicy) × (decision ≡ row_decision user_id channel best)
        × Concerns policies command best
        × (applies user_id channel best ≡ true)
        × ((row : CommandPolicy)
            → Concerns policies command row
            → applies user_id channel row ≡ true
            → score user_id channel row ≤ score user_id channel best))
      ⊎ (((row : CommandPolicy)
            → Concerns policies command row
            → applies user_id channel row ≡ false)
          × (decision
              ≡ default_decision
                  (resolve_user_mode modes (find (user_has_id user_id) users))
                  command))
unfolding get_command_decision
get_command_decision_specific modes users policies user_id channel command =
    let is_for = for_command command in
    let rows = select_where is_for policies in
    let listed : (r : CommandPolicy) → Concerns policies command r → Memᴰ r rows =
      λ r (m, e). select-Mem is_for policies r m (rw e (==-refl command)) in
    elim (Option-cases (best_row user_id channel rows none)) [
      | inl n ↦ inr (
        λ r concerns.
            Mem-All is_for (λ r. applies user_id channel r ≡ false) rows r
              (best_row-none user_id channel rows n) (listed r concerns),
        rw (n, get_command_decision) refl,
      )
      | inr (best, e) ↦ inl (
        best,
        rw (e, get_command_decision) refl,
        elim (best_row-listed user_id channel rows none best e) [
          | inl m ↦
              let (there, fits) = Mem-select is_for policies best m in
              (there, ==-eq best.command command fits)
          | inr z ↦ absurd (cc z)
        ],
        elim (best_row-applies user_id channel rows none best e) [
          | inl a ↦ a
          | inr z ↦ absurd (cc z)
        ],
        λ r concerns.
            Mem-All is_for
              (λ row.
                applies user_id channel row ≡ true
                → score user_id channel row ≤ score user_id channel best)
              rows r (best_row-Tops user_id channel rows none best e).0 (listed r concerns),
      )
    ]
