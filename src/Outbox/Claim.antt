-- ===== src/Outbox/Claim.antt =====
-- `claim_task` of tasks.py: which task a worker gets.
use multi_channel_ai_gateway.Base.{
  ℕ, ◌≤◌, ◌<◌, String, true, false, none, some, List, [], ◌∷◌, ◌≡◌, arith, ==-refl, find,
  count_where, Bool-cases, Option-cases, inl, inr, All, count-pos_of_find, ◌⊎◌,
}
use multi_channel_ai_gateway.Models.{Time, OutboxTask}
use multi_channel_ai_gateway.Outbox.Tasks.{TaskSettings, Db, has_id}
use multi_channel_ai_gateway.Outbox.Lease.{
  first_claimable, claimable, claim_task, stale_before, locked, earlier, comes_first,
}
use multi_channel_ai_gateway.Outbox.Leases.{HasRow, after_lock, lock_task-some, after_lock-HasRow}

module _ (now stale : Time) where
  first_cases :
      (x : OutboxTask) (xs : List OutboxTask) (t : OutboxTask)
      → first_claimable now stale (x ∷ xs) ≡ some t
      → ((claimable now stale x ≡ true)
          × (x ≡ t)
          × ((b : OutboxTask)
              → first_claimable now stale xs ≡ some b
              → x.available_at ≤ b.available_at))
        ⊎ ((first_claimable now stale xs ≡ some t)
            × (claimable now stale x ≡ true → t.available_at ≤ x.available_at))
  unfolding first_claimable
  first_cases x xs t e = elim (Bool-cases (claimable now stale x)) [
    | inr c ↦ inr (ground (arith, c), λ d. absurd (cc (c, d)))
    | inl c ↦ elim (Option-cases (first_claimable now stale xs)) [
      | inl f ↦ inl (c, ground (arith, c, f), λ b g. absurd (cc (f, g)))
      | inr (r, f) ↦ elim (Bool-cases (comes_first x r)) [
        | inl o ↦ inl (
          c,
          ground (arith, c, f, o),
          λ b g. let same : r ≡ b = ground (arith, f, g) in rw (← same) (ground (arith, o)),
        )
        | inr o ↦
            let same : r ≡ t = ground (arith, c, f, o) in
            inr (rw (← same) f, λ d. rw (← same) (ground (arith, o)))
      ]
    ]
  ]

  first_claimable-claimable :
      (ts : List OutboxTask) (t : OutboxTask)
      → first_claimable now stale ts ≡ some t
      → claimable now stale t ≡ true
  unfolding first_claimable
  first_claimable-claimable [] t e = cc
  first_claimable-claimable (x ∷ xs) t e = elim (first_cases x xs t e) [
    | inl (c, same, _) ↦ rw (← same) c
    | inr (f, _) ↦ first_claimable-claimable xs t f
  ]

  first_claimable-row :
      (ts : List OutboxTask) (t : OutboxTask)
      → first_claimable now stale ts ≡ some t
      → ((id : String) → count_where (has_id id) ts ≤ 1)
      → find (has_id t.id) ts ≡ some t
  unfolding first_claimable find count_where
  first_claimable-row [] t e u = cc
  first_claimable-row (x ∷ xs) t e u = elim (first_cases x xs t e) [
    | inl (c, same, _) ↦ rw same (rw ==-refl)
    | inr (f, _) ↦
        let row = first_claimable-row xs t f (λ id. ground (arith, u id)) in
        let there = count-pos_of_find (has_id t.id) (has_id t.id) xs row (==-refl t.id) in
        ground (arith, u t.id, there, row)
  ]

  first_claimable-earliest :
      (ts : List OutboxTask) (t : OutboxTask)
      → first_claimable now stale ts ≡ some t
      → All (λ a. claimable now stale a ≡ true → t.available_at ≤ a.available_at) ts
  unfolding first_claimable
  first_claimable-earliest [] t e = tt
  first_claimable-earliest (x ∷ xs) t e = elim (first_cases x xs t e) [
    | inl (c, same, lower) ↦ (
      λ _. rw same (omega arith),
      elim (Option-cases (first_claimable now stale xs)) [
        | inl f ↦ All-never xs (first_claimable-none xs f)
        | inr (b, f) ↦
            let below : t.available_at ≤ b.available_at = rw (← same) (lower b f) in
            All-weaken xs b.available_at below (first_claimable-earliest xs b f)
      ],
    )
    | inr (f, up) ↦ (up, first_claimable-earliest xs t f)
  ]
    where
      first_claimable-none :
          (ts : List OutboxTask)
          → first_claimable now stale ts ≡ none
          → All (λ a. claimable now stale a ≡ false) ts
      first_claimable-none [] e = tt
      first_claimable-none (y ∷ ys) e = (ground arith, first_claimable-none ys (ground arith))

      All-never :
          (ts : List OutboxTask)
          → All (λ a. claimable now stale a ≡ false) ts
          → All (λ a. claimable now stale a ≡ true → t.available_at ≤ a.available_at) ts
      All-never [] h = tt
      All-never (y ∷ ys) (h, hs) = (λ d. absurd (cc (h, d)), All-never ys hs)

      All-weaken :
          (ts : List OutboxTask) (n : ℕ)
          → t.available_at ≤ n
          → All (λ a. claimable now stale a ≡ true → n ≤ a.available_at) ts
          → All (λ a. claimable now stale a ≡ true → t.available_at ≤ a.available_at) ts
      All-weaken [] n le h = tt
      All-weaken (y ∷ ys) n le (h, hs) = (λ d. omega (arith, h d), All-weaken ys n le hs)

  first_claimable-some :
      (ts : List OutboxTask)
      → 0 < count_where (claimable now stale) ts
      → (t : OutboxTask) × (first_claimable now stale ts ≡ some t)
  unfolding first_claimable count_where
  first_claimable-some [] h = absurd (omega arith)
  first_claimable-some (x ∷ xs) h = elim (Bool-cases (claimable now stale x)) [
    | inl c ↦ (earlier x (first_claimable now stale xs), rw c)
    | inr c ↦ rw c (first_claimable-some xs (ground (arith, c)))
  ]

-- While any task can be claimed, a worker that no other worker overtakes gets one, if ids are
-- unique: it is due at least as early as every other claimable task, and its row is then being
-- processed under the worker's token.
pub claim_task-some :
    (cfg : TaskSettings) (now : Time) (token : String) (db : Db)
    → ((id : String) → count_where (has_id id) db.tasks ≤ 1)
    → 0 < count_where (claimable now (stale_before cfg now)) db.tasks
    → (t : OutboxTask) × All
        (λ a. claimable now (stale_before cfg now) a ≡ true → t.available_at ≤ a.available_at)
        db.tasks
      × (claim_task cfg now token (λ d. d) db
          ≡ (after_lock cfg now token t.id db, some (locked now token t)))
unfolding claim_task
claim_task-some cfg now token db unique waiting =
    let stale = stale_before cfg now in
    let (t, picked) = first_claimable-some now stale db.tasks waiting in
    let ok = first_claimable-claimable now stale db.tasks t picked in
    let row : HasRow db t.id t = record {
      row = first_claimable-row now stale db.tasks t picked unique;
      only = unique t.id;
    } in
    let locks = lock_task-some cfg now token t.id db t row ok in
    let after = after_lock-HasRow cfg now token t.id db t row ok in
    (t, first_claimable-earliest now stale db.tasks t picked, rw picked (rw locks (rw (after.row))))
