-- ===== src/Outbox/Leases.antt =====
-- Leases of tasks.py: who may act on a claimed task.
use multi_channel_ai_gateway.Base.{
  ◌+◌, ◌≤◌, String, Bool, true, false, ◌&&◌, none, some, ◌≡◌, refl, ◌≢◌, arith, eq_iff, find,
  count_where, update_where, Bool-cases, count_of_unique, find_of_unique, find-update_unique,
  count-update_same, inl, inr, is_just, update_of_count-zero,
}
use multi_channel_ai_gateway.Models.{Time, OutboxTask, is_processing}
use multi_channel_ai_gateway.Outbox.Tasks.{TaskSettings, Db, has_id}
use multi_channel_ai_gateway.Outbox.Lease.{
  lock_task, locked, lock_condition, claimable, stale_before, renew_task_lease, held_by,
}
use multi_channel_ai_gateway.Outbox.Finish.{complete_task, fail_task}

-- The task has the row `t`, and no other row has its id.
pub record HasRow (db : Db) (id : String) (t : OutboxTask) : Type 0 where
  pub row : find (has_id id) db.tasks ≡ some t
  pub only : count_where (has_id id) db.tasks ≤ 1

abbrev pub after_lock : TaskSettings → Time → String → String → Db → Db
after_lock cfg now token id db = record db {
  tasks = update_where (lock_condition cfg now id) (locked now token) db.tasks;
}

module _ (cfg : TaskSettings) (now : Time) (token id : String) (db : Db) (t : OutboxTask) where
  lock_task-none :
      HasRow db id t
      → claimable now (stale_before cfg now) t ≡ false
      → lock_task cfg now token id db ≡ none
  unfolding lock_task
  lock_task-none h refused = rw (
    count_of_unique (has_id id) (claimable now (stale_before cfg now)) db.tasks h.row h.only,
    refused,
  )

  pub lock_task-some :
      HasRow db id t
      → claimable now (stale_before cfg now) t ≡ true
      → lock_task cfg now token id db ≡ some (after_lock cfg now token id db)
  unfolding lock_task
  lock_task-some h ok =
      rw (
        count_of_unique (has_id id) (claimable now (stale_before cfg now)) db.tasks h.row h.only,
        ok,
      )

  pub after_lock-HasRow :
      HasRow db id t
      → claimable now (stale_before cfg now) t ≡ true
      → HasRow (after_lock cfg now token id db) id (locked now token t)
  unfolding locked
  after_lock-HasRow h ok = record {
    row = rw (
      find-update_unique (has_id id) (claimable now (stale_before cfg now)) (locked now token)
          db.tasks (λ a k. k) h.row,
      ok,
    );
    only =
        rw
          (count-update_same (lock_condition cfg now id) (has_id id) (locked now token) db.tasks
            (λ a k. refl))
          h.only;
  }

  -- A claim of this task succeeds exactly when its row is due, or its lease is older than the
  -- timeout; the row is then being processed under the new token.
  pub lock_task-inv :
      HasRow db id t
      → {db' : Db} → lock_task cfg now token id db ≡ some db'
      → (claimable now (stale_before cfg now) t ≡ true) × HasRow db' id (locked now token t)
  lock_task-inv h {db'} e = elim (Bool-cases (claimable now (stale_before cfg now) t)) [
    | inl ok ↦
        let same : after_lock cfg now token id db ≡ db' = cc (lock_task-some h ok) in
        (ok, rw (← same) (after_lock-HasRow h ok))
    | inr refused ↦ absurd (cc (lock_task-none h refused))
  ]

-- A task that is claimed at `now` cannot be claimed again, by anyone, until its lease is older
-- than the timeout. No other row has the task's id.
pub lock_task-exclusive :
    (cfg : TaskSettings) (now now' : Time) (token token' id : String) (db db' : Db) (t : OutboxTask)
    → HasRow db id t
    → lock_task cfg now token id db ≡ some db'
    → now' ≤ now + cfg.lock_timeout_seconds
    → lock_task cfg now' token' id db' ≡ none
unfolding claimable locked
lock_task-exclusive cfg now now' token token' id db db' t h e early =
    let (_, h') = lock_task-inv cfg now token id db t h e in
    lock_task-none cfg now' token' id db' (locked now token t) h' (ground arith)

abbrev pub holds : String → OutboxTask → Bool
holds token a = is_processing a.status && is_just a.lease_token token

-- After the holder of a lease has renewed it, nobody can claim the task until the renewed lease is
-- older than the timeout. No other row has the task's id.
pub renew_task_lease-exclusive :
    (cfg : TaskSettings) (now now' : Time) (token token' id : String) (db : Db) (t : OutboxTask)
    → HasRow db id t
    → (renew_task_lease now id token db).1 ≡ true
    → now' ≤ now + cfg.lock_timeout_seconds
    → lock_task cfg now' token' id (renew_task_lease now id token db).0 ≡ none
unfolding renew_task_lease claimable
renew_task_lease-exclusive cfg now now' token token' id db t h e early =
    let counted = count_of_unique (has_id id) (holds token) db.tasks h.row h.only in
    let held : holds token t ≡ true = ground (arith, counted) in
    let db' = (renew_task_lease now id token db).0 in
    let h' : HasRow db' id (record t { locked_at = some now }) = record {
      row = rw (
        find-update_unique (has_id id) (holds token) (λ a. record a { locked_at = some now })
            db.tasks (λ a k. k) h.row,
        held,
      );
      only =
          rw
            (count-update_same (held_by id token) (has_id id)
              (λ a. record a { locked_at = some now }) db.tasks (λ a k. refl))
            h.only;
    } in
    lock_task-none cfg now' token' id db' (record t { locked_at = some now }) h'
      (ground (arith, held))

module _ (cfg : TaskSettings) (now later : Time) (old new id error new_id : String) where
  -- Once another worker has claimed the task under a new token, an old token that differs from it
  -- is worthless: the late worker can neither complete the task, nor fail it, nor renew its lease,
  -- and what it tries leaves the database as it is. No other row has the task's id.
  pub stale_lease_fenced :
      (db db' : Db) (t : OutboxTask)
      → HasRow db id t
      → lock_task cfg now new id db ≡ some db'
      → old ≢ new
      → (complete_task later id (some old) db' ≡ (db', false))
        × (fail_task cfg new_id later id (some old) error db' ≡ (db', none))
        × (renew_task_lease later id old db' ≡ (db', false))
  unfolding complete_task fail_task renew_task_lease
  stale_lease_fenced db db' t h e differ =
      let (_, h') = lock_task-inv cfg now new id db t h e in
      let strange : holds old (locked now new t) ≡ false =
        unfold locked in ground (arith, eq_iff new old) in
      let unfound = find_of_unique (has_id id) (holds old) db'.tasks h'.row h'.only in
      let uncounted = count_of_unique (has_id id) (holds old) db'.tasks h'.row h'.only in
      let nothing : count_where (held_by id old) db'.tasks ≡ 0 =
        unfold held_by in rw (uncounted, strange) in
      let untouched =
        update_of_count-zero (held_by id old) (λ a. record a { locked_at = some later }) db'.tasks
          nothing in
      (rw (unfound, strange), rw (unfound, strange), rw (untouched, nothing))
