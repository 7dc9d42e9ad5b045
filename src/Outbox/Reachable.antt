-- ===== src/Outbox/Reachable.antt =====
-- Every transaction of tasks.py keeps the invariant of the outbox table.
use Prim.Native.String.{◌++◌ as cat}
use multi_channel_ai_gateway.Base.{
  ◌<◌, String, Option, none, some, List, [], ◌∷◌, ◌++◌, ◌≡◌, refl, sym, ap, ◌⊎◌, inl, inr, ◌==◌,
  leb, arith, find, update_where, Option-cases, Bool-cases, find_sound, find-All, ==-eq,
  if◌then◌else◌, find-update,
}
use multi_channel_ai_gateway.Models.{Time, OutboxTask, Payload, MessageStatus, is_dead, payload_get}
use multi_channel_ai_gateway.Outbox.Tasks.{
  TaskSettings, Db, has_id, has_key, save_task, new_task, add_task, create_sync_task, reactivate,
  sync_dedupe_key, save_message,
}
use multi_channel_ai_gateway.Outbox.Lease.{
  lock_task, locked, lock_condition, stale_before, renew_task_lease, held_by,
}
use multi_channel_ai_gateway.Outbox.Finish.{
  complete_task, completed, fail_task, failed, may_finish, bury, alert_of, message_of,
}
use multi_channel_ai_gateway.Outbox.Repair.{replay_task, revived}
use multi_channel_ai_gateway.Outbox.Invariant.{
  RowInv, TasksInv, save-TasksInv, insert-TasksInv, update-TasksInv,
}
use multi_channel_ai_gateway.Outbox.Steps.{
  Step, Reach, here, next, add, sync, lock, renew, complete, fail, replay, new_task-RowInv,
  reactivate-RowInv, locked-RowInv, completed-RowInv, failed-RowInv, revived-RowInv,
  reactivate-SameName, completed-SameName, failed-SameName, revived-SameName, may_finish-processing,
}

-- A row that is not there is not there after a row is written back.
find-save_fresh :
    (t' : OutboxTask) (ts : List OutboxTask) (id : String)
    → find (has_id id) ts ≡ none
    → find (has_id id) (save_task t' ts) ≡ none
find-save_fresh t' ts id h = rw (
  find-update (has_id t'.id) (has_id id) (λ _. t') ts
      (λ a e. ap (λ s. s == id) (sym (==-eq a.id t'.id e))),
  h,
)

replay_task_tasks :
    (now : Time) (id : String) (db : Db) (t : OutboxTask)
    → find (has_id id) db.tasks ≡ some t
    → (replay_task now id db).0.tasks
      ≡ (if is_dead t.status then save_task (revived now t) db.tasks else db.tasks)
unfolding replay_task
replay_task_tasks now id db t e = ground (arith, e)

-- A death adds a notify task at most.
bury_tasks :
    (new_id : String) (now : Time) (t : OutboxTask) (db : Db)
    → ((bury new_id now t db).tasks ≡ db.tasks)
      ⊎ ((key : String) × (payload : Payload) × (d : Db) × (d.tasks ≡ db.tasks)
          × ((bury new_id now t db).tasks ≡ (add_task new_id now "notify" key payload d).0.tasks))
unfolding bury
bury_tasks new_id now t db =
    elim (Option-cases (message_of (payload_get "message_id" t.payload) db.messages)) [
      | inl e ↦ inl (rw e (ground arith))
      | inr (m, e) ↦ elim (Bool-cases (t.task_type == "message")) [
        | inl k ↦
            let m' = record m { status = MessageStatus.dead; error = t.last_error } in
            inr (
              cat "notify:" m.id,
              ("message_id", some m.id) ∷ [],
              record db {
                messages = save_message m' db.messages;
                alerts = db.alerts ++ alert_of t ∷ [];
              },
              refl,
              rw (k, e),
            )
        | inr k ↦ inl (rw k)
      ]
    ]

module _ (cfg : TaskSettings) (room : 0 < cfg.max_attempts) where
  pub add_task-TasksInv :
      (id : String) (now : Time) (task_type key : String) (payload : Payload) (db : Db)
      → TasksInv cfg db.tasks
      → find (has_id id) db.tasks ≡ none
      → TasksInv cfg (add_task id now task_type key payload db).0.tasks
  unfolding add_task
  add_task-TasksInv id now task_type key payload db v fresh =
      elim (Option-cases (find (has_key key) db.tasks)) [
        | inl e ↦ rw e (
            insert-TasksInv cfg db.tasks (new_task id now task_type key payload) v fresh e
              (new_task-RowInv cfg room id now task_type key payload))
        | inr (t, e) ↦ rw e v
      ]

  create_sync_task-TasksInv :
      (id : String) (now : Time) (token open_kfid : String) (db : Db)
      → TasksInv cfg db.tasks
      → find (has_id id) db.tasks ≡ none
      → TasksInv cfg (create_sync_task id now token open_kfid none db).0.tasks
  unfolding create_sync_task
  create_sync_task-TasksInv id now token open_kfid db v fresh =
      elim (Option-cases (find (has_key (sync_dedupe_key token open_kfid)) db.tasks)) [
        | inl e ↦ rw e (add_task-TasksInv id now _ _ _ db v fresh)
        | inr (t, e) ↦
            let payload : Payload = ("token", some token) ∷ ("open_kfid", some open_kfid) ∷ [] in
            let (same_id, same_key) = reactivate-SameName now payload t in
            let row =
              find-All (RowInv cfg) (has_key (sync_dedupe_key token open_kfid)) db.tasks v.rows e in
            rw e (
              save-TasksInv cfg (has_key (sync_dedupe_key token open_kfid)) db.tasks t
                (reactivate now (record t { payload = payload })) v e same_id same_key
                (reactivate-RowInv cfg room now (record t { payload = payload })
                  (record {
                    locked = row.locked;
                    leased = row.leased;
                    live = row.live;
                    spent = row.spent;
                  })))
      ]

  lock_task-TasksInv :
      (now : Time) (token id : String) (db db' : Db)
      → TasksInv cfg db.tasks
      → lock_task cfg now token id db ≡ some db'
      → TasksInv cfg db'.tasks
  unfolding lock_task
  lock_task-TasksInv now token id db db' v e =
      let p = lock_condition cfg now id in
      let next =
        update-TasksInv cfg p (locked now token) db.tasks (unfold locked in λ a. (refl, refl))
          (λ a h. locked-RowInv cfg room now (stale_before cfg now) token a (ground (arith, h)))
          v in
      let same : update_where p (locked now token) db.tasks ≡ db'.tasks = ground (arith, e) in
      rw (← same) next

  renew-TasksInv :
      (now : Time) (id token : String) (db : Db)
      → TasksInv cfg db.tasks
      → TasksInv cfg (renew_task_lease now id token db).0.tasks
  unfolding renew_task_lease
  renew-TasksInv now id token db v =
      update-TasksInv cfg (held_by id token) _ db.tasks (λ a. (refl, refl))
        (λ a h w. ground (arith, h, w)) v

  complete-TasksInv :
      (now : Time) (id : String) (token : Option String) (db : Db)
      → TasksInv cfg db.tasks
      → TasksInv cfg (complete_task now id token db).0.tasks
  unfolding complete_task
  complete-TasksInv now id token db v = elim (Option-cases (find (may_finish id token) db.tasks)) [
    | inl e ↦ rw e v
    | inr (t, e) ↦ rw e (
        save-TasksInv cfg (may_finish id token) db.tasks t (completed now t) v e
          (completed-SameName now t).0 (completed-SameName now t).1
          (completed-RowInv cfg room now t
            (may_finish-processing id token t (find_sound (may_finish id token) db.tasks e))
            (find-All (RowInv cfg) (may_finish id token) db.tasks v.rows e)))
  ]

  replay-TasksInv :
      (now : Time) (id : String) (db : Db)
      → TasksInv cfg db.tasks
      → TasksInv cfg (replay_task now id db).0.tasks
  unfolding replay_task
  replay-TasksInv now id db v = elim (Option-cases (find (has_id id) db.tasks)) [
    | inl e ↦ rw e v
    | inr (t, e) ↦
        let saved =
          save-TasksInv cfg (has_id id) db.tasks t (revived now t) v e (revived-SameName now t).0
            (revived-SameName now t).1 (revived-RowInv cfg room now t) in
        rw (replay_task_tasks now id db t e)
          (elim (Bool-cases (is_dead t.status)) [ inl d ↦ rw d saved | inr d ↦ rw d v ])
  ]

  bury-TasksInv :
      (new_id : String) (now : Time) (t : OutboxTask) (db : Db)
      → TasksInv cfg db.tasks
      → find (has_id new_id) db.tasks ≡ none
      → TasksInv cfg (bury new_id now t db).tasks
  bury-TasksInv new_id now t db v fresh = elim (bury_tasks new_id now t db) [
    | inl e ↦ rw e v
    | inr (key, payload, d, same, e) ↦
        rw e (add_task-TasksInv new_id now "notify" key payload d (rw same v) (rw same fresh))
  ]

  fail-TasksInv :
      (new_id : String) (now : Time) (id : String) (token : Option String) (error : String)
      (db : Db)
      → TasksInv cfg db.tasks
      → find (has_id new_id) db.tasks ≡ none
      → TasksInv cfg (fail_task cfg new_id now id token error db).0.tasks
  unfolding fail_task
  fail-TasksInv new_id now id token error db v fresh =
      elim (Option-cases (find (may_finish id token) db.tasks)) [
        | inl e ↦ rw e v
        | inr (t, e) ↦
            let t' = failed cfg now error t in
            let saved =
              save-TasksInv cfg (may_finish id token) db.tasks t t' v e
                (failed-SameName cfg now error t).0 (failed-SameName cfg now error t).1
                (failed-RowInv cfg room now error t) in
            let still = find-save_fresh t' db.tasks new_id fresh in
            let buried =
              bury-TasksInv new_id now t' (record db { tasks = save_task t' db.tasks }) saved
                still in
            rw e (elim (Bool-cases (leb cfg.max_attempts t'.attempts)) [
              | inl d ↦ rw d buried
              | inr d ↦ rw d saved
            ])
      ]

  -- Every transaction keeps the invariant.
  pub Step-TasksInv : {a b : Db} → Step cfg a b → TasksInv cfg a.tasks → TasksInv cfg b.tasks
  Step-TasksInv (add db id now k key p f) v = add_task-TasksInv id now k key p db v f
  Step-TasksInv (sync db id now token kf f) v = create_sync_task-TasksInv id now token kf db v f
  Step-TasksInv (lock db db' now token id e) v = lock_task-TasksInv now token id db db' v e
  Step-TasksInv (renew db now id token) v = renew-TasksInv now id token db v
  Step-TasksInv (complete db now id token) v = complete-TasksInv now id token db v
  Step-TasksInv (fail db n now id token err f) v = fail-TasksInv n now id token err db v f
  Step-TasksInv (replay db now id) v = replay-TasksInv now id db v

  -- From a table that satisfies the invariant, such as an empty one, every sequence of
  -- transactions by any number of workers reaches only tables that satisfy it: ids and dedupe keys
  -- are unique, a row has a lease exactly while it is being processed, a pending or processing row
  -- has attempts left and a dead one has none. The setting must allow at least one attempt, and
  -- the id of a new row is fresh.
  pub Reach-TasksInv : {a b : Db} → Reach cfg a b → TasksInv cfg a.tasks → TasksInv cfg b.tasks
  Reach-TasksInv here v = v
  Reach-TasksInv (next r s) v = Step-TasksInv s (Reach-TasksInv r v)
