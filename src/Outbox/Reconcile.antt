-- ===== src/Outbox/Reconcile.antt =====
-- `reconcile_message_tasks` of tasks.py: the periodic repair of messages without a task.
use multi_channel_ai_gateway.Base.{
  ℕ, zero, suc, ◌≤◌, String, true, Option, List, [], ◌∷◌, ◌≡◌, refl, ◌∙◌, ap, arith, ==-refl, find,
  select_where, count_where, take, length, Bool-cases, Option-cases, inl, inr, is_some,
  find-append_none, find-append_some, nat_eq, All,
}
use multi_channel_ai_gateway.Models.{Time, OutboxTask, Payload, Message}
use multi_channel_ai_gateway.Outbox.Tasks.{Db, has_key, add_task, new_task, message_key}
use multi_channel_ai_gateway.Outbox.Repair.{is_orphan, add_message_tasks, reconcile_message_tasks}

abbrev pub HasTask : List OutboxTask → String → Type 0
HasTask ts key = is_some (find (has_key key) ts) ≡ true

pub add_task-HasTask :
    (id : String) (now : Time) (task_type key : String) (payload : Payload) (db : Db)
    → HasTask (add_task id now task_type key payload db).0.tasks key
unfolding add_task find
add_task-HasTask id now task_type key payload db =
    elim (Option-cases (find (has_key key) db.tasks)) [
      | inl e ↦
          rw
            (
              e,
              find-append_none (has_key key) db.tasks (new_task id now task_type key payload ∷ [])
                  e,
            )
            (rw ==-refl)
      | inr (t, e) ↦ rw (e, e)
    ]

-- No task is removed or renamed.
pub add_task-keeps :
    (id : String) (now : Time) (task_type key : String) (payload : Payload) (db : Db) (k : String)
    → HasTask db.tasks k
    → HasTask (add_task id now task_type key payload db).0.tasks k
unfolding add_task
add_task-keeps id now task_type key payload db k h =
    elim (Option-cases (find (has_key key) db.tasks)) [
      | inl e ↦ elim (Option-cases (find (has_key k) db.tasks)) [
        | inl f ↦ absurd (cc (ap (λ (o : Option OutboxTask). is_some o) f))
        | inr (t, f) ↦ rw (
          e,
          find-append_some (has_key k) db.tasks (new_task id now task_type key payload ∷ []) f,
        )
      ]
      | inr (t, e) ↦ rw e h
    ]

pub add_task-messages :
    (id : String) (now : Time) (task_type key : String) (payload : Payload) (db : Db)
    → (add_task id now task_type key payload db).0.messages ≡ db.messages
unfolding add_task
add_task-messages id now task_type key payload db = ground arith

module _ (new_id : String → String) (now : Time) where
  adds_keep :
      (ms : List Message) (db : Db) (k : String)
      → HasTask db.tasks k
      → HasTask (add_message_tasks new_id now ms db).tasks k
  unfolding add_message_tasks
  adds_keep [] db k h = h
  adds_keep (m ∷ ms) db k h =
      adds_keep ms _ k (add_task-keeps (new_id m.id) now "message" (message_key m.id) _ db k h)

  adds_messages :
      (ms : List Message) (db : Db) → (add_message_tasks new_id now ms db).messages ≡ db.messages
  unfolding add_message_tasks
  adds_messages [] db = refl
  adds_messages (m ∷ ms) db =
      adds_messages ms _ ∙ add_task-messages (new_id m.id) now "message" (message_key m.id) _ db

  adds_give :
      (ms : List Message) (db : Db)
      → All (λ m. HasTask (add_message_tasks new_id now ms db).tasks (message_key m.id)) ms
  unfolding add_message_tasks
  adds_give [] db = tt
  adds_give (m ∷ ms) db = (
    adds_keep ms _ (message_key m.id)
        (add_task-HasTask (new_id m.id) now "message" (message_key m.id) _ db),
    adds_give ms _,
  )

take-all {ℓ} : {A : Type ℓ} (n : ℕ) (xs : List A) → length xs ≤ n → take n xs ≡ xs
take-all zero [] h = refl
take-all zero (x ∷ xs) h = absurd (omega arith)
take-all (suc n) [] h = refl
take-all (suc n) (x ∷ xs) h = ap (λ r. x ∷ r) (take-all n xs (omega arith))

-- A message that had a task, or is among those that get one, is no orphan afterwards.
no_orphans :
    (before after : List OutboxTask) (ms : List Message)
    → ((k : String) → HasTask before k → HasTask after k)
    → All (λ m. HasTask after (message_key m.id)) (select_where (is_orphan before) ms)
    → count_where (is_orphan after) ms ≡ 0
unfolding select_where count_where is_orphan
no_orphans before after [] keep all = refl
no_orphans before after (m ∷ ms) keep all = elim (Bool-cases (is_orphan before m)) [
  | inl o ↦
      let both : All (λ a. HasTask after (message_key a.id))
          (m ∷ select_where (is_orphan before) ms) =
        rw o at all in
      rw (both.0) (ground (arith, no_orphans before after ms keep both.1))
  | inr o ↦
      let rest : All (λ a. HasTask after (message_key a.id)) (select_where (is_orphan before) ms) =
        rw o at all in
      ground (arith, o, keep (message_key m.id), no_orphans before after ms keep rest)
]

-- If the orphans are within the limit, none is left, and their number is returned. The messages
-- themselves are not changed.
pub reconcile_message_tasks_complete :
    (new_id : String → String) (now : Time) (limit : ℕ) (db : Db)
    → length (select_where (is_orphan db.tasks) db.messages) ≤ limit
    → let (db', created) = reconcile_message_tasks new_id now limit db in
      (count_where (is_orphan db'.tasks) db'.messages ≡ 0)
      × (created ≡ length (select_where (is_orphan db.tasks) db.messages))
      × (db'.messages ≡ db.messages)
unfolding reconcile_message_tasks
reconcile_message_tasks_complete new_id now limit db h =
    let orphans = select_where (is_orphan db.tasks) db.messages in
    let db1 = add_message_tasks new_id now orphans db in
    let left : count_where (is_orphan db1.tasks) db.messages ≡ 0 =
      no_orphans db.tasks db1.tasks db.messages (adds_keep new_id now orphans db)
        (adds_give new_id now orphans db) in
    let same = adds_messages new_id now orphans db in
    rw (take-all limit orphans h) (elim (Bool-cases (nat_eq (length orphans) 0)) [
      | inl e ↦ rw e (rw same (left, refl, refl))
      | inr e ↦ rw e (rw same (left, refl, refl))
    ])
