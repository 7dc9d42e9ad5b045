-- ===== src/ChannelHealth/Transitions.antt =====
-- What a reported status changes in channel_health.py.
use multi_channel_ai_gateway.Base.{
  ℕ, ◌+◌, String, true, false, none, [], ◌∷◌, ◌++◌, ◌≡◌, refl, ◌==◌, find, length, length-append,
}
use multi_channel_ai_gateway.Models.{Time, Payload}
use multi_channel_ai_gateway.Outbox.Tasks.{Db, add_task, new_task, has_key}
use multi_channel_ai_gateway.ChannelHealth.Status.{
  ChannelState, ChannelInstance, HealthDb, apply_state, alert_key, add_transition_alert, observed,
  revised, reported,
}

length-add_task :
    (id : String) (now : Time) (task_type key : String) (payload : Payload) (db : Db)
    → find (has_key key) db.tasks ≡ none
    → length (add_task id now task_type key payload db).0.tasks ≡ length db.tasks + 1
unfolding add_task
length-add_task id now task_type key payload db fresh =
    let same : (add_task id now task_type key payload db).0.tasks
        ≡ db.tasks ++ new_task id now task_type key payload ∷ [] =
      rw fresh refl in
    rw same (length-append db.tasks (new_task id now task_type key payload ∷ []))

length-alert :
    (shown : ℕ → String) (task_id old_status new_status : String) (now : Time) (i : ChannelInstance)
    (outbox : Db)
    → find (has_key (alert_key shown i)) outbox.tasks ≡ none
    → length (add_transition_alert shown task_id now i old_status new_status outbox).tasks
      ≡ length outbox.tasks + 1
unfolding add_transition_alert
length-alert shown task_id old_status new_status now i outbox fresh =
    length-add_task task_id now "alert" (alert_key shown i) _ outbox fresh

module _ (shown : ℕ → String) (task_id : String) (now : Time) (state : ChannelState)
    (new_status : String) (i : ChannelInstance) (db : HealthDb) where
  abbrev pub moved_to : ChannelInstance
  moved_to = observed now state new_status (revised now true i)

  -- Only a transition raises an alert. While the status stays as it was, the outbox is not touched.
  -- When it changes to `online` or to an error status, one task is added, unless the outbox has a
  -- task with the key of this instance and this revision.
  pub apply_state_alerts :
      ((i.status == new_status) ≡ true
        → (apply_state shown task_id now state new_status i db).0.outbox ≡ db.outbox)
      × ((i.status == new_status) ≡ false
          → reported new_status ≡ true
          → find (has_key (alert_key shown moved_to)) db.outbox.tasks ≡ none
          → length (apply_state shown task_id now state new_status i db).0.outbox.tasks
            ≡ length db.outbox.tasks + 1)
  unfolding apply_state
  apply_state_alerts = (
    λ same. rw same refl,
    λ other told fresh.
        rw (other, told)
          (length-alert shown task_id i.status new_status now moved_to db.outbox fresh),
  )
