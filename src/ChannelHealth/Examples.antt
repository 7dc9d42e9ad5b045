-- ===== src/ChannelHealth/Examples.antt =====
-- One instance of a channel that goes offline.
use multi_channel_ai_gateway.Base.{
  ℕ, ◌+◌, String, true, false, none, some, [], ◌∷◌, ◌≡◌, ◌==◌, find, length,
}
use multi_channel_ai_gateway.Outbox.Tasks.{has_key}
use multi_channel_ai_gateway.ChannelHealth.Status.{
  ChannelState, ChannelInstance, HealthDb, apply_state, reported, alert_key,
}
use multi_channel_ai_gateway.ChannelHealth.Transitions.{moved_to, apply_state_alerts}

abbrev running : ChannelInstance
running = record {
  id = "i1";
  channel = "wechat_clawbot";
  instance_name = "bot";
  login_state = none;
  status = "online";
  desired_running = true;
  status_revision = 4;
  status_updated_at = none;
  last_checked_at = none;
  last_online_at = none;
  last_error_at = none;
  last_error = none;
}

abbrev stopped : ChannelInstance
stopped = record running { desired_running = false }

abbrev gone : ChannelState
gone = record { status = some "offline"; qrcode_url = none; account_id = none; error = none }

abbrev db : HealthDb
db = record {
  instances = running ∷ [];
  outbox = record { tasks = []; messages = []; wakes = 0; alerts = [] };
}

abbrev shown : ℕ → String
shown n = "5"

apply_state_alerts_example :
    ((running.status == "offline") ≡ true
      → (apply_state shown "t1" 100 gone "offline" running db).0.outbox ≡ db.outbox)
    × ((running.status == "offline") ≡ false
        → reported "offline" ≡ true
        → find (has_key (alert_key shown (moved_to shown "t1" 100 gone "offline" running db))) []
          ≡ none
        → length (apply_state shown "t1" 100 gone "offline" running db).0.outbox.tasks ≡ 0 + 1)
apply_state_alerts_example = apply_state_alerts shown "t1" 100 gone "offline" running db
