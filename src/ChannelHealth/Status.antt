-- ===== src/ChannelHealth/Status.antt =====
-- src/wecom_ai_gateway/channel_health.py: applying a status that the bridge reports.
-- A key of the report that is there has a text. `shown` stands for `str` on an integer.
use Prim.Native.String.{◌++◌ as cat, [] as empty, ◌∷◌ as char}
use multi_channel_ai_gateway.Base.{
  ℕ, ◌+◌, String, Bool, ◌&&◌, ◌||◌, not, Option, none, some, List, [], ◌∷◌, ◌==◌, if◌then◌else◌,
  find, update_where,
}
use multi_channel_ai_gateway.Base.Text.{take_chars, lstrip, is_space}
use multi_channel_ai_gateway.Models.{Time}
use multi_channel_ai_gateway.Outbox.Tasks.{Db, add_task}

pub record ChannelState : Type 0 where
  pub status : Option String
  pub qrcode_url : Option String
  pub account_id : Option String
  pub error : Option String

-- The columns that the module reads and writes.
pub record ChannelInstance : Type 0 where
  pub id : String
  pub channel : String
  pub instance_name : String
  pub login_state : Option ChannelState
  pub status : String
  pub desired_running : Bool
  pub status_revision : ℕ
  pub status_updated_at : Option Time
  pub last_checked_at : Option Time
  pub last_online_at : Option Time
  pub last_error_at : Option Time
  pub last_error : Option String

pub record HealthDb : Type 0 where
  pub instances : List ChannelInstance
  pub outbox : Db

abbrev pub instance_has_id : String → ChannelInstance → Bool
instance_has_id id i = i.id == id

-- The text up to its first white space.
unfoldable pub leading_word : String → String
leading_word empty = empty
leading_word (char c s) = let rest = leading_word s in if is_space c then empty else char c rest

-- `split()[0]`, which raises an `IndexError` on a text without a word.
unfoldable pub first_word : String → Option String
first_word s = let t = lstrip s in if t == "" then none else some (leading_word t)

abbrev known_status : String → Bool
known_status s =
    (s == "pending_login")
    || ((s == "online") || ((s == "offline") || ((s == "error") || (s == "reconnecting"))))

abbrev or_offline : Option String → String
or_offline none = "offline"
or_offline (some s) = if s == "" then "offline" else s

abbrev safe_status : Option String → String
safe_status s = if known_status (or_offline s) then or_offline s else "error"

abbrev safe_error : Option String → Option (Option String)
safe_error none = some none
safe_error (some e) = elim (first_word e) [ none ↦ none | some w ↦ some (some (take_chars 120 w)) ]

-- `_safe_state`; `none` stands for the `IndexError`. The report has the public keys only.
unfoldable pub safe_state : ChannelState → Option ChannelState
safe_state raw = elim (safe_error raw.error) [
  | none ↦ none
  | some e ↦ some (record raw { status = some (safe_status raw.status); error = e })
]

-- `_public_status`
unfoldable pub public_status : String → String
public_status status = if status == "pending_login" then "logging_in" else status

abbrev pub is_error_status : String → Bool
is_error_status s = (s == "error") || ((s == "offline") || (s == "reconnecting"))

abbrev pub reported : String → Bool
reported s = (s == "online") || is_error_status s

abbrev or_unavailable : Option String → String
or_unavailable none = "BridgeUnavailable"
or_unavailable (some e) = if e == "" then "BridgeUnavailable" else e

abbrev with_error : Time → ChannelState → String → ChannelInstance → ChannelInstance
with_error now state error i = record i {
  last_error_at = some now;
  last_error = some error;
  login_state = some (record state { error = some error });
}

-- The changes that do not depend on whether the status is a new one.
unfoldable pub observed : Time → ChannelState → String → ChannelInstance → ChannelInstance
observed now state new_status i =
    let seen = record i {
      last_checked_at = some now;
      login_state = some state;
      status = new_status;
    } in
    if new_status == "online"
    then record seen { last_online_at = some now; last_error = none }
    else if is_error_status new_status
    then with_error now state (take_chars 120 (or_unavailable state.error)) seen
    else seen

abbrev pub revised : Time → Bool → ChannelInstance → ChannelInstance
revised now changed i =
    if changed
    then record i { status_revision = i.status_revision + 1; status_updated_at = some now }
    else i

module _ (shown : ℕ → String) where
  unfoldable pub alert_key : ChannelInstance → String
  alert_key i = cat "channel-status:" (cat i.id (cat ":" (shown i.status_revision)))

  -- `_add_transition_alert`; `task_id` is the new row's.
  unfoldable pub add_transition_alert : String → Time → ChannelInstance → String → String → Db → Db
  add_transition_alert task_id now i old_status new_status outbox =
      (add_task task_id now "alert" (alert_key i)
        (("kind", some (if new_status == "online" then "channel_recovered" else "channel_offline"))
          ∷ ("instance_id", some i.id)
          ∷ ("instance_name", some i.instance_name)
          ∷ ("channel", some i.channel)
          ∷ ("old_status", some old_status)
          ∷ ("new_status", some new_status)
          ∷ ("error", i.last_error)
          ∷ [])
        outbox).0

  unfoldable pub apply_state :
      String → Time → ChannelState → String → ChannelInstance → HealthDb → HealthDb × Bool
  apply_state task_id now state new_status i db =
      let changed = not (i.status == new_status) in
      let i' = observed now state new_status (revised now changed i) in
      (
        record {
          instances = update_where (instance_has_id i.id) (λ _. i') db.instances;
          outbox =
              if changed && reported new_status
              then add_transition_alert task_id now i' i.status new_status db.outbox
              else db.outbox;
        },
        changed,
      )

  abbrev pub status_of : ChannelState → String
  status_of state = public_status (safe_status state.status)

  -- `instance` is the row as the query with the lock reads it; `none` stands for the `IndexError`.
  unfoldable pub apply_channel_status :
      String → Time → ChannelInstance → ChannelState → HealthDb → Option (HealthDb × Bool)
  unfolding apply_state safe_state
  apply_channel_status task_id now i raw db = elim (safe_state raw) [
    | none ↦ none
    | some state ↦ some (apply_state task_id now state (status_of raw) i db)
  ]

  abbrev unreachable : ChannelState
  unreachable = record {
    status = some "reconnecting";
    qrcode_url = none;
    account_id = none;
    error = some "BridgeUnavailable";
  }

  abbrev answer_or : Option ChannelState → ChannelState
  answer_or none = unreachable
  answer_or (some state) = state

  refreshed :
      String → Time → Option ChannelState → Option ChannelInstance → HealthDb → Option HealthDb
  unfolding apply_channel_status
  refreshed task_id now answer none db = none
  refreshed task_id now answer (some i) db =
      if i.desired_running
      then elim (apply_channel_status task_id now i (answer_or answer) db) [
        | none ↦ none
        | some r ↦ some r.0
      ]
      else some db

  -- `answer` is what the bridge reports, `none` where the call raises, and `meanwhile` is what
  -- others commit during the call. The result is `none` where an exception leaves the function.
  unfoldable pub reconcile_channel_instance :
      String
      → Time
      → ChannelInstance
      → Option ChannelState
      → (HealthDb → HealthDb)
      → HealthDb
      → Option HealthDb
  unfolding refreshed
  reconcile_channel_instance task_id now i answer meanwhile db =
      if i.desired_running
      then refreshed task_id now answer (find (instance_has_id i.id) (meanwhile db).instances)
          (meanwhile db)
      else some db
