-- ===== src/Models.antt =====
-- Rows of models.py that several components read: outbox tasks and messages.
use multi_channel_ai_gateway.Base.{
  ℕ, String, Bool, true, false, Option, none, List, [], ◌∷◌, ◌==◌, if◌then◌else◌,
}

-- Seconds since a fixed origin, which lies further back than any timeout or retention period.
abbrev pub Time : Type 0
Time = ℕ

pub data OutboxStatus : Type 0 where
  pending processing done dead : OutboxStatus

pub data MessageStatus : Type 0 where
  received queued processing sent failed ignored dead : MessageStatus

pub data MessageDirection : Type 0 where
  inbound outbound : MessageDirection

-- A JSON object whose values are texts or null.
abbrev pub Payload : Type 0
Payload = List (String × Option String)

unfoldable pub payload_get : String → Payload → Option String
payload_get key [] = none
payload_get key ((k, v) ∷ rest) = if k == key then v else payload_get key rest

pub record OutboxTask : Type 0 where
  pub id : String
  pub task_type : String
  pub dedupe_key : String
  pub payload : Payload
  pub status : OutboxStatus
  pub attempts : ℕ
  pub rerun_requested : Bool
  pub available_at : Time
  pub locked_at : Option Time
  pub lease_token : Option String
  pub last_error : Option String
  pub created_at : Time

-- `merged_into` is the entry of that name in `metadata_json`.
pub record Message : Type 0 where
  pub id : String
  pub conversation_id : Option String
  pub user_id : Option String
  pub direction : MessageDirection
  pub status : MessageStatus
  pub merged_into : Option String
  pub error : Option String
  pub created_at : Time

abbrev pub is_pending : OutboxStatus → Bool
is_pending OutboxStatus.pending = true
is_pending _ = false

abbrev pub is_processing : OutboxStatus → Bool
is_processing OutboxStatus.processing = true
is_processing _ = false

abbrev pub is_dead : OutboxStatus → Bool
is_dead OutboxStatus.dead = true
is_dead _ = false

abbrev pub is_done : OutboxStatus → Bool
is_done OutboxStatus.done = true
is_done _ = false
