-- ===== src/Bridge/State.antt =====
-- bridge/src/clawbot_bridge/runtime.py and state.py: one instance of the bridge.
-- Every operation of the runtime names one instance and touches that instance's entry of the
-- dictionary and that instance's session file, so the state of one instance is a `Slot`.
use multi_channel_ai_gateway.Base.{
  String, Bool, true, false, not, Option, none, some, List, [], ◌∷◌, ◌==◌, if◌then◌else◌,
}

pub data Status : Type 0 where
  pending_login online offline error : Status

pub record Credentials : Type 0 where
  pub bot_token : String
  pub base_url : String

pub record LoginPending : Type 0 where
  pub session_key : String
  pub qrcode_url : String

pub record LoginSuccess : Type 0 where
  pub bot_token : String
  pub base_url : String
  pub account_id : String

-- A Python dictionary: the first entry of a key counts.
abbrev pub Dict : Type 0
Dict = List (String × String)

unfoldable pub dict_get : String → Dict → Option String
dict_get key [] = none
dict_get key ((k, v) ∷ rest) = let later = dict_get key rest in if k == key then some v else later

abbrev pub dict_set : String → String → Dict → Dict
dict_set key v d = (key, v) ∷ d

-- `StoredInstanceState`
pub record Stored : Type 0 where
  pub credentials : Credentials
  pub account_id : String
  pub context_tokens : Dict
  pub desired_running : Bool

-- `InstanceState`; `running` and `reporting` tell whether `task` and `report_task` are unfinished,
-- and `stopped` whether `stop_event` is set.
pub record Instance : Type 0 where
  pub status : Status
  pub pending : LoginPending
  pub stopped : Bool
  pub credentials : Option Credentials
  pub account_id : Option String
  pub context_tokens : Dict
  pub running : Bool
  pub reporting : Bool
  pub error : Option String
  pub desired_running : Bool

-- `has_store` tells whether the runtime has a state store, `file` is what `load` reads from the
-- session file, and `live` the entry of `_instances`.
pub record Slot : Type 0 where
  pub has_store : Bool
  pub file : Option Stored
  pub live : Option Instance

abbrev pub is_online : Status → Bool
is_online Status.online = true
is_online _ = false

abbrev pub is_pending_login : Status → Bool
is_pending_login Status.pending_login = true
is_pending_login _ = false

abbrev pub is_error : Status → Bool
is_error Status.error = true
is_error _ = false

-- Python's truth of an optional text.
abbrev pub filled : Option String → Bool
filled none = false
filled (some s) = not (s == "")

abbrev pub when_filled : Option String → Option String
when_filled none = none
when_filled (some s) = if s == "" then none else some s

abbrev pub load : Slot → Option Stored
load slot = if slot.has_store then slot.file else none

-- `clear`, which the runtime calls only where it has a store.
abbrev pub clear : Slot → Slot
clear slot = record slot { file = if slot.has_store then none else slot.file }

abbrev saved : Bool → Option Credentials → Option String → Instance → Slot → Slot
saved true (some c) (some a) s slot = if a == "" then slot else record slot {
  file = some (record {
    credentials = c;
    account_id = a;
    context_tokens = s.context_tokens;
    desired_running = s.desired_running;
  });
}
saved _ _ _ s slot = slot

-- `_save_state`
abbrev pub save_state : Instance → Slot → Slot
save_state s slot = saved slot.has_store s.credentials s.account_id s slot
