-- ===== src/Bridge/Runtime.antt =====
-- bridge/src/clawbot_bridge/runtime.py: starting, stopping and using an instance.
use multi_channel_ai_gateway.Base.{
  String, Bool, true, false, ◌||◌, Option, none, some, List, [], ◌∷◌, ◌==◌, if◌then◌else◌,
}
use multi_channel_ai_gateway.Bridge.State.{
  Status, Credentials, LoginPending, Stored, Instance, Slot, is_online, is_pending_login,
  when_filled, load, save_state, dict_get,
}

-- The dictionary that `status` and `start` return.
pub record Answer : Type 0 where
  pub status : Status
  pub qrcode_url : Option String
  pub account_id : Option String
  pub error : Option String

-- `raised` stands for the exception of `start_login`.
pub data Started : Type 0 where
  answered : Answer → Started
  raised : Started

unfoldable pub status : Slot → Answer
status slot = elim slot.live [
  | none ↦ record { status = Status.offline; qrcode_url = none; account_id = none; error = none }
  | some s ↦ record {
    status = s.status;
    qrcode_url = if is_pending_login s.status then some s.pending.qrcode_url else none;
    account_id = when_filled s.account_id;
    error = when_filled s.error;
  }
]

abbrev pub restored : Stored → Instance
restored stored = record {
  status = Status.online;
  pending = record { session_key = "restored"; qrcode_url = "" };
  stopped = false;
  credentials = some stored.credentials;
  account_id = some stored.account_id;
  context_tokens = stored.context_tokens;
  running = true;
  reporting = false;
  error = none;
  desired_running = true;
}

abbrev pub waiting : LoginPending → Instance
waiting pending = record {
  status = Status.pending_login;
  pending = pending;
  stopped = false;
  credentials = none;
  account_id = none;
  context_tokens = [];
  running = true;
  reporting = false;
  error = none;
  desired_running = true;
}

abbrev pub busy : Option Instance → Bool
busy none = false
busy (some s) = is_pending_login s.status || is_online s.status

unfoldable pub begin : Option LoginPending → Option Stored → Slot → Slot × Started
begin login (some stored) slot =
    let s = restored stored in
    (
      save_state s (record slot { live = some s }),
      answered (record {
        status = Status.online;
        qrcode_url = none;
        account_id = some stored.account_id;
        error = none;
      }),
    )
begin (some pending) none slot = (
  record slot { live = some (waiting pending) },
  answered (record {
    status = Status.pending_login;
    qrcode_url = some pending.qrcode_url;
    account_id = none;
    error = none;
  }),
)
begin none none slot = (slot, raised)

-- `login` is what `start_login` gives, should it be called: `none` where it raises.
unfoldable pub start : Option LoginPending → Slot → Slot × Started
unfolding begin status
start login slot =
    if busy slot.live then (slot, answered (status slot)) else begin login (load slot) slot

abbrev pub halted : Instance → Instance
halted s = record s {
  desired_running = false;
  stopped = true;
  running = false;
  reporting = false;
  status = Status.offline;
}

abbrev pub parked : Option Stored → Slot → Slot
parked none slot = slot
parked (some stored) slot = record slot { file = some (record stored { desired_running = false }) }

-- The cancelled task ends before `stop` goes on, and changes no more than the status.
unfoldable pub stop : Slot → Slot
stop slot = elim slot.live [
  | none ↦ parked (load slot) slot
  | some s ↦ record (save_state (record s { desired_running = false }) slot) {
    live = some (halted s);
  }
]

-- One call of iLink: a text, or one medium.
pub data Call : Type 0 where
  text : String → Call
  media : String → Call

-- Entries of the list that are not dictionaries are skipped.
abbrev pub media_calls : List (Option String) → List Call
media_calls [] = []
media_calls (none ∷ rest) = media_calls rest
media_calls (some m ∷ rest) = media m ∷ media_calls rest

abbrev pub calls_of : String → List (Option String) → List Call
calls_of content [] = text content ∷ []
calls_of content (m ∷ ms) = media_calls (m ∷ ms)

abbrev pub token_for : Option String → Instance → Option String
token_for none s = none
token_for (some reply_to) s =
    if reply_to == "" then none else when_filled (dict_get reply_to s.context_tokens)

abbrev pub sent :
    Option Credentials → Option String → List Call → Option (Credentials × String × List Call)
sent (some c) (some token) calls = some (c, token, calls)
sent _ _ calls = none

-- The calls of iLink that a `send` makes, in order, with the credentials and the context token;
-- `none` where it raises a `RuntimeError`.
unfoldable pub send :
    Slot → Option String → String → List (Option String) → Option (Credentials × String × List Call)
send slot reply_to content attachments = elim slot.live [
  | none ↦ none
  | some s ↦
      if is_online s.status
      then sent s.credentials (token_for reply_to s) (calls_of content attachments)
      else none
]

abbrev pub wanted : Option Stored → Bool
wanted none = false
wanted (some stored) = stored.desired_running

abbrev is_restored : Started → Bool
is_restored raised = false
is_restored (answered a) = is_online a.status

-- The body of `restore_all` for one session file: the new state, and whether it is restored.
unfoldable pub restore : Option LoginPending → Slot → Slot × Bool
unfolding start
restore login slot =
    if wanted (load slot)
    then ((start login slot).0, is_restored (start login slot).1)
    else (slot, false)
