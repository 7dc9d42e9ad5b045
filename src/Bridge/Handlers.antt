-- ===== src/Bridge/Handlers.antt =====
-- bridge/src/clawbot_bridge/runtime.py: what the background tasks of an instance do between two
-- waits. A task holds the instance that it was made for, which is the entry of its slot.
use multi_channel_ai_gateway.Base.{String, true, false, ◌||◌, Option, none, some, [], if◌then◌else◌}
use multi_channel_ai_gateway.Bridge.State.{
  Status, LoginPending, LoginSuccess, Instance, Slot, is_pending_login, is_error, save_state, clear,
  dict_set,
}

abbrev pub put : Instance → Slot → Slot
put s slot = record slot { live = some s }

-- `save_state` of the entry as it now is.
abbrev pub put_saved : Instance → Slot → Slot
put_saved s slot = save_state s (put s slot)

abbrev pub authorised : LoginSuccess → Instance → Instance
authorised login s = record s {
  credentials = some (record { bot_token = login.bot_token; base_url = login.base_url });
  account_id = some login.account_id;
  status = Status.online;
}

-- `_run_instance` once `wait_login` has returned, up to the report.
unfoldable pub logged_in : LoginSuccess → Instance → Slot → Slot
logged_in login s slot = if s.stopped then slot else put_saved (authorised login s) slot

-- `on_message`, up to the forwarding.
unfoldable pub received : String → String → Instance → Slot → Slot
received message_id context_token s slot =
    put_saved (record s { context_tokens = dict_set message_id context_token s.context_tokens })
      slot

-- `_rotate_login`, up to the report; `login` is `none` where `start_login` raises.
unfoldable pub rotate_login : Option LoginPending → Instance → Slot → Slot
rotate_login login s slot = if s.stopped then slot else elim login [
  | none ↦ put (record s { reporting = false }) slot
  | some pending ↦
      put
        (record s {
          reporting = false;
          pending = pending;
          status = Status.pending_login;
          error = none;
          running = true;
        })
        slot
]

abbrev pub expired : Instance → Instance
expired s = record s { credentials = none; account_id = none; context_tokens = [] }

-- How the body of a task ends.
pub data Ending : Type 0 where
  finished cancelled : Ending
  qr_expired session_expired : Option LoginPending → Ending
  failed : String → Ending

abbrev pub erred : String → Instance → Instance
erred name s = record s { status = Status.error; error = some name }

-- The `except` clauses of `_run_instance`, up to a report.
unfoldable pub run_excepted : Ending → Instance → Slot → Slot
unfolding rotate_login
run_excepted finished s slot = slot
run_excepted cancelled s slot = slot
run_excepted (qr_expired login) s slot = rotate_login login s slot
run_excepted (session_expired login) s slot =
    rotate_login login (expired s) (put (expired s) (clear slot))
run_excepted (failed name) s slot = put (erred name s) slot

-- The `finally` clause of `_run_instance`, which runs after the report.
unfoldable pub run_finally : Instance → Slot → Slot
run_finally s slot =
    if is_error s.status || is_pending_login s.status
    then slot
    else put (record s { status = Status.offline }) slot

-- The `except` clauses of `_run_online_instance`, which has no `finally`; `LoginQrExpiredError` is
-- one of the other exceptions there.
unfoldable pub online_excepted : Ending → Instance → Slot → Slot
unfolding rotate_login
online_excepted finished s slot = slot
online_excepted cancelled s slot = slot
online_excepted (session_expired login) s slot =
    let s' = expired (record s { reporting = false }) in rotate_login login s' (put s' (clear slot))
online_excepted (qr_expired login) s slot =
    put (erred "LoginQrExpiredError" (record s { reporting = false })) slot
online_excepted (failed name) s slot = put (erred name (record s { reporting = false })) slot
