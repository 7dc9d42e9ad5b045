-- ===== src/Bridge/Examples.antt =====
-- Runs of one instance of the bridge.
use multi_channel_ai_gateway.Base.{true, false, String, inl, none, some, [], ◌∷◌, ◌≡◌, refl}
use multi_channel_ai_gateway.Bridge.State.{
  Status, Credentials, LoginPending, LoginSuccess, Instance, Slot,
}
use multi_channel_ai_gateway.Bridge.Runtime.{
  begin, waiting, restored, media, start, stop, restore, send, status, answered, text,
}
use multi_channel_ai_gateway.Bridge.Handlers.{
  logged_in, authorised, run_finally, rotate_login, received, session_expired, run_excepted,
  online_excepted,
}
use multi_channel_ai_gateway.Bridge.Steps.{
  World, Reach, started, starts, acts, acts_late, log_in, receive, finalize, end_online, here, next,
}
use multi_channel_ai_gateway.Bridge.Sessions.{stop_then_start}
use multi_channel_ai_gateway.Bridge.Lasting.{stop_after_any_run}
use multi_channel_ai_gateway.Bridge.Expiry.{
  receive_all-reply, receive_all, last_token, session_expired-erases, session_expired-stuck, Erased,
}

abbrev keys : Credentials
keys = record { bot_token = "bot"; base_url = "https://ilink" }

abbrev qr : LoginPending
qr = record { session_key = "k1"; qrcode_url = "https://qr/1" }

abbrev login : LoginSuccess
login = record { bot_token = "bot"; base_url = "https://ilink"; account_id = "wx1" }

abbrev live : Instance
live = record {
  status = Status.online;
  pending = qr;
  stopped = false;
  credentials = some keys;
  account_id = some "wx1";
  context_tokens = ("m1", "ctx1") ∷ [];
  running = true;
  reporting = false;
  error = none;
  desired_running = true;
}

abbrev slot : Slot
slot = record { has_store = true; file = none; live = some live }

abbrev fresh : Slot
fresh = record { has_store = true; file = none; live = none }

stop_then_start_example :
    (s' : Instance) × ((start none (stop slot)).0.live ≡ some s')
    × (s'.status ≡ Status.online)
    × (s'.credentials ≡ some keys)
    × (s'.account_id ≡ some "wx1")
    × (s'.context_tokens ≡ ("m1", "ctx1") ∷ [])
stop_then_start_example = stop_then_start slot live none refl refl refl

abbrev at_first : World
at_first = record { slot = fresh; left_over = [] }

abbrev asked : World
asked = started true (some qr) at_first

abbrev logged_in_world : World
logged_in_world = record asked { slot = logged_in login (waiting qr) asked.slot }

online_after : Reach at_first logged_in_world
unfolding start
online_after =
    next (next here (starts at_first true (some qr)))
      (acts asked logged_in_world.slot (log_in asked.slot (waiting qr) login refl refl))

stop_after_any_run_example :
    ((status (stop logged_in_world.slot)).status ≡ Status.offline)
    × (send (stop logged_in_world.slot) (some "m1") "hello" [] ≡ none)
    × (restore (some qr) (stop logged_in_world.slot) ≡ (stop logged_in_world.slot, false))
stop_after_any_run_example =
    stop_after_any_run at_first logged_in_world (some qr) (some "m1") "hello" [] refl
      (λ st h. absurd (cc h)) online_after refl

-- Where a task of a replaced instance is running, `stop` does not last: the late task of the first
-- login takes the instance offline, a `start` puts another one in its place, whose session expires,
-- and a message of the first one writes the file again.
abbrev first : Instance
first = authorised login (waiting qr)

abbrev taken_offline : World
taken_offline = record logged_in_world { slot = run_finally first logged_in_world.slot }

abbrev started_again : World
started_again = started false none taken_offline

abbrev second : Instance
second =
    restored (record {
      credentials = keys;
      account_id = "wx1";
      context_tokens = [];
      desired_running = true;
    })

abbrev expired_since : World
expired_since = record started_again {
  slot = online_excepted (session_expired none) second started_again.slot;
}

abbrev orphan : Instance
orphan = record first { status = Status.offline }

abbrev informed : Instance
informed = record orphan { context_tokens = ("m9", "ctx9") ∷ [] }

abbrev as_orphan : Slot
as_orphan = record expired_since.slot { live = some orphan }

abbrev written_late : World
written_late = record {
  slot = record expired_since.slot { file = (received "m9" "ctx9" orphan as_orphan).file };
  left_over = informed ∷ [];
}

late_run : Reach at_first written_late
unfolding start begin online_excepted rotate_login logged_in received run_finally
late_run =
    next
      (next
        (next
          (next online_after
            (acts logged_in_world taken_offline.slot (finalize logged_in_world.slot first refl)))
          (starts taken_offline false none))
        (acts started_again expired_since.slot
          (end_online started_again.slot second (session_expired none) refl)))
      (acts_late expired_since [] [] orphan informed (received "m9" "ctx9" orphan as_orphan) refl
        (receive as_orphan orphan "m9" "ctx9" refl) refl)

comes_back : (restore none (stop written_late.slot)).1 ≡ true
unfolding restore start begin stop online_excepted rotate_login logged_in received run_finally
comes_back = refl

receive_all-reply_example :
    (send (receive_all (("m2", "ctx2") ∷ ("m3", "ctx3") ∷ []) live slot) (some "m2") "hello" []
      ≡ some (keys, "ctx2", text "hello" ∷ []))
    × ((m : String)
        → send
            (receive_all (("m2", "ctx2") ∷ ("m3", "ctx3") ∷ []) live slot)
            (some "m2")
            "hello"
            (some m ∷ some "picture" ∷ [])
          ≡ some (keys, "ctx2", media m ∷ media "picture" ∷ []))
unfolding last_token
receive_all-reply_example =
    receive_all-reply (("m2", "ctx2") ∷ ("m3", "ctx3") ∷ []) slot live keys "m2" "ctx2" "hello"
      ("picture" ∷ []) refl refl refl refl refl (inl refl)

session_expired-erases_example :
    Erased (run_excepted (session_expired none) live slot)
    × Erased (online_excepted (session_expired none) live slot)
session_expired-erases_example = session_expired-erases slot live none

session_expired-stuck_example :
    let slot' = online_excepted (session_expired none) live slot in
    ((status slot').status ≡ Status.online)
    × (start (some qr) slot' ≡ (slot', answered (status slot')))
    × (send slot' (some "m1") "hello" [] ≡ none)
session_expired-stuck_example =
    session_expired-stuck slot live (some qr) (some "m1") "hello" [] refl
