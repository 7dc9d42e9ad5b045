-- ===== src/Bridge/Expiry.antt =====
-- Replies and expired sessions of an instance of runtime.py.
use multi_channel_ai_gateway.Base.{
  Bool, ap, ◌∙◌, ◌⊎◌, [], ◌∷◌, map, if◌then◌else◌, String, true, false, Option, none, some, List,
  ◌≡◌, refl, inl, inr, ◌==◌, Bool-cases,
}
use multi_channel_ai_gateway.Bridge.State.{
  Dict, Status, Credentials, LoginPending, LoginSuccess, Instance, Slot, load, clear, dict_get,
  dict_set, is_online,
}
use multi_channel_ai_gateway.Bridge.Runtime.{
  start, status, send, calls_of, answered, text, media, media_calls,
}
use multi_channel_ai_gateway.Bridge.Handlers.{
  put, put_saved, logged_in, received, rotate_login, expired, session_expired, run_excepted,
  run_finally, online_excepted, authorised,
}
use multi_channel_ai_gateway.Bridge.Saved.{save_state-live}

send-live :
    (slot : Slot) (s : Instance) (c : Credentials) (id token content : String)
    (attachments : List (Option String))
    → slot.live ≡ some s
    → s.status ≡ Status.online
    → s.credentials ≡ some c
    → (id == "") ≡ false
    → (token == "") ≡ false
    → dict_get id s.context_tokens ≡ some token
    → send slot (some id) content attachments ≡ some (c, token, calls_of content attachments)
unfolding send
send-live slot s c id token content attachments there online cred named filled known =
    rw there (rw (online, cred, named, known) (rw filled refl))

media_calls-map : (ms : List String) → media_calls (map some ms) ≡ map media ms
media_calls-map [] = refl
media_calls-map (m ∷ ms) = ap (◌∷◌ (media m)) (media_calls-map ms)

-- Messages that come in one after another, each with its id and its context token. The instance is
-- the entry that the message before has left.
unfoldable pub receive_all : List (String × String) → Instance → Slot → Slot
receive_all [] s slot = slot
receive_all ((id, token) ∷ ms) s slot =
    receive_all ms (record s { context_tokens = dict_set id token s.context_tokens })
      (received id token s slot)

abbrev or_before : Option String → Option String → Option String
or_before none before = before
or_before (some later) before = some later

-- The token of the last message of an id, where the list has one.
unfoldable pub last_token : String → List (String × String) → Option String
last_token id [] = none
last_token id ((k, token) ∷ ms) =
    or_before (last_token id ms) (if k == id then some token else none)

or_before-next :
    (later : Option String) (same : Bool) (token : String) (old : Option String)
    → or_before later (if same then some token else old)
      ≡ or_before (or_before later (if same then some token else none)) old
or_before-next none true token old = refl
or_before-next none false token old = refl
or_before-next (some t) same token old = refl

receive_all-live :
    (ms : List (String × String)) (s : Instance) (slot : Slot)
    → slot.live ≡ some s
    → (d : Dict) × ((receive_all ms s slot).live ≡ some (record s { context_tokens = d }))
      × ((id : String)
          → dict_get id d ≡ or_before (last_token id ms) (dict_get id s.context_tokens))
unfolding receive_all last_token dict_get received
receive_all-live [] s slot here = (s.context_tokens, here, λ id. refl)
receive_all-live ((k, token) ∷ ms) s slot here =
    let s' = record s { context_tokens = dict_set k token s.context_tokens } in
    let (d, there, known) =
      receive_all-live ms s' (received k token s slot) (save_state-live s' (put s' slot)) in
    (
      d,
      there,
      λ id.
          known id
          ∙ or_before-next (last_token id ms) (k == id) token (dict_get id s.context_tokens),
    )

-- After any messages that an online instance with credentials has received, a reply to each of them
-- goes out with the token of the last message of that id, and a reply to a message of before with
-- the token that was known for it, if the id and the token are not empty. The text is one call; with
-- media, each medium is a call, in order.
pub receive_all-reply :
    (ms : List (String × String)) (slot : Slot) (s : Instance) (c : Credentials)
    (id token content : String) (media_list : List String)
    → slot.live ≡ some s
    → s.status ≡ Status.online
    → s.credentials ≡ some c
    → (id == "") ≡ false
    → (token == "") ≡ false
    → (last_token id ms ≡ some token)
      ⊎ ((last_token id ms ≡ none) × (dict_get id s.context_tokens ≡ some token))
    → (send (receive_all ms s slot) (some id) content [] ≡ some (c, token, text content ∷ []))
      × ((m : String)
          → send (receive_all ms s slot) (some id) content (map some (m ∷ media_list))
            ≡ some (c, token, map media (m ∷ media_list)))
receive_all-reply ms slot s c id token content media_list here online cred named filled last =
    let (d, there, known) = receive_all-live ms s slot here in
    let found : dict_get id d ≡ some token =
      known id ∙ elim last [ inl e ↦ rw e refl | inr (n, e) ↦ rw n e ] in
    let s' : Instance = record s { context_tokens = d } in
    let reply = λ (attachments : List (Option String)).
      send-live (receive_all ms s slot) s' c id token content attachments there online cred named
        filled found in
    (
      reply [],
      λ m.
          reply (map some (m ∷ media_list))
          ∙ ap (λ calls. some (c, token, calls)) (media_calls-map (m ∷ media_list)),
    )

-- A state without credentials or file, which no request can use for sending.
abbrev pub Erased : Slot → Type 0
Erased slot =
    (load slot ≡ none)
    × ((reply_to : Option String) (content : String) (attachments : List (Option String))
        → send slot reply_to content attachments ≡ none)

cleared : (slot : Slot) (s : Instance) → load (put s (clear slot)) ≡ none
cleared slot s = elim (Bool-cases slot.has_store) [ inl y ↦ rw y refl | inr f ↦ rw f refl ]

keyless :
    (slot : Slot) (s : Instance) (reply_to : Option String) (content : String)
    (attachments : List (Option String))
    → slot.live ≡ some (expired s)
    → send slot reply_to content attachments ≡ none
unfolding send
keyless slot s reply_to content attachments there = elim (Bool-cases (is_online s.status)) [
  | inl y ↦ rw (there, y) refl
  | inr f ↦ rw (there, f) refl
]

rotated :
    (slot : Slot) (s : Instance) (login : Option LoginPending)
    → (s' : Instance) × (rotate_login login (expired s) (put (expired s) (clear slot))
        ≡ put (expired s') (clear slot))
unfolding rotate_login
rotated slot s none = elim (Bool-cases s.stopped) [
  | inl t ↦ (s, rw t refl)
  | inr f ↦ (record s { reporting = false }, rw f refl)
]
rotated slot s (some p) = elim (Bool-cases s.stopped) [
  | inl t ↦ (s, rw t refl)
  | inr f ↦ (
    record s {
      reporting = false;
      pending = p;
      status = Status.pending_login;
      error = none;
      running = true;
    },
    rw f refl,
  )
]

erased :
    (slot : Slot) (s : Instance) (login : Option LoginPending)
    → Erased (rotate_login login (expired s) (put (expired s) (clear slot)))
erased slot s login =
    let (s', same) = rotated slot s login in
    rw same (
      cleared slot (expired s'),
      λ reply_to content attachments.
          keyless (put (expired s') (clear slot)) s' reply_to content attachments refl,
    )

logged_in-running :
    (slot : Slot) (s : Instance) (login : LoginSuccess)
    → s.stopped ≡ false
    → logged_in login s slot ≡ put_saved (authorised login s) slot
unfolding logged_in
logged_in-running slot s login going = rw going refl

-- When the session of an instance expires, its file is gone and nothing more is sent, whether the
-- instance was logged in by this process or restored, and whatever becomes of the new login.
pub session_expired-erases :
    (slot : Slot) (s : Instance) (login : Option LoginPending)
    → Erased (run_excepted (session_expired login) s slot)
      × Erased (online_excepted (session_expired login) s slot)
unfolding run_excepted online_excepted
session_expired-erases slot s login =
    (erased slot s login, erased slot (record s { reporting = false }) login)

-- If no new login can be had at the moment when the session of a restored online instance expires,
-- the instance is stuck: it is reported online, every later `start` leaves it as it is, and it
-- sends nothing.
pub session_expired-stuck :
    (slot : Slot) (s : Instance) (login : Option LoginPending) (reply_to : Option String)
    (content : String) (attachments : List (Option String))
    → s.status ≡ Status.online
    → let slot' = online_excepted (session_expired none) s slot in
      ((status slot').status ≡ Status.online)
      × (start login slot' ≡ (slot', answered (status slot')))
      × (send slot' reply_to content attachments ≡ none)
unfolding online_excepted rotate_login start status send
session_expired-stuck slot s login reply_to content attachments online =
    elim (Bool-cases s.stopped) [
      | inl t ↦ rw (t, online) (refl, refl, refl)
      | inr f ↦ rw (f, online) (refl, refl, refl)
    ]

-- A task that scheduled its successor and is still reporting when that successor has logged in
-- takes the instance, which nobody stopped, offline when it ends: the new session cannot be used
-- for sending.
run_finally-late :
    (slot : Slot) (s : Instance) (login : LoginSuccess) (reply_to : Option String)
    (content : String) (attachments : List (Option String))
    → s.stopped ≡ false
    → (s' : Instance) × ((logged_in login s slot).live ≡ some s')
      × (s'.status ≡ Status.online)
      × (send (run_finally s' (logged_in login s slot)) reply_to content attachments ≡ none)
unfolding run_finally send
run_finally-late slot s login reply_to content attachments going =
    let s' = authorised login s in
    (s', rw (logged_in-running slot s login going) (save_state-live s' (put s' slot)), refl, refl)
