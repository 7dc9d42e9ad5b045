-- ===== src/Chat/Fence.antt =====
-- The fence of a message: rows for which services.py makes no further call of a client.
use multi_channel_ai_gateway.Base.{
  ℕ, String, Bool, true, false, ◌&&◌, ◌||◌, Option, none, some, List, [], ◌∷◌, ◌≡◌, refl, ◌==◌, inl,
  inr, is_just, Bool-cases, arith, eq_iff, All, All-update, update_where,
}
use multi_channel_ai_gateway.Models.{MessageStatus}
use multi_channel_ai_gateway.Chat.Rows.{
  ChatMessage, ChatDb, save_chat, has_message_id, is_sent, is_queued,
}
use multi_channel_ai_gateway.Chat.Merge.{
  merge_pending_messages, mark_merged, claim_siblings, sibling_ids, listed_id,
  release_merged_messages, restore_merged_messages, is_released, merged_with,
}
use multi_channel_ai_gateway.Chat.Deliver.{is_started}
use multi_channel_ai_gateway.Chat.Process.{is_merged, merged_value}

-- A call has been started, or the reply is out, or another message's reply covers this one.
abbrev pub is_fenced : ChatMessage → Bool
is_fenced row = is_started row || (is_sent row.status || is_merged row)

abbrev pub FencedAs : String → ChatMessage → Type 0
FencedAs id row = (row.id == id) ≡ true → is_fenced row ≡ true

abbrev pub Fence : String → List ChatMessage → Type 0
Fence id messages = All (FencedAs id) messages

-- Writing a row that is fenced, if it is the message's own, keeps the fence.
pub save-Fence :
    (id : String) (row : ChatMessage) (db : ChatDb)
    → FencedAs id row
    → Fence id db.messages
    → Fence id (save_chat row db).messages
save-Fence id row db new h =
    All-update (FencedAs id) (has_message_id row.id) (λ _. row) db.messages (λ a p old. new) h

-- Writing a fenced row raises the fence of its message, whatever the rows were.
pub save_own-Fence :
    (row : ChatMessage) (messages : List ChatMessage)
    → is_fenced row ≡ true
    → Fence row.id (update_where (has_message_id row.id) (λ _. row) messages)
unfolding update_where
save_own-Fence row [] fenced = tt
save_own-Fence row (m ∷ ms) fenced = (
  elim (Bool-cases (m.id == row.id)) [
    | inl y ↦ rw y (λ h. fenced)
    | inr f ↦ rw f (λ h. absurd (cc (f, h)))
  ],
  save_own-Fence row ms fenced,
)

or_last : (a b : Bool) → (a || (b || true)) ≡ true
or_last true b = refl
or_last false true = refl
or_last false false = refl

pub or_middle : (a b : Bool) → (a || (true || b)) ≡ true
or_middle true b = refl
or_middle false b = refl

pub and-right : (a b : Bool) → (a && b) ≡ true → b ≡ true
and-right true b h = h
and-right false b h = absurd (cc h)

merged_named :
    (row : ChatMessage) (id : String)
    → (id == "") ≡ false
    → is_merged (record row { merged_into = some id }) ≡ true
merged_named row id named = rw named refl

merged-is_merged :
    (o : Option String) (j : String)
    → (j == "") ≡ false
    → is_just o j ≡ true
    → merged_value o ≡ true
merged-is_merged none j named h = absurd (cc h)
merged-is_merged (some x) j named h = ground (arith, eq_iff x j, eq_iff x "", eq_iff j "")

-- A queued message is not sent, so that processing it instead keeps the fence.
pub claimed_fenced :
    (s : MessageStatus) (d g : Bool)
    → is_queued s ≡ true
    → (d || (is_sent s || g)) ≡ true
    → (d || (is_sent MessageStatus.processing || g)) ≡ true
claimed_fenced MessageStatus.queued d g h k = k
claimed_fenced MessageStatus.received d g h k = absurd (cc h)
claimed_fenced _ d g h k = absurd (cc h)

merge-Fence :
    (id : String) (row : ChatMessage) (ids : List String) (messages : List ChatMessage)
    → (row.id == "") ≡ false
    → Fence id messages
    → Fence id (mark_merged row.id ids (claim_siblings ids messages))
unfolding mark_merged claim_siblings
merge-Fence id row ids messages named h =
    All-update (FencedAs id) (listed_id ids) (λ m. record m { merged_into = some row.id })
      (update_where (λ m. listed_id ids m && is_queued m.status)
        (λ m. record m { status = MessageStatus.processing }) messages)
      (λ a p old own. rw (merged_named a row.id named) (or_last (is_started a) (is_sent a.status)))
      (All-update (FencedAs id) (λ m. listed_id ids m && is_queued m.status)
        (λ m. record m { status = MessageStatus.processing }) messages
        (λ a p old own.
          claimed_fenced a.status (is_started a) (is_merged a)
            (and-right (listed_id ids a) (is_queued a.status) p) (old own))
        h)

pub merge_pending-Fence :
    (id : String) (row : ChatMessage) (limit : ℕ) (messages : List ChatMessage)
    → (row.id == "") ≡ false
    → Fence id messages
    → Fence id (merge_pending_messages row limit (λ m. m) messages)
unfolding merge_pending_messages
merge_pending-Fence id row limit messages named h =
    merge-Fence id row (sibling_ids row limit messages) messages named h

pub release-Fence :
    (id : String) (row : ChatMessage) (messages : List ChatMessage)
    → Fence id messages
    → Fence id (release_merged_messages row messages)
unfolding release_merged_messages
release-Fence id row messages h =
    All-update (FencedAs id) (is_released row)
      (λ m. record m { status = MessageStatus.sent; error = none }) messages
      (λ a p old own. or_middle (is_started a) (is_merged a)) h

pub restore-Fence :
    (id j : String) (messages : List ChatMessage)
    → (j == "") ≡ false
    → Fence id messages
    → Fence id (restore_merged_messages j messages)
unfolding restore_merged_messages
restore-Fence id j messages named h =
    All-update (FencedAs id) (merged_with j) (λ m. record m { status = MessageStatus.queued })
      messages
      (λ a p old own. rw (merged-is_merged a.merged_into j named p) (or_last (is_started a) false))
      h
