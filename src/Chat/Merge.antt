-- ===== src/Chat/Merge.antt =====
-- src/wecom_ai_gateway/services.py: messages of one conversation that are answered together.
-- `others` is what other workers commit between the query and the update.
use multi_channel_ai_gateway.Base.{
  ℕ, String, Bool, false, not, ◌&&◌, ◌||◌, none, some, List, [], ◌∷◌, ◌==◌, is_just, take, map,
  select_where, update_where,
}
use multi_channel_ai_gateway.Models.{MessageStatus}
use multi_channel_ai_gateway.Chat.Rows.{ChatMessage, is_queued, is_in_process, same_value}

abbrev pub same_chat : ChatMessage → ChatMessage → Bool
same_chat row m =
    same_value m.conversation_id row.conversation_id && same_value m.user_id row.user_id

abbrev pub is_sibling : ChatMessage → ChatMessage → Bool
is_sibling row m = same_chat row m && (is_queued m.status && not (m.id == row.id))

unfoldable pub listed_id : List String → ChatMessage → Bool
listed_id [] m = false
listed_id (id ∷ ids) m = (m.id == id) || listed_id ids m

unfoldable pub sibling_ids : ChatMessage → ℕ → List ChatMessage → List String
sibling_ids row limit messages =
    map (λ m. m.id) (take limit (select_where (is_sibling row) messages))

unfoldable pub claim_siblings : List String → List ChatMessage → List ChatMessage
unfolding listed_id
claim_siblings ids messages =
    update_where (λ m. listed_id ids m && is_queued m.status)
      (λ m. record m { status = MessageStatus.processing }) messages

unfoldable pub mark_merged : String → List String → List ChatMessage → List ChatMessage
unfolding listed_id
mark_merged id ids messages =
    update_where (listed_id ids) (λ m. record m { merged_into = some id }) messages

-- The number that is returned is only logged.
unfoldable pub merge_pending_messages :
    ChatMessage → ℕ → (List ChatMessage → List ChatMessage) → List ChatMessage → List ChatMessage
merge_pending_messages row limit others messages =
    let ids = sibling_ids row limit messages in
    mark_merged row.id ids (claim_siblings ids (others messages))

abbrev pub is_released : ChatMessage → ChatMessage → Bool
is_released row m = same_chat row m && (is_in_process m.status && not (m.id == row.id))

unfoldable pub release_merged_messages : ChatMessage → List ChatMessage → List ChatMessage
release_merged_messages row messages =
    update_where (is_released row) (λ m. record m { status = MessageStatus.sent; error = none })
      messages

abbrev pub merged_with : String → ChatMessage → Bool
merged_with id m = is_just m.merged_into id

unfoldable pub restore_merged_messages : String → List ChatMessage → List ChatMessage
restore_merged_messages id messages =
    update_where (merged_with id) (λ m. record m { status = MessageStatus.queued }) messages
