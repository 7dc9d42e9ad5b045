-- ===== src/Binding/Examples.antt =====
-- Runs of binding.py on two users.
use multi_channel_ai_gateway.Base.{
  String, true, select_where, delete_where, ◌≤◌, false, ◌&&◌, none, some, [], ◌∷◌, ◌≡◌, refl, ◌==◌,
  ltb, arith, count_where, find,
}
use multi_channel_ai_gateway.Base.Text.{strip}
use multi_channel_ai_gateway.Accounts.Rows.{AuthDb}
use multi_channel_ai_gateway.Binding.Tables.{BindCode, BindDb, named_by}
use multi_channel_ai_gateway.Binding.Merge.{
  merge_into, merge_stats, hand_over, moved_items, dropped_items, give_chunks, chunk_owned_by,
  clashes,
}
use multi_channel_ai_gateway.Binding.Codes.{merge_and_delete, resolve_bind}
use multi_channel_ai_gateway.Binding.Chunks.{lists_id, chunks_of_item}
use multi_channel_ai_gateway.Binding.Merged.{Empty, accounts_of, merge_into-Empty, merge_into-cards}
use multi_channel_ai_gateway.Binding.OneTime.{Refused, code_for, resolve_bind-once}

abbrev auth : AuthDb
auth = record {
  users =
      record { id = "a"; is_blocked = false; mode = none }
      ∷ record { id = "b"; is_blocked = false; mode = none }
      ∷ [];
  accounts = [];
  sessions = [];
  challenges = [];
  credentials = [];
  reset_tokens = [];
  activation_tokens = [];
}

abbrev code : BindCode
code = record { code = "c0de"; user_id = "a"; expires_at = 600 }

abbrev db : BindDb
db = record {
  auth = auth;
  codes = code ∷ [];
  identities = record { user_id = "b"; channel = "wecom_kf"; account_id = "kf" } ∷ [];
  messages =
      record { id = "m1"; user_id = some "a" } ∷ record { id = "m2"; user_id = some "b" } ∷ [];
  conversations = [];
  memories = [];
  providers = [];
  instances = [];
  usage = [];
  cards =
      record { id = "k1"; user_id = "a"; name = "cat" }
      ∷ record { id = "k2"; user_id = "b"; name = "cat" }
      ∷ [];
  presets = [];
  policies = [];
  overrides = [];
  items = record { id = "d1"; user_id = "b"; name = "notes" } ∷ [];
  chunks = record { item_id = "d1"; user_id = "b" } ∷ [];
}

moved_chunk :
    count_where (λ c. (c.item_id == "d1") && chunk_owned_by "a" c) (merge_into "b" "a" db).0.chunks
    ≡ 1
unfolding merge_into hand_over moved_items dropped_items give_chunks select_where find clashes
    count_where delete_where
moved_chunk = refl

merge_into-Empty_example :
    Empty "b" (accounts_of "b" db) (merge_into "b" "a" db).0
    × ((id : String)
        → lists_id id (moved_items "b" "a" db.items) ≡ true
        → lists_id id (dropped_items "b" "a" db.items) ≡ false
        → count_where
            (λ c. (c.item_id == id) && chunk_owned_by "a" c)
            (merge_into "b" "a" db).0.chunks
          ≡ chunks_of_item id db.chunks)
merge_into-Empty_example = merge_into-Empty "b" "a" db refl

merge_into-cards_example :
    count_where (λ c. named_by "a" c && (c.name == "cat")) (merge_into "b" "a" db).0.cards ≤ 1
unfolding count_where
merge_into-cards_example = merge_into-cards "b" "a" "cat" db (omega arith) (omega arith)

abbrev bound : BindDb
bound = (merge_and_delete code "b" "a" db).0

resolve_bind-once_example :
    Refused bound "c0de"
    × ((row : BindCode) × (code_for db "c0de" ≡ some row)
        × (ltb row.expires_at 100 ≡ false)
        × ((row.user_id == "b") ≡ false)
        × (bound ≡ (merge_and_delete row "b" row.user_id db).0))
unfolding resolve_bind merge_and_delete merge_into find strip
resolve_bind-once_example =
    resolve_bind-once 100 db bound "c0de" "b" "wecom_kf" "kf" (merge_stats "b" "a" db) refl
