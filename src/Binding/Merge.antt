-- ===== src/Binding/Merge.antt =====
-- src/wecom_ai_gateway/binding.py: `_merge_into`.
-- Of the rows that the database removes by itself, by the foreign keys of a deleted row, those are
-- modelled that belong to the tables here.
use multi_channel_ai_gateway.Base.{
  ℕ, String, Bool, ◌&&◌, not, Option, none, false, some, List, [], ◌∷◌, ◌==◌, is_some, is_just,
  if◌then◌else◌, find, select_where, delete_where, update_where, count_where,
}
use multi_channel_ai_gateway.Accounts.Rows.{Account, MfaCredential, AuthDb, user_has_id}
use multi_channel_ai_gateway.Accounts.Mfa.{mem}
use multi_channel_ai_gateway.Binding.Tables.{
  Owned, Named, ChannelIdentity, KnowledgeChunk, CommandPolicy, SettingOverride, BindDb, owned_by,
  named_by, identity_of, policy_of, override_of, same_name, same_policy, same_override,
}

-- Handing over the rows of a table whose unique key holds the user: a row of the source whose key
-- the target has is deleted, and the others of the source get the new owner. `all` is the table as
-- it was before.
module _ {ℓ} {A : Type ℓ} (owns : String → A → Bool) (same : A → A → Bool)
    (give : String → A → A) where
  unfoldable pub clashes : String → List A → A → Bool
  clashes target all r = is_some (find (λ t. owns target t && same t r) all)

  unfoldable pub handed_over : String → String → List A → List A → List A
  handed_over source target all [] = []
  handed_over source target all (r ∷ rs) =
      let rest = handed_over source target all rs in
      if owns source r
      then (if clashes target all r then rest else give target r ∷ rest)
      else r ∷ rest

  unfoldable pub count_moved : String → String → List A → ℕ
  count_moved source target rows =
      count_where (λ r. owns source r && not (clashes target rows r)) rows

abbrev pub give_owned : String → Owned → Owned
give_owned user r = record r { user_id = some user }

abbrev pub give_named : String → Named → Named
give_named user r = record r { user_id = user }

abbrev pub give_identity : String → ChannelIdentity → ChannelIdentity
give_identity user r = record r { user_id = user }

abbrev pub give_policy : String → CommandPolicy → CommandPolicy
give_policy user r = record r { user_id = some user }

abbrev pub give_override : String → SettingOverride → SettingOverride
give_override user r = record r { scope_id = user }

abbrev pub move_owned : String → String → List Owned → List Owned
move_owned source target = update_where (owned_by source) (give_owned target)

-- The ids of the items that get the new owner.
unfoldable pub moved_items : String → String → List Named → List Named
moved_items source target items =
    select_where
      (λ r. named_by source r && not (clashes named_by same_name give_named target items r)) items

-- The ids of the items that are deleted, whose chunks the foreign key takes along.
unfoldable pub dropped_items : String → String → List Named → List Named
dropped_items source target items =
    select_where (λ r. named_by source r && clashes named_by same_name give_named target items r)
      items

abbrev pub has_item : List Named → KnowledgeChunk → Bool
has_item items c = is_some (find (λ i. i.id == c.item_id) items)

abbrev pub chunk_owned_by : String → KnowledgeChunk → Bool
chunk_owned_by user c = c.user_id == user

abbrev pub give_chunk : String → List Named → KnowledgeChunk → KnowledgeChunk
give_chunk user moved c = if has_item moved c then record c { user_id = user } else c

unfoldable pub give_chunks : String → List Named → List KnowledgeChunk → List KnowledgeChunk
give_chunks user moved [] = []
give_chunks user moved (c ∷ cs) = give_chunk user moved c ∷ give_chunks user moved cs

abbrev pub account_ids : List Account → List String
account_ids [] = []
account_ids (a ∷ rest) = a.id ∷ account_ids rest

abbrev pub of_accounts : List String → MfaCredential → Bool
of_accounts ids c = (c.subject_type == "account") && mem c.subject_id ids

abbrev pub names_account : List String → Option String → Bool
names_account ids none = false
names_account ids (some id) = mem id ids

abbrev pub account_of_user : String → Account → Bool
account_of_user user a = a.user_id == user

-- The accounts, the sessions and the user itself. With an account the foreign keys take its sessions,
-- challenges and reset tokens along, and with the user its one-time tokens.
unfoldable pub erase_user : String → AuthDb → AuthDb
erase_user source db =
    let ids = account_ids (select_where (account_of_user source) db.accounts) in
    record db {
      sessions =
          delete_where (λ s. names_account ids s.account_id)
            (delete_where (λ s. is_just s.user_id source) db.sessions);
      challenges =
          delete_where (λ c. names_account ids c.account_id)
            (delete_where (λ c. is_just c.user_id source) db.challenges);
      credentials = delete_where (of_accounts ids) db.credentials;
      accounts = delete_where (account_of_user source) db.accounts;
      users = delete_where (user_has_id source) db.users;
      reset_tokens =
          delete_where (λ t. mem t.account_id ids)
            (delete_where (λ t. t.user_id == source) db.reset_tokens);
      activation_tokens = delete_where (λ t. t.user_id == source) db.activation_tokens;
    }

-- `memories` is never counted by the code.
pub record Stats : Type 0 where
  pub identities : ℕ
  pub messages : ℕ
  pub memories : ℕ
  pub cards : ℕ
  pub presets : ℕ

unfoldable pub merge_stats : String → String → BindDb → Stats
merge_stats source target db = record {
  identities = count_where (identity_of source) db.identities;
  messages = count_where (owned_by source) db.messages;
  memories = 0;
  cards = count_moved named_by same_name give_named source target db.cards;
  presets = count_moved named_by same_name give_named source target db.presets;
}

unfoldable pub hand_over : String → String → BindDb → BindDb
unfolding erase_user
hand_over source target db = record {
  auth = erase_user source db.auth;
  codes = db.codes;
  identities = update_where (identity_of source) (give_identity target) db.identities;
  messages = move_owned source target db.messages;
  conversations = move_owned source target db.conversations;
  memories = move_owned source target db.memories;
  providers = move_owned source target db.providers;
  instances = move_owned source target db.instances;
  usage = move_owned source target db.usage;
  cards = handed_over named_by same_name give_named source target db.cards db.cards;
  presets = handed_over named_by same_name give_named source target db.presets db.presets;
  policies = handed_over policy_of same_policy give_policy source target db.policies db.policies;
  overrides =
      handed_over override_of same_override give_override source target db.overrides db.overrides;
  items = handed_over named_by same_name give_named source target db.items db.items;
  chunks = delete_where (chunk_owned_by source) (
      delete_where (has_item (dropped_items source target db.items))
        (give_chunks target (moved_items source target db.items) db.chunks));
}

-- `_merge_into`
unfoldable pub merge_into : String → String → BindDb → BindDb × Stats
unfolding hand_over merge_stats
merge_into source target db = (hand_over source target db, merge_stats source target db)
