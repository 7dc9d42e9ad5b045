-- ===== src/Binding/Merged.antt =====
-- `_merge_into` of binding.py: what it leaves behind, and what the target has afterwards.
use multi_channel_ai_gateway.Base.{
  delete_where, select_where, ◌+◌, ◌≤◌, String, true, false, ◌&&◌, none, List, ◌≡◌, refl, inl, inr,
  ◌==◌, is_just, find, count_where, Bool-cases, Option-cases, eq_iff, ==-refl, ==-eq,
  count-delete_self, find-delete_self, length, length-update,
}
use multi_channel_ai_gateway.Accounts.Rows.{user_has_id}
use multi_channel_ai_gateway.Binding.Tables.{
  Owned, Named, SettingOverride, BindDb, owned_by, named_by, identity_of, policy_of, override_of,
  same_name, same_policy, same_override,
}
use multi_channel_ai_gateway.Binding.Merge.{
  merge_into, hand_over, merge_stats, erase_user, give_owned, give_named, give_identity,
  give_policy, give_override, move_owned, handed_over, account_of_user, account_ids, names_account,
  of_accounts, chunk_owned_by, has_item, dropped_items, moved_items, give_chunks,
}
use multi_channel_ai_gateway.Accounts.Mfa.{mem}
use multi_channel_ai_gateway.Binding.Rows.{
  handed_over-source, handed_over_unique, count-update_away, count-update_gain,
}
use multi_channel_ai_gateway.Binding.Chunks.{
  count-delete_twice, chunks_of_item, lists_id, given_chunks,
}

-- Nothing belongs to the user, nor to the accounts with these ids. Bind codes, which name no user by
-- a foreign key, are left out.
pub record Empty (user : String) (ids : List String) (db : BindDb) : Type 0 where
  pub identities : count_where (identity_of user) db.identities ≡ 0
  pub messages : count_where (owned_by user) db.messages ≡ 0
  pub conversations : count_where (owned_by user) db.conversations ≡ 0
  pub memories : count_where (owned_by user) db.memories ≡ 0
  pub providers : count_where (owned_by user) db.providers ≡ 0
  pub instances : count_where (owned_by user) db.instances ≡ 0
  pub usage : count_where (owned_by user) db.usage ≡ 0
  pub cards : count_where (named_by user) db.cards ≡ 0
  pub presets : count_where (named_by user) db.presets ≡ 0
  pub policies : count_where (policy_of user) db.policies ≡ 0
  pub overrides : count_where (override_of user) db.overrides ≡ 0
  pub items : count_where (named_by user) db.items ≡ 0
  pub accounts : count_where (account_of_user user) db.auth.accounts ≡ 0
  pub sessions : count_where (λ s. is_just s.user_id user) db.auth.sessions ≡ 0
  pub challenges : count_where (λ c. is_just c.user_id user) db.auth.challenges ≡ 0
  pub chunks : count_where (chunk_owned_by user) db.chunks ≡ 0
  pub account_sessions : count_where (λ s. names_account ids s.account_id) db.auth.sessions ≡ 0
  pub account_challenges : count_where (λ c. names_account ids c.account_id) db.auth.challenges ≡ 0
  pub credentials : count_where (of_accounts ids) db.auth.credentials ≡ 0
  pub reset_tokens : count_where (λ t. t.user_id == user) db.auth.reset_tokens ≡ 0
  pub account_reset_tokens : count_where (λ t. mem t.account_id ids) db.auth.reset_tokens ≡ 0
  pub activation_tokens : count_where (λ t. t.user_id == user) db.auth.activation_tokens ≡ 0
  pub user_row : find (user_has_id user) db.auth.users ≡ none

-- The ids of the accounts that a user has.
abbrev pub accounts_of : String → BindDb → List String
accounts_of user db = account_ids (select_where (account_of_user user) db.auth.accounts)

module _ (source target : String) (db : BindDb) (apart : (target == source) ≡ false) where
  moved_empty :
      (rows : List Owned) → count_where (owned_by source) (move_owned source target rows) ≡ 0
  moved_empty rows = count-update_away (owned_by source) (give_owned target) rows (λ a. apart)

  named_empty :
      (rows : List Named)
      → count_where
          (named_by source)
          (handed_over named_by same_name give_named source target rows rows)
        ≡ 0
  named_empty rows =
      handed_over-source named_by same_name give_named source target (λ r. apart) rows rows

  not_source : (r : SettingOverride) → override_of source (give_override target r) ≡ false
  not_source r = elim (Bool-cases (r.scope_type == "user")) [
    | inl u ↦ rw (u, apart) refl
    | inr o ↦ rw o refl
  ]

  source-Empty : Empty source (accounts_of source db) (merge_into source target db).0
  unfolding merge_into hand_over erase_user
  source-Empty = record {
    identities =
        count-update_away (identity_of source) (give_identity target) db.identities (λ a. apart);
    messages = moved_empty db.messages;
    conversations = moved_empty db.conversations;
    memories = moved_empty db.memories;
    providers = moved_empty db.providers;
    instances = moved_empty db.instances;
    usage = moved_empty db.usage;
    cards = named_empty db.cards;
    presets = named_empty db.presets;
    policies =
        handed_over-source policy_of same_policy give_policy source target (λ r. apart) db.policies
          db.policies;
    overrides =
        handed_over-source override_of same_override give_override source target not_source
          db.overrides db.overrides;
    items = named_empty db.items;
    accounts = count-delete_self (account_of_user source) db.auth.accounts;
    sessions =
        count-delete_twice (λ s. is_just s.user_id source)
          (λ s. names_account (accounts_of source db) s.account_id) db.auth.sessions;
    challenges =
        count-delete_twice (λ c. is_just c.user_id source)
          (λ c. names_account (accounts_of source db) c.account_id) db.auth.challenges;
    chunks = count-delete_self (chunk_owned_by source) (
        delete_where (has_item (dropped_items source target db.items))
          (give_chunks target (moved_items source target db.items) db.chunks));
    account_sessions =
        count-delete_self (λ s. names_account (accounts_of source db) s.account_id)
          (delete_where (λ s. is_just s.user_id source) db.auth.sessions);
    account_challenges =
        count-delete_self (λ c. names_account (accounts_of source db) c.account_id)
          (delete_where (λ c. is_just c.user_id source) db.auth.challenges);
    credentials = count-delete_self (of_accounts (accounts_of source db)) db.auth.credentials;
    reset_tokens =
        count-delete_twice (λ t. t.user_id == source)
          (λ t. mem t.account_id (accounts_of source db)) db.auth.reset_tokens;
    account_reset_tokens =
        count-delete_self (λ t. mem t.account_id (accounts_of source db))
          (delete_where (λ t. t.user_id == source) db.auth.reset_tokens);
    activation_tokens = count-delete_self (λ t. t.user_id == source) db.auth.activation_tokens;
    user_row = find-delete_self (user_has_id source) db.auth.users;
  }

  -- In the tables of the model, a merge leaves nothing to the source but its bind codes: what it had
  -- is handed over or deleted, and its accounts with their second factors, its sessions, challenges
  -- and one-time tokens, and the user are gone. The chunks of a document that is handed over all come
  -- along: as many belong to the target as the document had. The two users must differ, and for the
  -- last part no document that is deleted has the document's id.
  pub merge_into-Empty :
      Empty source (accounts_of source db) (merge_into source target db).0
      × ((id : String)
          → lists_id id (moved_items source target db.items) ≡ true
          → lists_id id (dropped_items source target db.items) ≡ false
          → count_where
              (λ c. (c.item_id == id) && chunk_owned_by target c)
              (merge_into source target db).0.chunks
            ≡ chunks_of_item id db.chunks)
  unfolding merge_into hand_over
  merge_into-Empty = (
    source-Empty,
    λ id m d.
        given_chunks source target id (moved_items source target db.items)
          (dropped_items source target db.items) apart m d db.chunks,
  )

  apart_rows : (r : Owned) → owned_by source r ≡ true → owned_by target r ≡ false
  apart_rows r h = elim (Option-cases r.user_id) [
    | inl n ↦ rw n refl
    | inr (u, e) ↦ elim (Bool-cases (u == target)) [
      | inr f ↦ rw (e, f) refl
      | inl y ↦
          let is_source : (u == source) ≡ true = rw e at h in
          let same : target ≡ source = cc (==-eq u target y, ==-eq u source is_source) in
          absurd (cc ((eq_iff target source).1 same, apart))
    ]
  ]

  -- No message is lost: their number stays, the reported number is what the source had, and the
  -- target has its own and those.
  merge_into_messages :
      let (db', stats) = merge_into source target db in
      (length db'.messages ≡ length db.messages)
      × (stats.messages ≡ count_where (owned_by source) db.messages)
      × (count_where (owned_by target) db'.messages
          ≡ count_where (owned_by target) db.messages + stats.messages)
  unfolding merge_into hand_over merge_stats
  merge_into_messages = (
    length-update (owned_by source) (give_owned target) db.messages,
    refl,
    count-update_gain (owned_by source) (owned_by target) (give_owned target) db.messages apart_rows
        (λ a. ==-refl target),
  )

-- A merge makes no duplicate: if each of the two users has at most one card of a name before, then
-- the target has at most one card of that name after the merge.
pub merge_into-cards :
    (source target name : String) (db : BindDb)
    → count_where (λ c. named_by target c && (c.name == name)) db.cards ≤ 1
    → count_where (λ c. named_by source c && (c.name == name)) db.cards ≤ 1
    → count_where (λ c. named_by target c && (c.name == name)) (merge_into source target db).0.cards
      ≤ 1
unfolding merge_into hand_over
merge_into-cards source target name db one_target one_source =
    handed_over_unique named_by same_name give_named source target (λ c. c.name == name)
      (λ t r h. rw (==-eq r.name name h) refl) (λ r. (==-refl target, refl)) db.cards one_target
      one_source
