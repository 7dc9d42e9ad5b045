-- ===== src/Lib.antt =====
-- Verification library of the multi-channel AI gateway: chat channels in front of language models,
-- with users, accounts and a persistent task queue.
--
-- The program stores everything in one SQL database. A module here models the tables that a Python
-- module touches as a record of lists of rows, and each function of that module as a function from
-- that record to that record. `Base/Table.antt` holds the statements that SQLAlchemy sends: a query
-- for one row, an update, a delete and a count. A commit ends each function, so a function is one
-- transaction; where another worker can commit in between, its effect is a parameter.
--
-- Times are natural numbers of seconds. The clock, fresh identifiers and random tokens are arguments.
-- What the code takes from libraries (SHA-256, HMAC-SHA-1, Fernet encryption, scrypt, the Unicode
-- tables, the settings) is the record `Platform`, of which nothing is assumed. Identifiers are never
-- the empty text, which Python would treat like a missing one.
--
-- Outbox (src/wecom_ai_gateway/tasks.py)
--   Outbox/Tasks      `add_task`, `create_sync_task`, `add_message_task`
--   Outbox/Lease      `claim_task`, `renew_task_lease`; `lock_task` is the conditional update
--   Outbox/Finish     `complete_task`, `fail_task`; `retry_delay` is the back-off
--   Outbox/Repair     `replay_task`, `reconcile_message_tasks`
--   Outbox/Steps      the transactions as a step relation, for any number of workers in any order
--   Outbox/Invariant, Reachable, Leases, Retry, Claim, Reconcile, Outcomes   proofs
--   Not modelled: `distributed_lock`, which is a lock in Redis. The call of `notify_worker` is a
--   counter, since the code ignores its outcome.
--
-- Accounts (auth.py, mfa.py, totp.py, password_reset.py, account_activation.py)
--   Accounts/Rows     the tables, and `Platform`
--   Accounts/Totp     `totp_code`, `verify_totp`, `recovery_code_hash`
--   Accounts/Mfa      subjects, `create_challenge`, `live_challenge` (`_challenge`), `second_factor`
--   Accounts/Factor   `consume_challenge`, `save_pending_secret`, `enable_credential`,
--                     `verify_second_factor`, `remove_credential`
--   Accounts/Auth     `authenticate_password`, `login`, `principal_from_bearer`, `revoke_session`
--   Accounts/Tokens   password reset and account activation
--   Accounts/Replay, Attempts, Sessions, OneTime, Activation   proofs
--   `login` is the service; the endpoint around it is in Login.
--
-- Bridge (bridge/src/clawbot_bridge/runtime.py, with state.py)
--   Bridge/State      one instance as a `Slot`: its entry of `_instances` and its session file
--   Bridge/Runtime    `start`, `stop`, `status`, `send`, `restore_all` for one session file
--   Bridge/Handlers   what the background tasks do between two awaits: after a login, on a message,
--                     in the `except` clauses (with `_rotate_login`) and in the `finally` clause
--   Bridge/Steps      requests and tasks as a step relation, in any order; a `World` has besides the
--                     slot the instances that `start` replaced while a task of theirs was running
--   Bridge/Saved, Sessions, Agree, Lasting, Expiry   proofs
--   Instances do not touch each other, so one is modelled. What `start_login` gives, or that it
--   raises, is an argument. Not modelled: the reports to the gateway and their retries.
--
-- Binding (src/wecom_ai_gateway/binding.py)
--   Binding/Tables    the tables that belong to a user; a row keeps the columns that the code reads
--   Binding/Merge     `merge_into` (`_merge_into`) and its numbers
--   Binding/Codes     `create_bind_code`, `resolve_bind`, `merge_by_code`
--   Binding/Rows, Chunks, Merged, OneTime   proofs
--   Of what foreign keys delete by themselves, the rows of the tables here are modelled. Bind codes have
--   no foreign key. Not modelled: the preview of a merge.
--
-- Policy (policy.py)
--   Policy/Decision   `resolve_user_mode`, `get_command_decision`
--   Policy/Best, Specific   proofs
--   It reads the `CommandPolicy` rows that Binding/Tables declares. Not modelled: `normalize_command`.
--
-- Routing (model_routing.py)
--   Routing/Routes    `active_routes`, `complete_with_routing`; the call of a provider is a parameter
--   Routing/Failover  proofs
--
-- ChannelHealth (channel_health.py)
--   ChannelHealth/Status        `_safe_state`, `apply_channel_status`, `reconcile_channel_instance`
--   ChannelHealth/Transitions   proofs
--   Alerts are tasks of the outbox, which Outbox/Tasks models.
--
-- RuntimeSettings (runtime_settings.py, with tool_execution.py:`parse_tool_allowlist`)
--   RuntimeSettings/Value     the values of a JSON column; a float counts by the integer of `int`
--   RuntimeSettings/Specs     `SPECS`, `SPEC_BY_KEY`, `OVERRIDABLE_KEYS`, less the texts for display
--   RuntimeSettings/Coerce    `_coerce`, `_db_key`, `_to_stored`, `_from_stored`
--   RuntimeSettings/Store     `get_runtime_value` with the cache of a session, `get_effective_value`,
--                             `set_override`, `remove_override`
--   RuntimeSettings/Update    `update_settings`, `settings_view`
--   RuntimeSettings/Cache     the operations of one session as a sequence, with and without its cache
--   RuntimeSettings/OneSession, Refinement, Rows, Stable, Saved, RoundTrip, Mode, Fallback, Secret
--                             proofs
--   `int` on texts, the attributes of the settings object and the encryption are the record
--   `SettingsEnv`. Policy reads the row that the setting `platform_mode` writes.
--   Not modelled: what another session writes while a session keeps its cache.
--
-- Chat (services.py)
--   Chat/Rows      inbound and outbound messages, identities, and the calls made so far
--   Chat/Split     `_split_reply`
--   Chat/Merge     `_merge_pending_messages`, `_release_merged_messages`, `_restore_merged_messages`
--   Chat/Calls     the calls of a channel's client, each of which may return, raise or end the process
--   Chat/Deliver   `_deliver_reply`, the QR code branch, the last part of `process_message`
--   Chat/Process   `process_message` with its handler; what the commands and the model return in one
--                  run is given as a `Run`, so a statement for all runs holds whatever they do
--   Chat/Steps     runs, arrivals, deaths and replays of messages as a step relation
--   Chat/Pieces, Fence, Careful, Answers, Answered, OneRun, Once   proofs
--   A run is one step: the lock that worker.py takes for a message keeps its runs apart, and runs for
--   other messages are taken to happen before or after it. Merging takes what others commit in
--   between as a parameter. `_split_reply` runs on fuel, one round for each character, and a limit of
--   no characters, where the loop would not end, is a crash of the run. Not modelled: failures of the
--   database, ingestion, prompt assembly and quotas.
--
-- Login (main.py: `auth_login`, `auth_mfa_verify`; auth.py: the counters in Redis)
--   Login/Counters    `is_login_locked`, `record_login_failure` and their like for addresses; a key is
--                     a constructor, and while Redis is down every function does what its handler does
--   Login/Endpoints   the two endpoints
--   Login/Limit       sequences of requests, and proofs
--   Not modelled: the audit log.
--
-- Knowledge (knowledge.py)
--   Knowledge/Chunks   `_normalize_text` and `chunk_text`
--   Knowledge/Windows  the pieces before they are stripped, and proofs
--   Knowledge/Items    documents and chunk rows; `item_text`, `_index_item`, `add_item`, `delete_item`,
--                      `delete_item_by_id`, `reindex_item`; encryption and fingerprint are a `Cipher`
--   Knowledge/Legacy   `migrate_legacy_items`, `_ensure_chunks`
--   Knowledge/Stored, Index, Owed, Migration   proofs
--   Not modelled: the embeddings, the search, HTML and document files.
--
-- Retention (retention.py)
--   Retention          `cleanup_expired_data` over the outbox, the messages and the audit log
--   Retention/Removal, Cleanup   proofs
--
-- Where a query sorts, the model's table stands in the order of the query, except in Outbox/Lease.
-- Loops are structural recursion on lists, but for `_split_reply` and `chunk_text`, which run on fuel,
-- a round for each character and one more.
pub mod Base
pub mod Models
pub mod Outbox
pub mod Accounts
pub mod Bridge
pub mod Binding
pub mod Policy
pub mod Routing
pub mod ChannelHealth
pub mod RuntimeSettings
pub mod Chat
pub mod Login
pub mod Knowledge
pub mod Retention
