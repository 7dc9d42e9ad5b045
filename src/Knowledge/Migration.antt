-- ===== src/Knowledge/Migration.antt =====
-- Running `migrate_legacy_items` of knowledge.py again.
use multi_channel_ai_gateway.Base.{
  ℕ, String, false, ◌||◌, Option, none, some, List, [], ◌∷◌, ◌++◌, ◌==◌, ◌≡◌, refl, ap, ◌∙◌, arith,
  Bool-cases, inl, inr, ==-refl, update_where, count_where, length, All, eq_iff,
}
use multi_channel_ai_gateway.Knowledge.Chunks.{normalize_text}
use multi_channel_ai_gateway.Knowledge.Items.{
  KnowledgeItem, KnowledgeDb, Cipher, item_has_id, item_text, decrypted, index_chunks,
}
use multi_channel_ai_gateway.Knowledge.Legacy.{
  text_or, in_plain, stale_print, legacy_rows, migrated, migrate_row, migrate_rows,
  migrate_legacy_items, index_saved, save_item,
}
use multi_channel_ai_gateway.Knowledge.Owed.{
  legacy, Owed, late, All-implied, select-none, legacy_rows-Owed, none-Owed-settled,
}
use multi_channel_ai_gateway.Knowledge.Index.{chunk_text_total}

migrated-readable :
    (cipher : Cipher) (row : KnowledgeItem)
    → ((s : String) → cipher.decrypt_secret (cipher.encrypt_secret s) ≡ some s)
    → ((s : String) → (cipher.encrypt_secret s == "") ≡ false)
    → item_text cipher (migrated cipher row)
      ≡ normalize_text (text_or row.content (item_text cipher row))
unfolding migrated decrypted item_text
migrated-readable cipher row opens filled =
    let content = normalize_text (text_or row.content (item_text cipher row)) in
    rw (filled content, opens content) refl

-- A document that has been migrated is not among those that the next run migrates.
pub migrated-settled :
    (cipher : Cipher) (row : KnowledgeItem)
    → ((s : String) → cipher.decrypt_secret (cipher.encrypt_secret s) ≡ some s)
    → ((s : String) → (cipher.encrypt_secret s == "") ≡ false)
    → (in_plain (migrated cipher row) || stale_print cipher (migrated cipher row)) ≡ false
unfolding migrated stale_print
migrated-settled cipher row opens filled =
    let content = normalize_text (text_or row.content (item_text cipher row)) in
    ground (arith, migrated-readable cipher row opens filled, ==-refl (cipher.fingerprint content))

module _ (cipher : Cipher)
    (opens : (s : String) → cipher.decrypt_secret (cipher.encrypt_secret s) ≡ some s)
    (filled : (s : String) → (cipher.encrypt_secret s == "") ≡ false) where
  save-Owed :
      (row : KnowledgeItem) (rows items : List KnowledgeItem)
      → All (Owed cipher (row ∷ rows)) items
      → All (Owed cipher rows) (update_where (item_has_id row.id) (λ _. migrated cipher row) items)
  unfolding update_where count_where
  save-Owed row rows [] h = tt
  save-Owed row rows (x ∷ xs) (o, h) = (
    elim (Bool-cases (x.id == row.id)) [
      | inl y ↦ rw y (λ l. absurd (cc (l, migrated-settled cipher row opens filled)))
      | inr f ↦ rw f (λ l. ground (arith, o l, f, eq_iff x.id row.id, eq_iff row.id x.id))
    ],
    save-Owed row rows xs h,
  )

  migrate_row-indexed :
      (n : ℕ) (row : KnowledgeItem) (db : KnowledgeDb)
      → (chunks : List String) × (migrate_row cipher n row db
          ≡ some (
              index_chunks cipher
                (migrated cipher row)
                chunks
                (save_item (migrated cipher row) db)))
  unfolding migrate_row index_saved
  migrate_row-indexed n row db =
      let (chunks, e) =
        chunk_text_total (normalize_text (text_or row.content (item_text cipher row))) n in
      (chunks, index_found chunks e)
    where
      index_found :
          {found : Option (List String)} (chunks : List String)
          → found ≡ some chunks
          → index_saved cipher (migrated cipher row) found db
            ≡ some (
                index_chunks cipher
                  (migrated cipher row)
                  chunks
                  (save_item (migrated cipher row) db))
      index_found chunks e = rw e refl

  migrate_rows-next :
      (n : ℕ) (row : KnowledgeItem) (rows : List KnowledgeItem) (db db' : KnowledgeDb)
      → migrate_row cipher n row db ≡ some db'
      → migrate_rows cipher n (row ∷ rows) db ≡ migrate_rows cipher n rows db'
  unfolding migrate_rows
  migrate_rows-next n row rows db db' e =
      ap
        (λ (found : Option KnowledgeDb). elim found as (λ _. Option KnowledgeDb) [
          | none ↦ none
          | some d ↦ migrate_rows cipher n rows d
        ])
        e

  migrate_rows-settled :
      (n : ℕ) (rows : List KnowledgeItem) (db : KnowledgeDb)
      → All (Owed cipher rows) db.items
      → (db' : KnowledgeDb) × (migrate_rows cipher n rows db ≡ some db')
        × All (λ x. legacy cipher x ≡ false) db'.items
  unfolding migrate_rows index_chunks migrated
  migrate_rows-settled n [] db h = (db, refl, none-Owed-settled cipher db.items h)
  migrate_rows-settled n (row ∷ rows) db h =
      let (chunks, e) = migrate_row-indexed n row db in
      let item = migrated cipher row in
      let stored = index_chunks cipher item chunks (save_item item db) in
      let (db', done, settled) =
        migrate_rows-settled n rows stored (save-Owed row rows db.items h) in
      (db', migrate_rows-next n row rows db stored e ∙ done, settled)

  no_legacy_rows :
      (items : List KnowledgeItem)
      → All (λ x. legacy cipher x ≡ false) items
      → legacy_rows cipher items ≡ []
  unfolding legacy_rows
  no_legacy_rows items h = λ i.
      select-none in_plain items (All-implied items (λ x e. ground (arith, e)) h) i
      ++ select-none (late cipher) items (All-implied items (λ x e. ground (arith, e)) h) i

  abbrev migrate_counted : ℕ → KnowledgeDb → List KnowledgeItem → Option (KnowledgeDb × ℕ)
  migrate_counted n db rows = elim (migrate_rows cipher n rows db) [
    | none ↦ none
    | some db' ↦ some (db', length rows)
  ]

  migrated_count :
      (n : ℕ) (rows : List KnowledgeItem) (db db' : KnowledgeDb)
      → migrate_rows cipher n rows db ≡ some db'
      → migrate_counted n db rows ≡ some (db', length rows)
  migrated_count n rows db db' e =
      ap
        (λ (found : Option KnowledgeDb). elim found as (λ _. Option (KnowledgeDb × ℕ)) [
          | none ↦ none
          | some d ↦ some (d, length rows)
        ])
        e

  -- Migrating the documents of earlier versions ends for every size, and a second run finds nothing
  -- left to do. Decrypting what was encrypted is taken to give the text, and an encrypted text is
  -- never empty.
  pub migrate_legacy_items-again :
      (n : ℕ) (db : KnowledgeDb)
      → (db' : KnowledgeDb) × (migrate_legacy_items cipher n db
          ≡ some (db', length (legacy_rows cipher db.items)))
        × (migrate_legacy_items cipher n db' ≡ some (db', 0))
  unfolding migrate_legacy_items migrate_rows
  migrate_legacy_items-again n db =
      let (db', done, settled) =
        migrate_rows-settled n (legacy_rows cipher db.items) db
          (legacy_rows-Owed cipher db.items) in
      let nothing = no_legacy_rows db'.items settled in
      (
        db',
        migrated_count n (legacy_rows cipher db.items) db db' done,
        ap (migrate_counted n db') nothing,
      )
