-- ===== src/Knowledge/Owed.antt =====
-- Which documents `migrate_legacy_items` of knowledge.py has still to migrate.
use multi_channel_ai_gateway.Base.{
  ◌≤◌, Bool, true, false, not, ◌&&◌, ◌||◌, List, [], ◌∷◌, ◌≡◌, refl, arith, Bool-cases, inl, inr,
  ==-refl, select_where, count_where, All, count-append,
}
use multi_channel_ai_gateway.Knowledge.Items.{KnowledgeItem, Cipher, item_has_id}
use multi_channel_ai_gateway.Knowledge.Legacy.{in_plain, stale_print, legacy_rows}

abbrev pub legacy : Cipher → KnowledgeItem → Bool
legacy cipher x = in_plain x || stale_print cipher x

-- A document that has still to be migrated is among the rows.
abbrev pub Owed : Cipher → List KnowledgeItem → KnowledgeItem → Type 0
Owed cipher rows x = legacy cipher x ≡ true → 1 ≤ count_where (item_has_id x.id) rows

pub All-implied :
    {P Q : KnowledgeItem → Type 0} (xs : List KnowledgeItem)
    → ((x : KnowledgeItem) → P x → Q x)
    → All P xs
    → All Q xs
All-implied [] f a = tt
All-implied (x ∷ xs) f (p, a) = (f x p, All-implied xs f a)

pub select-none :
    (p : KnowledgeItem → Bool) (xs : List KnowledgeItem)
    → All (λ x. p x ≡ false) xs
    → select_where p xs ≡ []
unfolding select_where
select-none p [] h = refl
select-none p (x ∷ xs) (e, h) = rw e (select-none p xs h)

count-select-le :
    (p q : KnowledgeItem → Bool) (x : KnowledgeItem) (xs : List KnowledgeItem)
    → count_where q (select_where p xs) ≤ count_where q (select_where p (x ∷ xs))
unfolding select_where count_where
count-select-le p q x xs = ground arith

count-select-head :
    (p : KnowledgeItem → Bool) (x : KnowledgeItem) (xs : List KnowledgeItem)
    → p x ≡ true
    → 1 ≤ count_where (item_has_id x.id) (select_where p (x ∷ xs))
unfolding select_where count_where
count-select-head p x xs y = ground (arith, y, ==-refl x.id)

-- A document that meets the condition has a row among those that meet it.
abbrev Listed : (KnowledgeItem → Bool) → List KnowledgeItem → KnowledgeItem → Type 0
Listed p xs x = p x ≡ true → 1 ≤ count_where (item_has_id x.id) (select_where p xs)

selected-Listed : (p : KnowledgeItem → Bool) (xs : List KnowledgeItem) → All (Listed p xs) xs
selected-Listed p [] = tt
selected-Listed p (x ∷ xs) = (
  count-select-head p x xs,
  All-implied xs
      (λ z o h. let more = count-select-le p (item_has_id z.id) x xs in omega (arith, o h, more))
      (selected-Listed p xs),
)

All-both :
    (P Q : KnowledgeItem → Type 0) (xs : List KnowledgeItem)
    → All P xs
    → All Q xs
    → All (λ x. P x × Q x) xs
All-both P Q [] a b = tt
All-both P Q (x ∷ xs) (p, a) (q, b) = ((p, q), All-both P Q xs a b)

abbrev pub late : Cipher → KnowledgeItem → Bool
late cipher row = stale_print cipher row && not (in_plain row)

pub legacy_rows-Owed :
    (cipher : Cipher) (items : List KnowledgeItem)
    → All (Owed cipher (legacy_rows cipher items)) items
unfolding legacy_rows
legacy_rows-Owed cipher items =
    All-implied items
      (λ z (o, l) h.
        let split =
          count-append (item_has_id z.id) (select_where in_plain items)
            (select_where (late cipher) items) in
        elim (Bool-cases (in_plain z)) [
          | inl y ↦ omega (arith, split, o y)
          | inr f ↦ omega (arith, split, l (ground (arith, f, h)))
        ])
      (All-both (Listed in_plain items) (Listed (late cipher) items) items
        (selected-Listed in_plain items) (selected-Listed (late cipher) items))

pub none-Owed-settled :
    (cipher : Cipher) (items : List KnowledgeItem)
    → All (Owed cipher []) items
    → All (λ x. legacy cipher x ≡ false) items
unfolding count_where
none-Owed-settled cipher items h =
    All-implied items
      (λ z o. elim (Bool-cases (legacy cipher z)) [
        | inl y ↦ absurd (omega (arith, o y))
        | inr f ↦ f
      ])
      h
