-- ===== src/Knowledge/Stored.antt =====
-- The row that `add_item` of knowledge.py writes.
use multi_channel_ai_gateway.Base.{
  none, Option-cases, sym, count_where, ==-eq, find-append_none, find-append_some,
  find-none_of_count, find-update, count-pos_of_find, find_sound, ◌≤◌, count_of_find-none, String,
  true, false, some, List, [], ◌∷◌, ◌==◌, ==-refl, ==-eq, ◌≡◌, refl, ◌∙◌, inl, inr, Bool-cases,
  arith, eq_iff, find, or_else,
}
use multi_channel_ai_gateway.Models.{Time}
use multi_channel_ai_gateway.Knowledge.Items.{
  KnowledgeItem, Cipher, Source, titled, item_has_id, new_item, filled_item, put_item,
}

-- The table has the item, and every other row as before.
pub record Put (item : KnowledgeItem) (before after : List KnowledgeItem) : Type 0 where
  pub self : find (item_has_id item.id) after ≡ some item
  pub others :
      (j : String)
      → (item.id == j) ≡ false
      → find (item_has_id j) after ≡ find (item_has_id j) before

new-Put :
    (item : KnowledgeItem) (items : List KnowledgeItem)
    → count_where (item_has_id item.id) items ≡ 0
    → Put item items (put_item none item items)
unfolding put_item find
new-Put item items fresh =
    let alone = λ (j : String). find-append_none (item_has_id j) items (item ∷ []) in
    record {
      self =
          alone item.id (find-none_of_count (item_has_id item.id) items fresh)
          ∙ rw (==-refl item.id) refl;
      others = λ j apart. elim (Option-cases (find (item_has_id j) items)) [
        | inl n ↦ alone j n ∙ rw (apart, n) refl
        | inr (b, e) ↦ find-append_some (item_has_id j) items (item ∷ []) e ∙ sym e
      ];
    }

old-Put :
    (item old : KnowledgeItem) (items : List KnowledgeItem)
    → item.id ≡ old.id
    → 1 ≤ count_where (item_has_id old.id) items
    → Put item items (put_item (some old) item items)
unfolding put_item
old-Put item old items same there =
    let changed : (j : String) (a : KnowledgeItem)
        → item_has_id old.id a ≡ true
        → item_has_id j item ≡ item_has_id j a =
      λ j a h. rw (same, ==-eq a.id old.id h) refl in
    let updated = λ (j : String).
      find-update (item_has_id old.id) (item_has_id j) (λ _. item) items (changed j) in
    record {
      self = elim (Option-cases (find (item_has_id item.id) items)) [
        | inl n ↦
            let empty_of = count_of_find-none (item_has_id item.id) items n in
            absurd (omega (arith, there, rw same at empty_of))
        | inr (b, e) ↦
            let is_old : item_has_id old.id b ≡ true =
              rw same at (find_sound (item_has_id item.id) items e) in
            updated item.id ∙ rw e (rw is_old refl)
      ];
      others = λ j apart. elim (Option-cases (find (item_has_id j) items)) [
        | inl n ↦ updated j ∙ rw n refl
        | inr (b, e) ↦
            let is_j : b.id ≡ j = ==-eq b.id j (find_sound (item_has_id j) items e) in
            let not_old : item_has_id old.id b ≡ false = elim (Bool-cases (b.id == old.id)) [
              | inr f ↦ f
              | inl y ↦
                  let is_item : item.id ≡ j = same ∙ sym (==-eq b.id old.id y) ∙ is_j in
                  absurd (cc ((eq_iff item.id j).1 is_item, apart))
            ] in
            updated j ∙ rw e (rw not_old refl)
      ];
    }

pub filled-Put :
    (cipher : Cipher) (id : String) (now : Time) (user_id title content : String) (source : Source)
    (items : List KnowledgeItem)
    → count_where (item_has_id id) items ≡ 0
    → let found = find (titled user_id title) items in
      let item =
        filled_item cipher now content source (or_else found (new_item id user_id title)) in
      Put item items (put_item found item items)
unfolding filled_item
filled-Put cipher id now user_id title content source items fresh =
    elim (Option-cases (find (titled user_id title) items)) [
      | inl n ↦
          rw n (
            new-Put (filled_item cipher now content source (new_item id user_id title)) items fresh)
      | inr (old, e) ↦ rw e (
          old-Put (filled_item cipher now content source old) old items refl (
            count-pos_of_find (item_has_id old.id) (titled user_id title) items e (==-refl old.id)))
    ]

pub filled-titled :
    (cipher : Cipher) (id : String) (now : Time) (user_id title content : String) (source : Source)
    (items : List KnowledgeItem)
    → titled user_id title (
        filled_item cipher now content source
          (or_else (find (titled user_id title) items) (new_item id user_id title)))
      ≡ true
unfolding filled_item
filled-titled cipher id now user_id title content source items =
    elim (Option-cases (find (titled user_id title) items)) [
      | inl n ↦ rw n (rw (==-refl user_id) (==-refl title))
      | inr (old, e) ↦ rw e (find_sound (titled user_id title) items e)
    ]
