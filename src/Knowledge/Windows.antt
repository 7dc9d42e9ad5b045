-- ===== src/Knowledge/Windows.antt =====
-- The pieces into which `chunk_text` of knowledge.py cuts a document.
use Prim.Native.String.{[] as empty, ◌∷◌ as push, ◌++◌ as cat}
use multi_channel_ai_gateway.Base.{
  ℕ, zero, suc, ◌≤◌, ◌<◌, String, Option, some, List, [], ◌∷◌, ◌≡◌, refl, ap, ◌∙◌, leb, leb→le, inl,
  inr, Bool-cases, arith, All,
}
use multi_channel_ai_gateway.Base.Text.{text_length, take_chars, drop_chars}
use multi_channel_ai_gateway.Base.TextLength.{length-drop_chars, length-take_chars-le}
use text.Mathlib.TextLemmas.{nil-append, cons-append}
use multi_channel_ai_gateway.Knowledge.Chunks.{after_window, windows, step_of, document_windows}

-- What pieces of a document put together: of each but the last only the first `step` characters,
-- since the next one begins there.
unfoldable pub reassembled : ℕ → List String → String
reassembled step [] = ""
reassembled step (w ∷ []) = w
reassembled step (w ∷ v ∷ ws) = cat (take_chars step w) (reassembled step (v ∷ ws))

take_all : (n : ℕ) (s : String) → text_length s ≤ n → take_chars n s ≡ s
unfolding take_chars text_length
take_all zero empty h = refl
take_all (suc n) empty h = refl
take_all zero (push c s) h = absurd (omega arith)
take_all (suc n) (push c s) h = ap (push c) (take_all n s (omega arith))

take-take : (m n : ℕ) (s : String) → m ≤ n → take_chars m (take_chars n s) ≡ take_chars m s
unfolding take_chars
take-take zero n s h = refl
take-take (suc m) zero s h = absurd (omega arith)
take-take (suc m) (suc n) empty h = refl
take-take (suc m) (suc n) (push c s) h = ap (push c) (take-take m n s (omega arith))

cat-take-drop : (n : ℕ) (s : String) → cat (take_chars n s) (drop_chars n s) ≡ s
unfolding take_chars drop_chars
cat-take-drop zero s = nil-append s
cat-take-drop (suc n) empty = refl
cat-take-drop (suc n) (push c s) =
    cons-append c (take_chars n s) (drop_chars n s) ∙ ap (push c) (cat-take-drop n s)

abbrev Covers : ℕ → ℕ → String → Option (List String) → Type 0
Covers size step rest result =
    (w : String) × (ws : List String) × (result ≡ some (w ∷ ws))
    × (reassembled step (w ∷ ws) ≡ rest)
    × All (λ v. text_length v ≤ size) (w ∷ ws)

after_window-Covers :
    (size step : ℕ) (rest : String) (result : Option (List String))
    → step ≤ size
    → Covers size step (drop_chars step rest) result
    → Covers size step rest (after_window (take_chars size rest) result)
unfolding reassembled
after_window-Covers size step rest result fits (w, ws, e, same, all) = (
  take_chars size rest,
  w ∷ ws,
  rw e refl,
  (λ i. cat (take-take step size rest fits i) (same i)) ∙ cat-take-drop step rest,
  (length-take_chars-le size rest, all),
)

windows-Covers :
    (fuel size step : ℕ) (rest : String)
    → 1 ≤ step
    → step ≤ size
    → text_length rest < fuel
    → Covers size step rest (windows fuel size step rest)
unfolding windows reassembled
windows-Covers zero size step rest pos fits enough = absurd (omega arith)
windows-Covers (suc fuel) size step rest pos fits enough =
    elim (Bool-cases (leb (text_length rest) size)) [
      | inl y ↦ (
        take_chars size rest,
        [],
        rw y refl,
        take_all size rest (leb→le (text_length rest) size y),
        (length-take_chars-le size rest, tt),
      )
      | inr long ↦
          let less = length-drop_chars step rest in
          rw long (
            after_window-Covers size step rest (windows fuel size step (drop_chars step rest)) fits
              (windows-Covers fuel size step (drop_chars step rest) pos fits
                (ground (arith, long, less))))
    ]

after_window_total :
    (w : String) (result : Option (List String))
    → (ws : List String) × (result ≡ some ws)
    → (ws : List String) × (after_window w result ≡ some ws)
after_window_total w result (ws, e) = (w ∷ ws, rw e refl)

windows_total :
    (fuel size step : ℕ) (rest : String)
    → 1 ≤ step
    → text_length rest < fuel
    → (ws : List String) × (windows fuel size step rest ≡ some ws)
unfolding windows
windows_total zero size step rest pos enough = absurd (omega arith)
windows_total (suc fuel) size step rest pos enough =
    elim (Bool-cases (leb (text_length rest) size)) [
      | inl y ↦ (take_chars size rest ∷ [], rw y refl)
      | inr long ↦
          let less = length-drop_chars step rest in
          rw long (
            after_window_total (take_chars size rest)
              (windows fuel size step (drop_chars step rest))
              (windows_total fuel size step (drop_chars step rest) pos
                (ground (arith, long, less))))
    ]

pub document_windows_total :
    (content : String) (chunk_chars : ℕ)
    → (ws : List String) × (document_windows content chunk_chars ≡ some ws)
unfolding document_windows
document_windows_total content chunk_chars =
    windows_total (suc (text_length content)) chunk_chars (step_of chunk_chars) content
      (omega arith) (omega arith)

-- Cutting a document ends for every text and every size of at least one character, and loses none
-- of it: put together, the pieces before they are stripped are the document, and no piece is longer
-- than the size.
pub document_windows_complete :
    (content : String) (chunk_chars : ℕ)
    → 1 ≤ chunk_chars
    → (w : String) × (ws : List String) × (document_windows content chunk_chars ≡ some (w ∷ ws))
      × (reassembled (step_of chunk_chars) (w ∷ ws) ≡ content)
      × All (λ v. text_length v ≤ chunk_chars) (w ∷ ws)
unfolding document_windows
document_windows_complete content chunk_chars pos =
    windows-Covers (suc (text_length content)) chunk_chars (step_of chunk_chars) content
      (omega arith) (omega arith) (omega arith)
