-- ===== src/Base/Text.antt =====
-- The text methods of Python that the source calls, on the characters of a text.
use Prim.Native.Nat.{ℕ, zero, suc}
use Prim.Native.Char.{Char, code}
use Prim.Native.String.{String, [], ◌∷◌}
use mathlib.Core.Bool.{Bool, true, false, ◌&&◌, ◌||◌}
use mathlib.Core.List.{List}
use package.multi_channel_ai_gateway.Base.Tests.{ltb, leb, nat_eq, ◌==◌, if◌then◌else◌}

-- `len`
unfoldable pub text_length : String → ℕ
text_length [] = 0
text_length (c ∷ s) = suc (text_length s)

-- The code points that `str.isspace` accepts.
unfoldable pub is_space : Char → Bool
is_space ch =
    let c = code ch in
    (leb 9 c && leb c 13)
    || (leb 28 c && leb c 32)
    || nat_eq c 0x85
    || nat_eq c 0xa0
    || nat_eq c 0x1680
    || (leb 0x2000 c && leb c 0x200a)
    || nat_eq c 0x2028
    || nat_eq c 0x2029
    || nat_eq c 0x202f
    || nat_eq c 0x205f
    || nat_eq c 0x3000

unfoldable pub lstrip : String → String
unfolding is_space
lstrip [] = []
lstrip (c ∷ s) = let rest = lstrip s in if is_space c then rest else c ∷ s

unfoldable pub rstrip : String → String
unfolding is_space
rstrip [] = []
rstrip (c ∷ s) = let rest = rstrip s in if is_space c && (rest == "") then [] else c ∷ rest

unfoldable pub strip : String → String
unfolding lstrip rstrip
strip s = rstrip (lstrip s)

-- `replace(x, "")` for a single character.
unfoldable pub remove_char : ℕ → String → String
remove_char x [] = []
remove_char x (c ∷ s) = let rest = remove_char x s in if nat_eq (code c) x then rest else c ∷ rest

-- `all(p(ch) for ch in text)`
unfoldable pub all_chars : (Char → Bool) → String → Bool
all_chars p [] = true
all_chars p (c ∷ s) = p c && all_chars p s

unfoldable pub is_ascii : String → Bool
unfolding all_chars
is_ascii s = all_chars (λ c. ltb (code c) 128) s

unfoldable pub starts_with : String → String → Bool
starts_with s [] = true
starts_with [] (p ∷ ps) = false
starts_with (c ∷ s) (p ∷ ps) = nat_eq (code c) (code p) && starts_with s ps

-- `removeprefix`, for a text that has the prefix.
unfoldable pub drop_chars : ℕ → String → String
drop_chars zero s = s
drop_chars (suc n) [] = []
drop_chars (suc n) (c ∷ s) = drop_chars n s

-- `text[:n]`
unfoldable pub take_chars : ℕ → String → String
take_chars zero s = []
take_chars (suc n) [] = []
take_chars (suc n) (c ∷ s) = c ∷ take_chars n s

glue : Char → List String → List String
glue c List.[] = List.◌∷◌ (c ∷ []) List.[]
glue c (List.◌∷◌ piece pieces) = List.◌∷◌ (c ∷ piece) pieces

-- `split(x)` for a single character.
unfoldable pub split_char : ℕ → String → List String
unfolding glue
split_char x [] = List.◌∷◌ [] List.[]
split_char x (c ∷ s) =
    let rest = split_char x s in if nat_eq (code c) x then List.◌∷◌ [] rest else glue c rest

-- `p in text`
unfoldable pub contains : String → String → Bool
unfolding starts_with
contains [] p = starts_with [] p
contains (c ∷ s) p = starts_with (c ∷ s) p || contains s p
