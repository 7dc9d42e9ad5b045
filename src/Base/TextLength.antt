-- ===== src/Base/TextLength.antt =====
-- How long the texts are that Base/Text makes.
use Prim.Native.String.{[] as empty, ◌∷◌ as push}
use Prim.Native.Nat.{ℕ, zero, suc, ◌-◌, ◌≤◌}
use Prim.Native.String.{String}
use mathlib.Core.Path.{◌≡◌}
use mathlib.Core.Bool.{Bool, true, false, ◌&&◌}
use native.Mathlib.Omega.{arith}
use package.multi_channel_ai_gateway.Base.Tests.{◌==◌, if◌then◌else◌}
use package.multi_channel_ai_gateway.Base.Text.{
  text_length, strip, lstrip, rstrip, is_space, drop_chars, take_chars,
}

pub length-lstrip-le : (s : String) → text_length (lstrip s) ≤ text_length s
unfolding text_length lstrip
length-lstrip-le empty = omega arith
length-lstrip-le (push c s) = ground (arith, length-lstrip-le s)

pub length-blank_or-le :
    (blank : Bool) (t rest : String)
    → text_length rest ≤ text_length t
    → text_length (if blank then empty else rest) ≤ text_length t
unfolding text_length
length-blank_or-le true t rest h = omega arith
length-blank_or-le false t rest h = h

pub length-rstrip-le : (s : String) → text_length (rstrip s) ≤ text_length s
unfolding text_length rstrip
length-rstrip-le empty = omega arith
length-rstrip-le (push c s) =
    length-blank_or-le (is_space c && (rstrip s == "")) (push c s) (push c (rstrip s))
      (omega (arith, length-rstrip-le s))

pub length-strip-le : (s : String) → text_length (strip s) ≤ text_length s
unfolding strip
length-strip-le s = omega (arith, length-rstrip-le (lstrip s), length-lstrip-le s)

pub length-take_chars-le : (n : ℕ) (s : String) → text_length (take_chars n s) ≤ n
unfolding text_length take_chars
length-take_chars-le zero s = omega arith
length-take_chars-le (suc n) empty = omega arith
length-take_chars-le (suc n) (push c s) = omega (arith, length-take_chars-le n s)

pub length-drop_chars : (n : ℕ) (s : String) → text_length (drop_chars n s) ≡ text_length s - n
unfolding text_length drop_chars
length-drop_chars zero s = omega arith
length-drop_chars (suc n) empty = omega arith
length-drop_chars (suc n) (push c s) = omega (arith, length-drop_chars n s)
