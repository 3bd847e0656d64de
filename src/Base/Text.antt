-- ===== src/Base/Text.antt =====
-- Texts: white space as Python's `str.strip` has it, texts joined, and decimals printed.
use Prim.Native.Nat.{ℕ, suc, ◌/◌, ◌%◌}
use Prim.Native.Char.{code}
use Prim.Native.String.{String}
use mathlib.Core.Bool.{Bool, true, ◌&&◌, ◌||◌}
use noshiro_db_backend.Base.Tests.{leb, ◌==◌, if◌then◌else◌}

-- `chr(c).isspace()`
unfoldable is_space : ℕ → Bool
is_space c =
    leb 9 c && leb c 13
    || leb 28 c && leb c 32
    || c == 133
    || c == 160
    || c == 5760
    || leb 8192 c && leb c 8202
    || c == 8232
    || c == 8233
    || c == 8239
    || c == 8287
    || c == 12288

-- `not text.strip()`
unfoldable pub is_blank : String → Bool
unfolding is_space
is_blank String.[] = true
is_blank (String.◌∷◌ c s) = is_space (code c) && is_blank s

-- `len(text)`
unfoldable pub text_length : String → ℕ
text_length String.[] = 0
text_length (String.◌∷◌ c s) = suc (text_length s)

-- `text.lstrip()`, `text.rstrip()` and `text.strip()`
unfoldable lstrip : String → String
unfolding is_space
lstrip String.[] = String.[]
lstrip (String.◌∷◌ c s) = let rest = lstrip s in if is_space (code c) then rest else String.◌∷◌ c s

unfoldable rstrip : String → String
unfolding is_space is_blank
rstrip String.[] = String.[]
rstrip (String.◌∷◌ c s) =
    let rest = rstrip s in if is_space (code c) && is_blank s then String.[] else String.◌∷◌ c rest

unfoldable pub strip : String → String
unfolding lstrip rstrip
strip s = lstrip (rstrip s)

-- `a + b` on texts.
unfoldable pub text_append : String → String → String
text_append String.[] t = t
text_append (String.◌∷◌ c s) t = String.◌∷◌ c (text_append s t)

abbrev text_at : ℕ → String → String
text_at n String.[] = String.[]
text_at ℕ.zero (String.◌∷◌ c s) = String.◌∷◌ c String.[]
text_at (suc n) (String.◌∷◌ c s) = text_at n s

abbrev digit : ℕ → String
digit n = text_at n "0123456789"

-- `str` of a decimal of one digit before the point and four behind it, given in ten-thousandths.
unfoldable pub decimal_text : ℕ → String
unfolding text_append
decimal_text n = text_append (digit (n / 10000)) (
    text_append "." (
      text_append (digit (n / 1000 % 10))
        (text_append (digit (n / 100 % 10)) (text_append (digit (n / 10 % 10)) (digit (n % 10))))))
