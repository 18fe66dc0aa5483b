-- ===== src/Prelude/Text.antt =====
-- What the program uses of Python's `str`: white space, `strip`, `split`, `len` and `startswith`, on
-- the code points of a text.
use Prim.Native.Char.{code}
use Prim.Native.Nat.{ℕ, ◌+◌}
use Prim.Native.String.{String}
use mathlib.Core.Bool.{Bool, true, false, ◌&&◌, ◌||◌}
use mathlib.Core.List.{List, [], ◌∷◌}
use mathlib.Core.Path.{◌≡◌, refl}
use mathlib.Core.Logic.{◌↔◌}
use native.Mathlib.Omega.{arith}
use mathlib.Core.Bool.{not}
use brainxp_server.Prelude.{==_iff, if◌then◌else◌, leb, ◌==◌}

abbrev pub codes : String → List ℕ
codes String.[] = []
codes (String.◌∷◌ c s) = code c ∷ codes s

-- `str.isspace` of a character.
unfoldable pub is_space : ℕ → Bool
is_space c =
    leb 9 c && leb c 13
    || leb 28 c && leb c 32
    || c == 0x85
    || c == 0xA0
    || c == 0x1680
    || leb 0x2000 c && leb c 0x200A
    || c == 0x2028
    || c == 0x2029
    || c == 0x202F
    || c == 0x205F
    || c == 0x3000

-- `not text.strip()`
unfoldable pub is_blank : List ℕ → Bool
unfolding is_space
is_blank [] = true
is_blank (c ∷ cs) = is_space c && is_blank cs

unfoldable pub strip_left : List ℕ → List ℕ
unfolding is_space
strip_left [] = []
strip_left (c ∷ cs) = if is_space c then strip_left cs else c ∷ cs

unfoldable pub strip_right : List ℕ → List ℕ
unfolding is_blank
strip_right [] = []
strip_right (c ∷ cs) = if is_blank (c ∷ cs) then [] else c ∷ strip_right cs

unfoldable pub strip : List ℕ → List ℕ
unfolding strip_left strip_right
strip s = strip_right (strip_left s)

-- `len(text.split())`; the test is whether the character before belongs to a word.
unfoldable pub words_after : Bool → List ℕ → ℕ
unfolding is_space
words_after inside [] = 0
words_after inside (c ∷ cs) =
    (if is_space c || inside then 0 else 1) + words_after (not (is_space c)) cs

unfoldable pub word_count : List ℕ → ℕ
unfolding words_after
word_count s = words_after false s

-- `text.startswith(prefix)`
unfoldable pub has_prefix : List ℕ → List ℕ → Bool
has_prefix s [] = true
has_prefix [] (p ∷ ps) = false
has_prefix (c ∷ cs) (p ∷ ps) = c == p && has_prefix cs ps

-- `a in b` of two texts.
unfoldable pub has_part : List ℕ → List ℕ → Bool
unfolding has_prefix
has_part [] part = has_prefix [] part
has_part (c ∷ cs) part = has_prefix (c ∷ cs) part || has_part cs part

-- A text that is only white space has no words.
pub is_blank_words : (s : List ℕ) → is_blank s ≡ true → word_count s ≡ 0
unfolding is_blank word_count words_after
is_blank_words [] h = omega arith
is_blank_words (c ∷ cs) h = ground (arith, is_blank_words cs)

-- `a == b` of two texts.
unfoldable pub same_codes : List ℕ → List ℕ → Bool
same_codes [] [] = true
same_codes [] (b ∷ bs) = false
same_codes (a ∷ as') [] = false
same_codes (a ∷ as') (b ∷ bs) = a == b && same_codes as' bs

-- `text.split(sep)[0]`
unfoldable pub before : ℕ → List ℕ → List ℕ
before sep [] = []
before sep (c ∷ cs) = if c == sep then [] else c ∷ before sep cs

-- The same as a text.
unfoldable pub text_before : ℕ → String → String
text_before sep String.[] = ""
text_before sep (String.◌∷◌ c s) =
    let rest = text_before sep s in if code c == sep then "" else String.◌∷◌ c rest

pub same_codes_iff : (a b : List ℕ) → (same_codes a b ≡ true) ↔ (a ≡ b)
unfolding same_codes
same_codes_iff [] [] = (λ h. refl, λ h. refl)
same_codes_iff [] (b ∷ bs) = (λ h. cc, λ h. cc)
same_codes_iff (a ∷ as') [] = (λ h. cc, λ h. cc)
same_codes_iff (a ∷ as') (b ∷ bs) = (
  λ h. ground (arith, same_codes_iff as' bs, ==_iff a b),
  λ h. ground (arith, same_codes_iff as' bs, ==_iff a b),
)
