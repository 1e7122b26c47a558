-- ===== src/Common/Text.antt =====
-- Texts as lists of Unicode characters, and the methods of `str` and `char` that the program uses.
use Prim.Native.Char.{code}
use Prim.Native.String.{String}
use nullgate.Common.{
  ℕ, ◌+◌, ◌-◌, ◌≡◌, refl, ap, ◌∙◌, Bool, true, false, ◌&&◌, ◌||◌, Option, none, some, List, [], ◌∷◌,
  ◌++◌, arith, ltb, leb, ◌==◌, if◌then◌else◌,
}

abbrev pub Text : Type 0
Text = List ℕ

abbrev pub codes : String → Text
codes String.[] = []
codes (String.◌∷◌ c s) = code c ∷ codes s

-- `str::len`: the bytes of the UTF-8 encoding.
abbrev pub utf8_len : Text → ℕ
utf8_len [] = 0
utf8_len (c ∷ s) =
    (if ltb c 0x80 then 1 else if ltb c 0x800 then 2 else if ltb c 0x10000 then 3 else 4)
    + utf8_len s

-- `char::is_whitespace`.
unfoldable pub is_whitespace : ℕ → Bool
is_whitespace c =
    (leb 9 c && leb c 13)
    || c == 32
    || c == 0x85
    || c == 0xa0
    || c == 0x1680
    || (leb 0x2000 c && leb c 0x200a)
    || c == 0x2028
    || c == 0x2029
    || c == 0x202f
    || c == 0x205f
    || c == 0x3000

unfoldable pub trim_start : Text → Text
trim_start [] = []
trim_start (c ∷ s) = let rest = trim_start s in if is_whitespace c then rest else c ∷ s

-- A character before a text that is already trimmed at its end.
abbrev pub keep_start : ℕ → Text → Text
keep_start c [] = if is_whitespace c then [] else c ∷ []
keep_start c (d ∷ s) = c ∷ d ∷ s

unfoldable pub trim_end : Text → Text
trim_end [] = []
trim_end (c ∷ s) = keep_start c (trim_end s)

unfoldable pub trim : Text → Text
trim s = trim_end (trim_start s)

-- `str::strip_prefix`.
unfoldable pub strip_prefix : Text → Text → Option Text
strip_prefix [] s = some s
strip_prefix (p ∷ ps) [] = none
strip_prefix (p ∷ ps) (c ∷ s) = let rest = strip_prefix ps s in if p == c then rest else none

-- `str::to_lowercase` on ASCII, which is all that the program lowers.
abbrev pub lower : ℕ → ℕ
lower c = if leb 65 c && leb c 90 then c + 32 else c

unfoldable pub to_lowercase : Text → Text
to_lowercase [] = []
to_lowercase (c ∷ s) = lower c ∷ to_lowercase s

-- `str::to_uppercase`; the argument is the table of the characters that are not ASCII.
abbrev pub upper : (ℕ → Text) → ℕ → Text
upper table c = if ltb c 128 then (if leb 97 c && leb c 122 then c - 32 else c) ∷ [] else table c

unfoldable pub to_uppercase : (ℕ → Text) → Text → Text
to_uppercase table [] = []
to_uppercase table (c ∷ s) = upper table c ++ to_uppercase table s

abbrev pub All {ℓ} : (ℕ → Type ℓ) → Text → Type ℓ
All P [] = Unit
All P (c ∷ s) = P c × All P s

abbrev pub IsBlank : ℕ → Type 0
IsBlank c = is_whitespace c ≡ true

abbrev pub IsInk : ℕ → Type 0
IsInk c = is_whitespace c ≡ false

pub strip_prefix-append : (p s : Text) → strip_prefix p (p ++ s) ≡ some s
unfolding strip_prefix
strip_prefix-append [] s = refl
strip_prefix-append (c ∷ p) s = ground (arith, strip_prefix-append p s)

trim_start-blank : (pre s : Text) → All IsBlank pre → trim_start (pre ++ s) ≡ trim_start s
unfolding trim_start
trim_start-blank [] s h = refl
trim_start-blank (c ∷ pre) s h = rw (h.0, trim_start-blank pre s h.1) refl

trim_end-blank : (s : Text) → All IsBlank s → trim_end s ≡ []
unfolding trim_end
trim_end-blank [] h = refl
trim_end-blank (c ∷ s) h = rw (trim_end-blank s h.1, h.0) refl

trim_end-ink : (s post : Text) → All IsInk s → All IsBlank post → trim_end (s ++ post) ≡ s
unfolding trim_end
trim_end-ink [] post h b = trim_end-blank post b
trim_end-ink (c ∷ []) post h b = rw (trim_end-blank post b, h.0) refl
trim_end-ink (c ∷ d ∷ s) post h b = rw (trim_end-ink (d ∷ s) post h.1 b) refl

trim_start-ink : (c : ℕ) (s : Text) → IsInk c → trim_start (c ∷ s) ≡ c ∷ s
unfolding trim_start
trim_start-ink c s h = rw h refl

-- White space around a text that has none is removed.
pub trim-around :
    (pre post : Text) (c : ℕ) (s : Text)
    → All IsBlank pre
    → All IsBlank post
    → All IsInk (c ∷ s)
    → trim (pre ++ (c ∷ (s ++ post))) ≡ c ∷ s
unfolding trim
trim-around pre post c s hp hq h =
    ap trim_end (trim_start-blank pre (c ∷ (s ++ post)) hp ∙ trim_start-ink c (s ++ post) h.0)
    ∙ trim_end-ink (c ∷ s) post h hq
