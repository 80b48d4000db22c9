-- ===== src/Common/Text.antt =====
-- Python's `str.lower` and `str.replace` of one character, on ASCII letters.
use Prim.Native.Char.{Char, code}
use Prim.Native.String.{String, [], ◌∷◌}
use Prim.Native.Nat.{ℕ, zero, suc, ◌-◌, ◌≤◌, ◌<◌}
use mathlib.Core.Path.{◌≡◌, refl}
use mathlib.Core.List.{List}
use mathlib.Core.Bool.{Bool, true, ◌&&◌, ◌||◌}
use text.Mathlib.Text.{starts_with}
use mathlib.Core.Logic.{inl, inr}
use native.Mathlib.Omega.{arith}
use ushnotice.Common.Logic.{leb, nat_eq, if◌then◌else◌, Bool-cases}

unfoldable pub map_chars : (Char → Char) → String → String
map_chars f [] = []
map_chars f (c ∷ s) = f c ∷ map_chars f s

-- The character at a position, or the default.
nth : String → ℕ → Char → Char
nth [] i d = d
nth (c ∷ s) zero d = c
nth (c ∷ s) (suc i) d = nth s i d

abbrev alphabet : String
alphabet = "abcdefghijklmnopqrstuvwxyz"

unfoldable pub lower_char : Char → Char
unfolding nth
lower_char c = if leb 65 (code c) && leb (code c) 90 then nth alphabet (code c - 65) c else c

unfoldable pub lower : String → String
unfolding map_chars lower_char
lower = map_chars lower_char

unfoldable pub replace_char : ℕ → Char → String → String
unfolding map_chars
replace_char old new = map_chars (λ c. if nat_eq (code c) old then new else c)

abbrev pub size : String → ℕ
size [] = 0
size (c ∷ s) = suc (size s)

abbrev IsHigh : String → Type 0
IsHigh [] = Unit
IsHigh (c ∷ s) = (97 ≤ code c) × IsHigh s

nth-high : (s : String) (i : ℕ) (d : Char) → IsHigh s → i < size s → 97 ≤ code (nth s i d)
unfolding nth
nth-high [] i d h lt = elim lt [ ]
nth-high (c ∷ s) zero d h lt = h.0
nth-high (c ∷ s) (suc i) d h lt = nth-high s i d h.1 (omega arith)

lower_char_idem : (c : Char) → lower_char (lower_char c) ≡ lower_char c
unfolding lower_char
lower_char_idem c = elim (Bool-cases (leb 65 (code c) && leb (code c) 90)) [
  | inl upper ↦ ground (arith, nth-high alphabet (code c - 65) c (omega arith))
  | inr other ↦ rw other (rw other)
]

-- Lowering a text twice is lowering it once.
pub lower_idem : (s : String) → lower (lower s) ≡ lower s
unfolding lower
lower_idem [] = refl
lower_idem (c ∷ s) = λ i. lower_char_idem c i ∷ lower_idem s i

-- `t in s`
unfoldable pub contains : String → String → Bool
contains [] t = starts_with [] t
contains (c ∷ s) t = starts_with (c ∷ s) t || contains s t

-- a character before the first of the parts
push_char : Char → List String → List String
push_char c List.[] = List.◌∷◌ (c ∷ []) List.[]
push_char c (List.◌∷◌ part parts) = List.◌∷◌ (c ∷ part) parts

-- `s.split(sep)` for one character, given by its code
unfoldable pub split_on : ℕ → String → List String
unfolding push_char
split_on sep [] = List.◌∷◌ "" List.[]
split_on sep (c ∷ s) =
    let parts = split_on sep s in
    if nat_eq (code c) sep then List.◌∷◌ "" parts else push_char c parts

-- the characters that pass a test
unfoldable pub keep_chars : (Char → Bool) → String → String
keep_chars p [] = []
keep_chars p (c ∷ s) = let rest = keep_chars p s in if p c then c ∷ rest else rest

unfoldable pub all_chars : (Char → Bool) → String → Bool
all_chars p [] = true
all_chars p (c ∷ s) = p c && all_chars p s

-- `s[:n]`
unfoldable pub take_chars : ℕ → String → String
take_chars zero s = []
take_chars (suc n) [] = []
take_chars (suc n) (c ∷ s) = c ∷ take_chars n s

-- `s[n:]`
unfoldable pub drop_chars : ℕ → String → String
drop_chars zero s = s
drop_chars (suc n) [] = []
drop_chars (suc n) (c ∷ s) = drop_chars n s

-- What is kept passes a test that holds of whatever passes the first.
pub all_chars-keep_chars :
    (p q : Char → Bool) (s : String)
    → ((c : Char) → p c ≡ true → q c ≡ true)
    → all_chars q (keep_chars p s) ≡ true
unfolding all_chars keep_chars
all_chars-keep_chars p q [] h = refl
all_chars-keep_chars p q (c ∷ s) h = ground (arith, h c, all_chars-keep_chars p q s h)

pub all_chars-drop_chars :
    (q : Char → Bool) (n : ℕ) (s : String)
    → all_chars q s ≡ true
    → all_chars q (drop_chars n s) ≡ true
unfolding all_chars drop_chars
all_chars-drop_chars q zero s h = h
all_chars-drop_chars q (suc n) [] h = refl
all_chars-drop_chars q (suc n) (c ∷ s) h = all_chars-drop_chars q n s (ground arith)
