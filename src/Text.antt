-- ===== src/Text.antt =====
-- Go strings and the functions of the packages strings, sort and strconv that the program calls.
-- A string is the list of its code points: valid UTF-8 text, for which the byte order that Go
-- compares by is the order of the code points, and every slice that the program takes is cut at an
-- ASCII character. Text that is not valid UTF-8 is outside the model.
pub mod Equality
pub mod Sorting
pub mod Splitting
pub mod Brackets
pub mod Dict
pub mod Numbers
pub mod Trimming
use Prim.Native.Char.{code}
use Prim.Native.String.{String}
use go_baseapp.Prelude.{
  ℕ, suc, ◌-◌, Bool, true, false, ◌&&◌, ◌||◌, List, [], ◌∷◌, ◌++◌, reverse, Option, none, some, ltb,
  leb, ◌==◌, if◌then◌else◌, take, drop, length, get_elem?, ◌≢◌, All,
}

abbrev pub Text : Type 0
Text = List ℕ

-- A string literal.
abbrev pub codes : String → Text
codes String.[] = []
codes (String.◌∷◌ c s) = code c ∷ codes s

-- `a == b` on strings.
unfoldable pub text_eq : Text → Text → Bool
text_eq [] [] = true
text_eq [] (_ ∷ _) = false
text_eq (_ ∷ _) [] = false
text_eq (a ∷ s) (b ∷ t) = a == b && text_eq s t

-- `a <= b` on strings.
unfoldable pub text_le : Text → Text → Bool
text_le [] t = true
text_le (a ∷ s) [] = false
text_le (a ∷ s) (b ∷ t) = ltb a b || (a == b && text_le s t)

-- unicode.IsSpace
unfoldable pub is_space : ℕ → Bool
is_space c =
    (leb 9 c && leb c 13)
    || c == 32
    || c == 0x85
    || c == 0xa0
    || c == 0x1680
    || (leb 0x2000 c && leb c 0x200a)
    || c == 0x2028
    || c == 0x2029
    || c == 0x202f
    || c == 0x205f
    || c == 0x3000

unfoldable pub trim_left : Text → Text
trim_left [] = []
trim_left (c ∷ s) = if is_space c then trim_left s else c ∷ s

-- strings.TrimSpace
unfoldable pub trim_space : Text → Text
unfolding trim_left
trim_space s = reverse (trim_left (reverse (trim_left s)))

abbrev cons_head : ℕ → List Text → List Text
cons_head c [] = (c ∷ []) ∷ []
cons_head c (p ∷ ps) = (c ∷ p) ∷ ps

-- strings.Split with a separator of one character.
unfoldable pub split : Text → ℕ → List Text
split [] sep = [] ∷ []
split (c ∷ s) sep = let rest = split s sep in if c == sep then [] ∷ rest else cons_head c rest

-- strings.Join with a separator of one character.
unfoldable pub join : List Text → ℕ → Text
join [] sep = []
join (p ∷ []) sep = p
join (p ∷ q ∷ ps) sep = p ++ sep ∷ join (q ∷ ps) sep

-- strings.IndexRune; `none` is a negative result.
unfoldable pub index_rune : Text → ℕ → Option ℕ
index_rune [] r = none
index_rune (c ∷ s) r =
    let rest = index_rune s r in
    if c == r then some 0 else elim rest [ none ↦ none | some i ↦ some (suc i) ]

-- strings.Cut with a separator of one character; `none` is `ok == false`.
unfoldable pub cut : Text → ℕ → Option (Text × Text)
cut [] sep = none
cut (c ∷ s) sep =
    let rest = cut s sep in
    if c == sep then some ([], s) else elim rest [ none ↦ none | some (a, b) ↦ some (c ∷ a, b) ]

-- `s[lo:hi]`, within bounds.
abbrev pub slice : Text → ℕ → ℕ → Text
slice s lo hi = take (hi - lo) (drop lo s)

char_is : Option ℕ → ℕ → Bool
char_is none c = false
char_is (some d) c = d == c

-- `s[len(s)-1] == c`, false on the empty text, where the code never asks.
unfoldable pub last_is : Text → ℕ → Bool
unfolding char_is
last_is s c = char_is (get_elem? s (length s - 1)) c

-- sort.Strings: its result is fixed by being sorted and a permutation, so any sorting function is it.
unfoldable pub insert_sorted : Text → List Text → List Text
insert_sorted t [] = t ∷ []
insert_sorted t (u ∷ us) = if text_le t u then t ∷ u ∷ us else u ∷ insert_sorted t us

unfoldable pub sort_strings : List Text → List Text
unfolding insert_sorted
sort_strings [] = []
sort_strings (t ∷ ts) = insert_sorted t (sort_strings ts)

-- No character of the text is `c`.
abbrev pub Lacks : ℕ → Text → Type 0
Lacks c s = All (λ d. d ≢ c) s
