-- ===== src/Text/Brackets.antt =====
-- A text of the form `base[inner]`: the positions that the emitters find in it.
use go_baseapp.Prelude.{
  zero, ◌≢◌, ℕ, suc, ◌+◌, ◌-◌, ◌≤◌, ◌<◌, ◌≡◌, sym, ◌∙◌, ap, true, some, [], ◌∷◌, ◌++◌, arith,
  length, get_elem?, length-append, take-length-append, drop-length-append, get_elem?-append,
  append_assoc,
}
use go_baseapp.Text.{char_is, Text, index_rune, last_is, slice}

pub last_is-append : (s : Text) (c : ℕ) → last_is (s ++ c ∷ []) c ≡ true
unfolding last_is
last_is-append s c =
    let e : length (s ++ c ∷ []) - 1 ≡ length s = omega (arith, length-append {0} s (c ∷ [])) in
    ap (λ i. char_is (get_elem? (s ++ c ∷ []) i) c) e
    ∙ ap (λ o. char_is o c) (get_elem?-append s (c ∷ []))
    ∙ ground arith

-- The part between the first bracket and the last character.
pub slice_inside :
    (base inner : Text) (a b : ℕ)
    → slice
        (base ++ a ∷ (inner ++ b ∷ []))
        (length base + 1)
        (length (base ++ a ∷ (inner ++ b ∷ [])) - 1)
      ≡ inner
slice_inside base inner a b =
    let whole = base ++ a ∷ (inner ++ b ∷ []) in
    let rest = inner ++ b ∷ [] in
    let size : length whole - 1 - (length base + 1) ≡ length inner =
      omega (arith, length-append {0} base (a ∷ rest), length-append {0} inner (b ∷ [])) in
    let front : base ++ a ∷ rest ≡ (base ++ a ∷ []) ++ rest =
      sym (append_assoc base (a ∷ []) rest) in
    let start : length base + 1 ≡ length (base ++ a ∷ []) =
      omega (arith, length-append {0} base (a ∷ [])) in
    rw (size, start, front, drop-length-append (base ++ a ∷ []) rest)
      (take-length-append inner (b ∷ []))

pub last_is_inside :
    (base inner : Text) (a b : ℕ) → last_is (base ++ a ∷ (inner ++ b ∷ [])) b ≡ true
last_is_inside base inner a b =
    rw (← append_assoc base (a ∷ inner) (b ∷ [])) (last_is-append (base ++ a ∷ inner) b)

index_rune_sound : (s : Text) (r i : ℕ) → index_rune s r ≡ some i → get_elem? s i ≡ some r
unfolding index_rune
index_rune_sound [] r i h = cc
index_rune_sound (c ∷ s) r zero h = ground arith
index_rune_sound (c ∷ s) r (suc i) h = ground (arith, index_rune_sound s r i)

get_elem?-lt : (s : Text) (i c : ℕ) → get_elem? s i ≡ some c → i < length s
get_elem?-lt [] i c h = cc
get_elem?-lt (d ∷ s) zero c h = omega arith
get_elem?-lt (d ∷ s) (suc i) c h = omega (arith, get_elem?-lt s i c h)

last_is_sound : (s : Text) (c : ℕ) → last_is s c ≡ true → get_elem? s (length s - 1) ≡ some c
unfolding last_is
last_is_sound s c h = ground arith

-- A text in which a bracket is found, and that ends in a closing one, can be cut where the emitters
-- cut it: the bounds of the slice are in order and within the text.
pub bracket_bounds :
    (s : Text) (i a b : ℕ)
    → a ≢ b
    → index_rune s a ≡ some i
    → last_is s b ≡ true
    → (i + 1 ≤ length s - 1) × (length s - 1 < length s)
bracket_bounds s i a b n f l =
    let size = get_elem?-lt s i a (index_rune_sound s a i f) in
    let apart : i ≢ length s - 1 = (λ (e : i ≡ length s - 1).
      let at_end : get_elem? s i ≡ some b = rw e (last_is_sound s b l) in
      let both : some a ≡ some b = sym (index_rune_sound s a i f) ∙ at_end in n (cc)) in
    (omega arith, omega arith)
