-- ===== src/Text/Trimming.antt =====
-- strings.TrimSpace: the result has no space at either end, and trimming it again changes nothing.
use mathlib.Core.List.{reverse-reverse, reverse-append}
use go_baseapp.Prelude.{
  ℕ, ◌≡◌, refl, sym, ◌∙◌, ap, false, [], ◌∷◌, ◌++◌, arith, All-reverse_aux, Bool-cases, inl, inr,
  reverse,
}
use go_baseapp.Text.{Text, is_space, trim_left, trim_space, Lacks}

-- The text does not begin with a space.
abbrev pub StartsClean : Text → Type 0
StartsClean [] = Unit
StartsClean (c ∷ s) = is_space c ≡ false

-- The text neither begins nor ends with a space.
abbrev pub IsTrimmed : Text → Type 0
IsTrimmed s = StartsClean s × StartsClean (reverse s)

trim_left-StartsClean : (s : Text) → StartsClean (trim_left s)
unfolding trim_left
trim_left-StartsClean [] = tt
trim_left-StartsClean (c ∷ s) = ground (arith, trim_left-StartsClean s)

trim_left_of_StartsClean : (s : Text) → StartsClean s → trim_left s ≡ s
unfolding trim_left
trim_left_of_StartsClean [] h = refl
trim_left_of_StartsClean (c ∷ s) h = rw h

-- A suffix that trimming leaves, and what it cut off in front.
trim_left-append : (s : Text) → (p : Text) × (p ++ trim_left s ≡ s)
unfolding trim_left
trim_left-append [] = ([], refl)
trim_left-append (c ∷ s) = elim (Bool-cases (is_space c)) [
  | inl e ↦ rw e (c ∷ (trim_left-append s).0, ap (λ t. c ∷ t) (trim_left-append s).1)
  | inr e ↦ rw e ([], refl)
]

StartsClean-append : (s t : Text) → StartsClean (s ++ t) → StartsClean s
StartsClean-append [] t h = tt
StartsClean-append (c ∷ s) t h = h

pub trim_space-IsTrimmed : (s : Text) → IsTrimmed (trim_space s)
unfolding trim_space
trim_space-IsTrimmed s =
    let u = trim_left s in
    let (p, e) = trim_left-append (reverse u) in
    let back : u ≡ reverse (trim_left (reverse u)) ++ reverse p =
      sym (reverse-reverse u) ∙ ap reverse (sym e) ∙ reverse-append p (trim_left (reverse u)) in
    (
      StartsClean-append _ (reverse p) (rw (← back) (trim_left-StartsClean s)),
      rw reverse-reverse (trim_left-StartsClean (reverse u)),
    )

pub trim_space_of_IsTrimmed : (s : Text) → IsTrimmed s → trim_space s ≡ s
unfolding trim_space
trim_space_of_IsTrimmed s (h, k) =
    rw (trim_left_of_StartsClean s h, trim_left_of_StartsClean (reverse s) k) (reverse-reverse s)

pub trim_space_idem : (s : Text) → trim_space (trim_space s) ≡ trim_space s
trim_space_idem s = trim_space_of_IsTrimmed _ (trim_space-IsTrimmed s)

trim_left-Lacks : (c : ℕ) (s : Text) → Lacks c s → Lacks c (trim_left s)
unfolding trim_left
trim_left-Lacks c [] h = tt
trim_left-Lacks c (d ∷ s) h = ground (arith, trim_left-Lacks c s h.1)

reverse-Lacks : (c : ℕ) (s : Text) → Lacks c s → Lacks c (reverse s)
reverse-Lacks c s h = All-reverse_aux _ s [] h tt

pub trim_space-Lacks : (c : ℕ) (s : Text) → Lacks c s → Lacks c (trim_space s)
unfolding trim_space
trim_space-Lacks c s h =
    reverse-Lacks c _ (trim_left-Lacks c _ (reverse-Lacks c _ (trim_left-Lacks c s h)))
