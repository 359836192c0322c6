-- ===== src/Text/Sorting.antt =====
-- sort.Strings: sorted, a permutation, unchanged on sorted input, and blind to the input's order.
use mathlib.Core.List.Perm
use mathlib.Core.List.{Perm, Permᴰ}
use mathlib.Core.Logic.{∥∥₁_elim}
use native.Mathlib.Decide.{ℕ_discrete}
use go_baseapp.Prelude.{Bool-cases, inl, inr, ◌≡◌, refl, ◌∙◌, true, [], ◌∷◌, List, arith, All}
use go_baseapp.Text.{Text, text_le, insert_sorted, sort_strings}
use go_baseapp.Text.Equality.{text_le_total, text_le_antisymm, text_le_trans}

-- Each item is at most the next one.
abbrev pub IsSorted : List Text → Type 0
IsSorted [] = Unit
IsSorted (t ∷ []) = Unit
IsSorted (t ∷ u ∷ us) = (text_le t u ≡ true) × IsSorted (u ∷ us)

insert_sorted-IsSorted : (t : Text) (us : List Text) → IsSorted us → IsSorted (insert_sorted t us)
unfolding insert_sorted
insert_sorted-IsSorted t [] h = tt
insert_sorted-IsSorted t (u ∷ []) h = ground (arith, text_le_total t u)
insert_sorted-IsSorted t (u ∷ v ∷ us) (p, h) =
    ground (arith, text_le_total t u, insert_sorted-IsSorted t (v ∷ us) h)

pub sort_strings-IsSorted : (ts : List Text) → IsSorted (sort_strings ts)
unfolding sort_strings
sort_strings-IsSorted [] = tt
sort_strings-IsSorted (t ∷ ts) = insert_sorted-IsSorted t _ (sort_strings-IsSorted ts)

insert_sorted_head : (t : Text) (us : List Text) → IsSorted (t ∷ us) → insert_sorted t us ≡ t ∷ us
unfolding insert_sorted
insert_sorted_head t [] h = refl
insert_sorted_head t (u ∷ us) (p, h) = rw p

IsSorted-tail : (t : Text) (us : List Text) → IsSorted (t ∷ us) → IsSorted us
IsSorted-tail t [] h = tt
IsSorted-tail t (u ∷ us) (p, h) = h

pub sort_strings_of_IsSorted : (ts : List Text) → IsSorted ts → sort_strings ts ≡ ts
unfolding sort_strings
sort_strings_of_IsSorted [] h = refl
sort_strings_of_IsSorted (t ∷ ts) h =
    rw (sort_strings_of_IsSorted ts (IsSorted-tail t ts h)) (insert_sorted_head t ts h)

insert_sorted_comm :
    (t u : Text) (vs : List Text)
    → insert_sorted t (insert_sorted u vs) ≡ insert_sorted u (insert_sorted t vs)
unfolding insert_sorted
insert_sorted_comm t u [] = ground (arith, text_le_total t u, text_le_antisymm t u)
insert_sorted_comm t u (v ∷ vs) = ground (
  arith,
  text_le_total t u,
  text_le_antisymm t u,
  text_le_trans t u v,
  text_le_trans u t v,
  insert_sorted_comm t u vs,
)

List_Text-set : IsSet (List Text)
List_Text-set = hlevel ℕ_discrete

sort_strings-Permᴰ : {ts us : List Text} → Permᴰ ts us → sort_strings ts ≡ sort_strings us
unfolding sort_strings
sort_strings-Permᴰ Permᴰ.nil = refl
sort_strings-Permᴰ (Permᴰ.cons e d) = rw (e, sort_strings-Permᴰ d)
sort_strings-Permᴰ (Permᴰ.swap e g) = rw (e, g) (insert_sorted_comm _ _ _)
sort_strings-Permᴰ (Permᴰ.trans d d') = sort_strings-Permᴰ d ∙ sort_strings-Permᴰ d'

-- The order of the input does not show in the result.
pub sort_strings-perm : (ts us : List Text) → Perm ts us → sort_strings ts ≡ sort_strings us
sort_strings-perm ts us p =
    ∥∥₁_elim p (List_Text-set _ _) (λ (d : Permᴰ ts us). sort_strings-Permᴰ d)

insert_sorted-perm : (t : Text) (us : List Text) → Perm (insert_sorted t us) (t ∷ us)
unfolding insert_sorted
insert_sorted-perm t [] = Perm.refl _
insert_sorted-perm t (u ∷ us) = elim (Bool-cases (text_le t u)) [
  | inl p ↦ rw p (Perm.refl _)
  | inr p ↦ rw p (Perm.trans (Perm.cons u (insert_sorted-perm t us)) (Perm.swap t u us))
]

-- Nothing is lost or made up.
pub sort_strings_perm : (ts : List Text) → Perm (sort_strings ts) ts
unfolding sort_strings
sort_strings_perm [] = Perm.refl _
sort_strings_perm (t ∷ ts) =
    Perm.trans (insert_sorted-perm t (sort_strings ts)) (Perm.cons t (sort_strings_perm ts))

module _ (P : Text → Type 0) where
  insert_sorted-All : (t : Text) (us : List Text) → P t → All P us → All P (insert_sorted t us)
  unfolding insert_sorted
  insert_sorted-All t [] p h = (p, tt)
  insert_sorted-All t (u ∷ us) p (q, h) = elim (Bool-cases (text_le t u)) [
    | inl e ↦ rw e (p, (q, h))
    | inr e ↦ rw e (q, insert_sorted-All t us p h)
  ]

  pub sort_strings-All : (ts : List Text) → All P ts → All P (sort_strings ts)
  unfolding sort_strings
  sort_strings-All [] h = tt
  sort_strings-All (t ∷ ts) (p, h) = insert_sorted-All t _ p (sort_strings-All ts h)
