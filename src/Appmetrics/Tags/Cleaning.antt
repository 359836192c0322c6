-- ===== src/Appmetrics/Tags/Cleaning.antt =====
-- cleanAndSortTags: sorted, trimmed, without empty tags, and the same for every order of the tags.
use mathlib.Core.List.{Perm, Permᴰ}
use mathlib.Core.Logic.{∥∥₁_map}
use go_baseapp.Prelude.{
  ℕ, ◌≡◌, ◌≢◌, refl, sym, ◌∙◌, ap, true, false, List, [], ◌∷◌, ◌++◌, All, append-nil, append_assoc,
  if◌then◌else◌, Bool-cases, inl, inr,
}
use go_baseapp.Text.{Text, text_eq, trim_space, sort_strings, Lacks}
use go_baseapp.Text.Equality.{text_eq_sound, text_eq_refl}
use go_baseapp.Text.Sorting.{
  IsSorted, sort_strings_perm, sort_strings-IsSorted, sort_strings-perm, sort_strings-All,
  sort_strings_of_IsSorted,
}
use go_baseapp.Text.Trimming.{
  IsTrimmed, trim_space-IsTrimmed, trim_space_of_IsTrimmed, trim_space-Lacks,
}
use go_baseapp.Appmetrics.Tags.{clean_from, clean_and_sort_tags}

-- The tags that the loop keeps, in their order.
pub clean : List Text → List Text
clean [] = []
clean (t ∷ ts) = if text_eq (trim_space t) [] then clean ts else trim_space t ∷ clean ts

clean_from-clean : (ts acc : List Text) → clean_from ts acc ≡ acc ++ clean ts
unfolding clean_from clean
clean_from-clean [] acc = sym (append-nil acc)
clean_from-clean (t ∷ ts) acc = elim (Bool-cases (text_eq (trim_space t) [])) [
  | inl e ↦ rw e (clean_from-clean ts acc)
  | inr e ↦ rw e (clean_from-clean ts _ ∙ append_assoc acc _ _)
]

pub clean_and_sort_tags-clean : (ts : List Text) → clean_and_sort_tags ts ≡ sort_strings (clean ts)
unfolding clean_and_sort_tags
clean_and_sort_tags-clean ts = ap sort_strings (clean_from-clean ts [])

-- What every tag in a metric's name looks like.
abbrev pub IsClean : Text → Type 0
IsClean t = (t ≢ []) × IsTrimmed t

clean-IsClean : (ts : List Text) → All IsClean (clean ts)
unfolding clean
clean-IsClean [] = tt
clean-IsClean (t ∷ ts) = elim (Bool-cases (text_eq (trim_space t) [])) [
  | inl e ↦ rw e (clean-IsClean ts)
  | inr e ↦ rw e (
    (
      (λ h. let k : true ≡ false = sym (text_eq_refl []) ∙ (rw h at e) in cc),
      trim_space-IsTrimmed t,
    ),
    clean-IsClean ts,
  )
]

clean-Lacks : (c : ℕ) (ts : List Text) → All (Lacks c) ts → All (Lacks c) (clean ts)
unfolding clean
clean-Lacks c [] h = tt
clean-Lacks c (t ∷ ts) (p, h) = elim (Bool-cases (text_eq (trim_space t) [])) [
  | inl e ↦ rw e (clean-Lacks c ts h)
  | inr e ↦ rw e (trim_space-Lacks c t p, clean-Lacks c ts h)
]

clean_of_IsClean : (ts : List Text) → All IsClean ts → clean ts ≡ ts
unfolding clean
clean_of_IsClean [] h = refl
clean_of_IsClean (t ∷ ts) ((n, trimmed), h) =
    rw (trim_space_of_IsTrimmed t trimmed) (elim (Bool-cases (text_eq t [])) [
      | inl e ↦ absurd (n (text_eq_sound t [] e))
      | inr e ↦ rw e (ap (λ us. t ∷ us) (clean_of_IsClean ts h))
    ])

Permᴰ-refl : (l : List Text) → Permᴰ l l
Permᴰ-refl [] = Permᴰ.nil
Permᴰ-refl (t ∷ l) = Permᴰ.cons refl (Permᴰ-refl l)

clean-Permᴰ : {ts us : List Text} → Permᴰ ts us → Permᴰ (clean ts) (clean us)
unfolding clean
clean-Permᴰ Permᴰ.nil = Permᴰ.nil
clean-Permᴰ (Permᴰ.cons {b} e d) = rw e (elim (Bool-cases (text_eq (trim_space b) [])) [
  | inl q ↦ rw q (clean-Permᴰ d)
  | inr q ↦ rw q (Permᴰ.cons refl (clean-Permᴰ d))
])
clean-Permᴰ (Permᴰ.swap {a' = a} {b' = b} {l} e g) =
    rw (e, g)
      (elim (Bool-cases (text_eq (trim_space a) [])) [
        | inl q ↦ rw q (Permᴰ-refl _)
        | inr q ↦ rw q (elim (Bool-cases (text_eq (trim_space b) [])) [
          | inl r ↦ rw r (Permᴰ-refl _)
          | inr r ↦ rw r (Permᴰ.swap refl refl)
        ])
      ])
clean-Permᴰ (Permᴰ.trans d d') = Permᴰ.trans (clean-Permᴰ d) (clean-Permᴰ d')

clean-perm : (ts us : List Text) → Perm ts us → Perm (clean ts) (clean us)
clean-perm ts us p = ∥∥₁_map p (λ (d : Permᴰ ts us). clean-Permᴰ d)

-- Tags given in another order are cleaned and sorted to the same list.
pub clean_and_sort_tags-perm :
    (ts us : List Text) → Perm ts us → clean_and_sort_tags ts ≡ clean_and_sort_tags us
clean_and_sort_tags-perm ts us p =
    rw (clean_and_sort_tags-clean ts, clean_and_sort_tags-clean us)
      (sort_strings-perm _ _ (clean-perm ts us p))

pub clean_and_sort_tags-IsClean : (ts : List Text) → All IsClean (clean_and_sort_tags ts)
clean_and_sort_tags-IsClean ts =
    rw (clean_and_sort_tags-clean ts) (sort_strings-All IsClean _ (clean-IsClean ts))

pub clean_and_sort_tags-IsSorted : (ts : List Text) → IsSorted (clean_and_sort_tags ts)
clean_and_sort_tags-IsSorted ts = rw (clean_and_sort_tags-clean ts) (sort_strings-IsSorted _)

-- The result is in order, each tag in it is not empty and has no space at either end, and the tags
-- are those that are left of the given ones by trimming each and dropping the empty ones, each as
-- often as it was given.
pub clean_and_sort_tags_lem :
    (ts : List Text)
    → IsSorted (clean_and_sort_tags ts)
      × All IsClean (clean_and_sort_tags ts)
      × Perm (clean_and_sort_tags ts) (clean ts)
clean_and_sort_tags_lem ts = (
  clean_and_sort_tags-IsSorted ts,
  clean_and_sort_tags-IsClean ts,
  rw (clean_and_sort_tags-clean ts) (sort_strings_perm (clean ts)),
)

-- Cleaning cleaned tags again changes nothing.
pub clean_and_sort_tags_idem :
    (ts : List Text) → clean_and_sort_tags (clean_and_sort_tags ts) ≡ clean_and_sort_tags ts
clean_and_sort_tags_idem ts =
    clean_and_sort_tags-clean _
    ∙ ap sort_strings (clean_of_IsClean _ (clean_and_sort_tags-IsClean ts))
    ∙ sort_strings_of_IsSorted _ (clean_and_sort_tags-IsSorted ts)

pub clean_and_sort_tags-Lacks :
    (c : ℕ) (ts : List Text) → All (Lacks c) ts → All (Lacks c) (clean_and_sort_tags ts)
clean_and_sort_tags-Lacks c ts h =
    rw (clean_and_sort_tags-clean ts) (sort_strings-All (Lacks c) _ (clean-Lacks c ts h))
