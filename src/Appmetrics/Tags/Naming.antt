-- ===== src/Appmetrics/Tags/Naming.antt =====
-- The name that a tagged metric registers under: the bare name, or the name with the sorted tags in
-- brackets.
use mathlib.Core.List.{Perm}
use go_baseapp.Prelude.{ℕ, ◌+◌, ◌≡◌, refl, ◌∙◌, ap, List, [], ◌∷◌, ◌++◌, arith, append_assoc}
use go_baseapp.Text.{codes, Text, join}
use go_baseapp.Appmetrics.Tags.{bracketed, write_tags, clean_and_sort_tags, tag_name}
use go_baseapp.Appmetrics.Tags.Cleaning.{clean_and_sort_tags-perm}

write_tags_next :
    (i : ℕ) (t : Text) (ts : List Text) (name : Text)
    → write_tags (i + 1) (t ∷ ts) name ≡ write_tags (i + 1 + 1) ts (name ++ b',' ∷ t)
unfolding write_tags
write_tags_next i t ts name = ground (arith, append_assoc name (b',' ∷ []) t)

write_tags_after :
    (i : ℕ) (t : Text) (ts : List Text) (name : Text)
    → write_tags (i + 1) (t ∷ ts) name ≡ name ++ b',' ∷ join (t ∷ ts) b','
write_tags_after i t [] name =
    unfold join in (write_tags_next i t [] name ∙ unfold write_tags in refl)
write_tags_after i t (u ∷ ts) name =
    write_tags_next i t (u ∷ ts) name
    ∙ write_tags_after (i + 1) u ts (name ++ b',' ∷ t)
    ∙ unfold join in append_assoc name (b',' ∷ t) _

write_tags-join :
    (t : Text) (ts : List Text) (name : Text)
    → write_tags 0 (t ∷ ts) name ≡ name ++ join (t ∷ ts) b','
unfolding write_tags join
write_tags-join t [] name = refl
write_tags-join t (u ∷ ts) name = write_tags_after 0 u ts (name ++ t) ∙ append_assoc name t _

-- With no tag left after cleaning, the name is the bare name.
pub tag_name-nil :
    (base : Text) (tags : List Text) → clean_and_sort_tags tags ≡ [] → tag_name base tags ≡ base
unfolding tag_name
tag_name-nil base tags e = ap (bracketed base) e

pub tag_name-cons :
    (base : Text) (tags : List Text) (t : Text) (ts : List Text)
    → clean_and_sort_tags tags ≡ t ∷ ts
    → tag_name base tags ≡ base ++ b'[' ∷ (join (t ∷ ts) b',' ++ b']' ∷ [])
unfolding tag_name
tag_name-cons base tags t ts e =
    ap (bracketed base) e
    ∙ ap (λ u. u ++ codes "]") (write_tags-join t ts (base ++ codes "["))
    ∙ simp append_assoc

-- The order in which the tags are given does not show in the name.
pub tag_name-perm :
    (base : Text) (ts us : List Text) → Perm ts us → tag_name base ts ≡ tag_name base us
unfolding tag_name
tag_name-perm base ts us p = ap (bracketed base) (clean_and_sort_tags-perm ts us p)
