-- ===== src/Text/Splitting.antt =====
-- strings.Split, Join, IndexRune and Cut: how they undo one another.
use mathlib.Core.List.{cons-ne-nil}
use go_baseapp.Prelude.{
  ℕ, ◌≡◌, ◌≢◌, refl, ◌∙◌, ap, none, some, [], ◌∷◌, ◌++◌, List, arith, All, length,
}
use go_baseapp.Text.{Text, split, join, cons_head, index_rune, cut, Lacks}

pub split-ne-nil : (s : Text) (sep : ℕ) → split s sep ≢ []
unfolding split
split-ne-nil [] sep h = cc
split-ne-nil (c ∷ s) sep h = ground (arith, split-ne-nil s sep)

split-Lacks : (s : Text) (sep : ℕ) → Lacks sep s → split s sep ≡ s ∷ []
unfolding split
split-Lacks [] sep h = refl
split-Lacks (c ∷ s) sep (n, h) = ground (arith, split-Lacks s sep h)

split-append_sep : (p s : Text) (sep : ℕ) → Lacks sep p → split (p ++ sep ∷ s) sep ≡ p ∷ split s sep
unfolding split
split-append_sep [] s sep h = ground arith
split-append_sep (c ∷ p) s sep (n, h) = ground (arith, split-append_sep p s sep h)

-- Splitting a join gives the parts back, if there is one and none holds the separator.
pub split-join :
    (ps : List Text) (sep : ℕ) → ps ≢ [] → All (Lacks sep) ps → split (join ps sep) sep ≡ ps
unfolding join
split-join [] sep n h = absurd (n refl)
split-join (p ∷ []) sep n (h, _) = split-Lacks p sep h
split-join (p ∷ q ∷ ps) sep n (h, hs) =
    split-append_sep p _ sep h ∙ ap (λ t. p ∷ t) (split-join (q ∷ ps) sep (cons-ne-nil q ps) hs)

-- Joining the parts of a split gives the text back.
join-cons_head :
    (c : ℕ) (ps : List Text) (sep : ℕ) → ps ≢ [] → join (cons_head c ps) sep ≡ c ∷ join ps sep
unfolding join
join-cons_head c [] sep n = absurd (n refl)
join-cons_head c (p ∷ []) sep n = refl
join-cons_head c (p ∷ q ∷ ps) sep n = refl

join_nil_cons : (ps : List Text) (sep : ℕ) → ps ≢ [] → join ([] ∷ ps) sep ≡ sep ∷ join ps sep
unfolding join
join_nil_cons [] sep n = absurd (n refl)
join_nil_cons (p ∷ ps) sep n = refl

pub join-split : (s : Text) (sep : ℕ) → join (split s sep) sep ≡ s
unfolding split
join-split [] sep = unfold join in refl
join-split (c ∷ s) sep = ground (
  arith,
  join-split s sep,
  split-ne-nil s sep,
  join-cons_head c (split s sep) sep,
  join_nil_cons (split s sep) sep,
)

pub index_rune-Lacks : (s : Text) (r : ℕ) → Lacks r s → index_rune s r ≡ none
unfolding index_rune
index_rune-Lacks [] r h = refl
index_rune-Lacks (c ∷ s) r (n, h) = ground (arith, index_rune-Lacks s r h)

pub index_rune-append :
    (s t : Text) (r : ℕ) → Lacks r s → index_rune (s ++ r ∷ t) r ≡ some (length s)
unfolding index_rune
index_rune-append [] t r h = ground arith
index_rune-append (c ∷ s) t r (n, h) = ground (arith, index_rune-append s t r h)

pub cut-Lacks : (s : Text) (sep : ℕ) → Lacks sep s → cut s sep ≡ none
unfolding cut
cut-Lacks [] sep h = refl
cut-Lacks (c ∷ s) sep (n, h) = ground (arith, cut-Lacks s sep h)

pub cut-append : (s t : Text) (sep : ℕ) → Lacks sep s → cut (s ++ sep ∷ t) sep ≡ some (s, t)
unfolding cut
cut-append [] t sep h = ground arith
cut-append (c ∷ s) t sep (n, h) = ground (arith, cut-append s t sep h)
