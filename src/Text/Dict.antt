-- ===== src/Text/Dict.antt =====
-- Go maps with string keys, as association lists in which a key stands at most once. `lookup` is
-- `m[k]` with its `ok`, `insert` is `m[k] = v`.
use go_baseapp.Prelude.{◌≡◌, refl, List, [], ◌∷◌, Option, none, some, if◌then◌else◌, arith}
use go_baseapp.Text.{Text, text_eq}
use go_baseapp.Text.Equality.{text_eq_iff}

module _ {ℓ} {V : Type ℓ} where
  unfoldable pub lookup : Text → List (Text × V) → Option V
  lookup k [] = none
  lookup k ((j, v) ∷ m) = if text_eq j k then some v else lookup k m

  unfoldable pub insert : Text → V → List (Text × V) → List (Text × V)
  insert k v [] = (k, v) ∷ []
  insert k v ((j, w) ∷ m) = if text_eq j k then (j, v) ∷ m else (j, w) ∷ insert k v m

  pub lookup-insert :
      (k j : Text) (v : V) (m : List (Text × V))
      → lookup j (insert k v m) ≡ (if text_eq k j then some v else lookup j m)
  unfolding lookup insert
  lookup-insert k j v [] = refl
  lookup-insert k j v ((i, w) ∷ m) =
      ground (arith, text_eq_iff k j, text_eq_iff i k, text_eq_iff i j, lookup-insert k j v m)
