-- ===== src/Appmetrics/Emitter/Prometheus/Sanitizing.antt =====
-- What `sanitize` makes of any text, and when the result is a name that Prometheus accepts.
use mathlib.Core.Path.{subst}
use go_baseapp.Prelude.{
  ℕ, ◌≡◌, Bool, false, ◌++◌, ◌∷◌, Bool-cases, [], arith, sym, true, append-nil, inl, refl, ◌⊎◌,
  append_assoc, inr, if◌then◌else◌, All, Option, get_elem?, leb, ◌||◌, ◌∙◌, ap, none, some, ◌&&◌,
  ◌↔◌,
}
use go_baseapp.Prelude.{◌==◌}
use go_baseapp.Text.{Text}
use go_baseapp.Appmetrics.Emitter.Prometheus.{sanitize_from, sanitize, sanitize_name, valid_in_name}

module _ (valid : ℕ → Bool) where
  -- The text that is written behind what is there, by whether the last rune read was valid.
  kept_after : Text → Bool → Text
  kept_after [] last_is_valid = []
  kept_after (c ∷ v) last_is_valid =
      let kept = c ∷ kept_after v true in
      let replaced = b'_' ∷ kept_after v false in
      let dropped = kept_after v last_is_valid in
      if valid c then kept else if last_is_valid then replaced else dropped

  sanitize_from-kept_after :
      (v clean : Text) (b : Bool) → sanitize_from valid v clean b ≡ clean ++ kept_after v b
  unfolding sanitize_from kept_after
  sanitize_from-kept_after [] clean b = sym (append-nil clean)
  sanitize_from-kept_after (c ∷ v) clean b = ground (
    arith,
    sanitize_from-kept_after v (clean ++ c ∷ []) true,
    sanitize_from-kept_after v (clean ++ b'_' ∷ []) false,
    sanitize_from-kept_after v clean b,
    append_assoc clean (c ∷ []) (kept_after v true),
    append_assoc clean (b'_' ∷ []) (kept_after v false),
  )

  sanitize-kept_after : (v : Text) → sanitize v valid ≡ kept_after v false
  unfolding sanitize
  sanitize-kept_after v = sanitize_from-kept_after v [] false

  -- Valid runes, and underscores each of which stands behind a valid rune: `allowed` says whether an
  -- underscore may come next.
  abbrev pub IsTidy : Bool → Text → Type 0
  IsTidy allowed [] = Unit
  IsTidy allowed (c ∷ v) =
      ((valid c ≡ true) × IsTidy true v) ⊎ ((c ≡ b'_') × (allowed ≡ true) × IsTidy false v)

  kept_after-IsTidy : (v : Text) (b : Bool) → IsTidy b (kept_after v b)
  unfolding kept_after
  kept_after-IsTidy [] b = tt
  kept_after-IsTidy (c ∷ v) true = elim (Bool-cases (valid c)) [
    | inl e ↦ rw e (inl (e, kept_after-IsTidy v true))
    | inr e ↦ rw e (inr (refl, refl, kept_after-IsTidy v false))
  ]
  kept_after-IsTidy (c ∷ v) false = elim (Bool-cases (valid c)) [
    | inl e ↦ rw e (inl (e, kept_after-IsTidy v true))
    | inr e ↦ rw e (kept_after-IsTidy v false)
  ]

  kept_after_of_IsTidy :
      (v : Text) (b : Bool) → valid b'_' ≡ false → IsTidy b v → kept_after v b ≡ v
  unfolding kept_after
  kept_after_of_IsTidy [] b u h = refl
  kept_after_of_IsTidy (c ∷ v) b u h =
      ground (arith, kept_after_of_IsTidy v true u, kept_after_of_IsTidy v false u)

  -- Of any text `sanitize` makes valid runes and underscores, each underscore right behind a valid
  -- rune; and it leaves exactly the texts unchanged that already have this form.
  pub sanitize-IsTidy :
      valid b'_' ≡ false
      → (v : Text) → IsTidy false (sanitize v valid) × ((sanitize v valid ≡ v) ↔ IsTidy false v)
  sanitize-IsTidy u v =
      let tidy : IsTidy false (sanitize v valid) =
        rw (sanitize-kept_after v) (kept_after-IsTidy v false) in
      (
        tidy,
        (
          λ h. subst (IsTidy false) h tidy,
          λ h. sanitize-kept_after v ∙ kept_after_of_IsTidy v false u h,
        ),
      )

  pub sanitize_idem :
      valid b'_' ≡ false → (v : Text) → sanitize (sanitize v valid) valid ≡ sanitize v valid
  sanitize_idem u v = (sanitize-IsTidy u (sanitize v valid)).1.1 (sanitize-IsTidy u v).0

  -- The first valid rune of the text.
  pub first_valid : Text → Option ℕ
  first_valid [] = none
  first_valid (c ∷ v) = if valid c then some c else first_valid v

  kept_after-first_valid : (v : Text) → get_elem? (kept_after v false) 0 ≡ first_valid v
  unfolding kept_after first_valid
  kept_after-first_valid [] = refl
  kept_after-first_valid (c ∷ v) = ground (arith, kept_after-first_valid v)

  pub sanitize-first_valid : (v : Text) → get_elem? (sanitize v valid) 0 ≡ first_valid v
  sanitize-first_valid v =
      ap (λ t. get_elem? t 0) (sanitize-kept_after v) ∙ kept_after-first_valid v

unfoldable pub is_digit : ℕ → Bool
is_digit c = leb b'0' c && leb c b'9'

unfoldable pub name_char : ℕ → Bool
unfolding is_digit
name_char c =
    is_digit c || (leb b'A' c && leb c b'Z') || (leb b'a' c && leb c b'z') || c == b'_' || c == b':'

-- The grammar of the Prometheus data model: [a-zA-Z_:][a-zA-Z0-9_:]*.
abbrev pub IsMetricName : Text → Type 0
IsMetricName [] = ⊥
IsMetricName (c ∷ v) = (is_digit c ≡ false) × All (λ d. name_char d ≡ true) (c ∷ v)

-- There is a rune, and it is no digit.
abbrev pub IsNoDigit : Option ℕ → Type 0
IsNoDigit none = ⊥
IsNoDigit (some c) = is_digit c ≡ false

IsTidy-name_char :
    (b : Bool) (v : Text) → IsTidy valid_in_name b v → All (λ d. name_char d ≡ true) v
unfolding name_char valid_in_name
IsTidy-name_char b [] h = tt
IsTidy-name_char b (c ∷ v) (inl (e, h)) = (ground arith, IsTidy-name_char true v h)
IsTidy-name_char b (c ∷ v) (inr (e, _, h)) = (ground arith, IsTidy-name_char false v h)

name_of_first :
    (v : Text) → All (λ d. name_char d ≡ true) v → IsMetricName v ↔ IsNoDigit (get_elem? v 0)
name_of_first [] h = (λ x. x, λ x. x)
name_of_first (c ∷ v) h = (λ x. x.0, λ x. (x, h))

-- A sanitized metric name is a name that Prometheus accepts exactly if the first letter, digit or
-- colon of the original name exists and is no digit.
pub sanitize_name-IsMetricName :
    (v : Text) → IsMetricName (sanitize_name v) ↔ IsNoDigit (first_valid valid_in_name v)
unfolding sanitize_name
sanitize_name-IsMetricName v =
    let tidy = (sanitize-IsTidy valid_in_name (unfold valid_in_name in refl) v).0 in
    rw (← sanitize-first_valid valid_in_name v)
      (name_of_first (sanitize v valid_in_name) (IsTidy-name_char false _ tidy))
