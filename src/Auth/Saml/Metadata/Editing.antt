-- ===== src/Auth/Saml/Metadata/Editing.antt =====
-- What the metadata handler makes of the generated metadata.
use go_baseapp.Prelude.{
  ℕ, ◌+◌, ◌≤◌, ◌≡◌, refl, sym, ap, ◌∙◌, ◌⊎◌, inl, inr, Bool, true, false, some, List, [], ◌∷◌, ◌++◌,
  arith, if◌then◌else◌, Bool-cases, All,
}
use go_baseapp.Text.{Text, text_eq}
use go_baseapp.Auth.Saml.{KeyDescriptor, Descriptor}
use go_baseapp.Auth.Saml.Metadata.{is_encryption, remove_encryption, edit_metadata}
use go_baseapp.Auth.Saml.Metadata.Removing.{IsPlain, remove_one, remove_none}

-- The keys for other uses than encryption.
pub plain_keys : List KeyDescriptor → List KeyDescriptor
plain_keys [] = []
plain_keys (k ∷ ks) = if is_encryption k then plain_keys ks else k ∷ plain_keys ks

-- How many of the keys are for encryption.
unfoldable pub encryption_count : List KeyDescriptor → ℕ
encryption_count [] = 0
encryption_count (k ∷ ks) = (if is_encryption k then 1 else 0) + encryption_count ks

plain_keys-IsPlain : (ks : List KeyDescriptor) → All IsPlain ks → plain_keys ks ≡ ks
unfolding plain_keys
plain_keys-IsPlain [] h = refl
plain_keys-IsPlain (k ∷ ks) (p, h) = rw (p, plain_keys-IsPlain ks h) refl

plain_keys-middle :
    (ys zs : List KeyDescriptor) (x : KeyDescriptor)
    → All IsPlain ys
    → All IsPlain zs
    → is_encryption x ≡ true
    → plain_keys (ys ++ x ∷ zs) ≡ ys ++ zs
unfolding plain_keys
plain_keys-middle [] zs x h k p = rw p (plain_keys-IsPlain zs k)
plain_keys-middle (y ∷ ys) zs x (q, h) k p = rw (q, plain_keys-middle ys zs x h k p) refl

none_counted : (ks : List KeyDescriptor) → encryption_count ks ≡ 0 → All IsPlain ks
unfolding encryption_count
none_counted [] h = _
none_counted (k ∷ ks) h = elim (Bool-cases (is_encryption k)) [
  | inl e ↦ absurd (ground arith)
  | inr e ↦ (e, none_counted ks (ground arith))
]

-- The one encryption key, with the keys around it.
abbrev OneKey : List KeyDescriptor → Type 0
OneKey ks =
    (ys zs : List KeyDescriptor) × (x : KeyDescriptor) × (ks ≡ ys ++ x ∷ zs)
    × All IsPlain ys
    × All IsPlain zs
    × (is_encryption x ≡ true)

find_one : (ks : List KeyDescriptor) → encryption_count ks ≤ 1 → All IsPlain ks ⊎ OneKey ks
unfolding encryption_count
find_one [] h = inl _
find_one (k ∷ ks) h = elim (Bool-cases (is_encryption k)) [
  | inl e ↦ inr ([], ks, k, refl, _, none_counted ks (ground arith), e)
  | inr e ↦ elim (find_one ks (ground arith)) [
    | inl plain ↦ inl (e, plain)
    | inr (ys, zs, x, at, before, after, q) ↦
        inr (k ∷ ys, zs, x, ap (λ t. k ∷ t) at, (e, before), after, q)
  ]
]

remove_encryption-plain_keys :
    (ks : List KeyDescriptor)
    → encryption_count ks ≤ 1
    → remove_encryption ks ≡ some (plain_keys ks)
remove_encryption-plain_keys ks h = elim (find_one ks h) [
  | inl plain ↦ remove_none ks plain ∙ ap some (sym (plain_keys-IsPlain ks plain))
  | inr (ys, zs, x, at, before, after, q) ↦
      rw at (
        remove_one ys zs x before after q
        ∙ ap some (sym (plain_keys-middle ys zs x before after q)))
]

-- If the metadata has at most one key for encryption, the handler changes only the first descriptor:
-- it drops the logout services if no logout path is set, and exactly the keys for encryption if
-- encryption is disabled, and it keeps the other keys in their order.
pub edit_metadata-plain_keys :
    (logout_path : Text) (disable_encryption : Bool) (d : Descriptor) (ds : List Descriptor)
    → encryption_count d.key_descriptors ≤ 1
    → edit_metadata logout_path disable_encryption (d ∷ ds)
      ≡ some (
          (record {
            single_logout_services =
                if text_eq logout_path [] then [] else d.single_logout_services;
            key_descriptors =
                if disable_encryption then plain_keys d.key_descriptors else d.key_descriptors;
            descriptor_rest = d.descriptor_rest;
          })
          ∷ ds)
unfolding edit_metadata
edit_metadata-plain_keys logout_path true d ds h =
    rw (remove_encryption-plain_keys d.key_descriptors h)
      (elim (Bool-cases (text_eq logout_path [])) [ inl e ↦ rw e refl | inr e ↦ rw e refl ])
edit_metadata-plain_keys logout_path false d ds h = elim (Bool-cases (text_eq logout_path [])) [
  | inl e ↦ rw e refl
  | inr e ↦ rw e refl
]
