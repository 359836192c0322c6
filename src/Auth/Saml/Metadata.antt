-- ===== src/Auth/Saml/Metadata.antt =====
-- baseapp/auth/saml/serviceprovider.go: the handler of MetadataHandler.
pub mod Removing
pub mod Editing
use go_baseapp.Prelude.{
  ℕ, zero, suc, ◌+◌, ◌-◌, ◌⊎◌, inl, inr, Bool, ◌||◌, Option, none, some, List, [], ◌∷◌, ◌++◌, leb,
  if◌then◌else◌, ◌>>=◌, length, get_elem?, take, drop,
}
use go_baseapp.Text.{Text, codes, text_eq}
use go_baseapp.Auth.{Reply, calls}
use go_baseapp.Baseapp.Errors.{set_header, write}
use go_baseapp.Auth.Saml.{Library, Request, KeyDescriptor, Descriptor, generate_metadata}
use go_baseapp.Auth.Saml.Params.{Provider}
use go_baseapp.Auth.Saml.Handlers.{wrap, respond, settings_for_request}

-- A slice: its backing array, and its length.
pub record Slice : Type 0 where
  pub array : List KeyDescriptor
  pub len : ℕ

unfoldable pub is_encryption : KeyDescriptor → Bool
is_encryption k = text_eq k.key_use (codes "encryption")

-- `append(s[:i], s[i+1:]...)`: the items behind `i` move one place down in the backing array, whose
-- item at the old end stays. `none` is the panic of a slice beyond the length.
unfoldable pub remove_at : ℕ → Slice → Option Slice
remove_at i s =
    if leb (i + 1) s.len
    then some (record {
      array =
          take i s.array
          ++ (take (s.len - (i + 1)) (drop (i + 1) s.array) ++ drop (s.len - 1) s.array);
      len = s.len - 1;
    })
    else none

-- One round of the loop, on the item that stands at `i` in the backing array.
remove_if : Option KeyDescriptor → ℕ → Slice → Option Slice
unfolding is_encryption remove_at
remove_if none i s = none
remove_if (some k) i s = if is_encryption k then remove_at i s else some s

-- `for i, k := range role.KeyDescriptors`: the number of rounds is the length at the start, and the
-- items are read from the backing array, in which the loop moves them.
remove_loop : ℕ → ℕ → Slice → Option Slice
unfolding remove_if
remove_loop zero i s = some s
remove_loop (suc rounds) i s = remove_if (get_elem? s.array i) i s >>= remove_loop rounds (i + 1)

items : Option Slice → Option (List KeyDescriptor)
items none = none
items (some s) = some (take s.len s.array)

-- The key descriptors after the loop.
unfoldable pub remove_encryption : List KeyDescriptor → Option (List KeyDescriptor)
unfolding remove_loop items
remove_encryption ks = items (remove_loop (length ks) 0 (record { array = ks; len = length ks }))

edited : Descriptor → Option (List KeyDescriptor) → List Descriptor → Option (List Descriptor)
edited d none ds = none
edited d (some ks) ds = some (record d { key_descriptors = ks } ∷ ds)

-- The edits of the metadata; an empty list of descriptors is a panic where one is edited.
unfoldable pub edit_metadata : Text → Bool → List Descriptor → Option (List Descriptor)
unfolding edited
edit_metadata logout_path disable_encryption [] =
    if text_eq logout_path [] || disable_encryption then none else some []
edit_metadata logout_path disable_encryption (d ∷ ds) =
    let d' = if text_eq logout_path [] then record d { single_logout_services = [] } else d in
    edited d'
      (if disable_encryption then remove_encryption d.key_descriptors else some d.key_descriptors)
      ds

module _ (lib : Library) (World : Type 0) where
  served : Provider lib World → Text ⊎ ℕ → Option Reply
  served sp (inr err) = respond lib World sp (wrap generate_metadata 500 err)
  served sp (inl md) =
      some (calls (set_header (codes "Content-Type") (codes "application/xml") ∷ write md ∷ []))

  served_metadata : Provider lib World → Option (List Descriptor) → Option Reply
  unfolding served
  served_metadata sp none = none
  served_metadata sp (some ds) = served sp (lib.marshal ds)

  -- The handler of `MetadataHandler`; `none` is a panic.
  unfoldable pub serve_metadata : Provider lib World → Request → Option Reply
  unfolding served_metadata
  serve_metadata sp r = served_metadata sp (
      edit_metadata sp.logout_path sp.disable_encryption
        (lib.metadata (settings_for_request lib World sp r)))
