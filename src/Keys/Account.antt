-- ===== src/Keys/Account.antt =====
-- web/src/features/account/api-key-section.tsx: the account's own key.
use woodgate.Common.{
  if◌then◌else◌, is_empty, some_or, Text, codes, Bool, true, false, Option, List, [], ◌∷◌,
}

-- The section's variables, with the titles of its toasts, latest first.
pub record KeySection : Type 0 where
  pub confirm_rotate : Bool
  pub confirm_revoke : Bool
  pub toasts : List Text

-- `apiKey` of the account, where a missing key is the empty text.
abbrev pub api_key : Option Text → Text
api_key key = some_or key []

-- `handleCopy`, with whether the clipboard takes the text.
unfoldable pub handle_copy : Option Text → (copies : Bool) → KeySection → KeySection
handle_copy key copies s =
    if is_empty (api_key key)
    then s
    else record s { toasts = (if copies then codes "Copied" else codes "Copy Failed") ∷ s.toasts }

-- `handleRotate` and `handleRevoke`, with whether the request succeeds. Where it fails, the dialog
-- stays and the mutation cache tells of it.
unfoldable pub handle_rotate : (succeeds : Bool) → KeySection → KeySection
handle_rotate true s = record s {
  confirm_rotate = false;
  toasts = codes "API Key Rotated" ∷ s.toasts;
}
handle_rotate false s = s

unfoldable pub handle_revoke : (succeeds : Bool) → KeySection → KeySection
handle_revoke true s = record s {
  confirm_revoke = false;
  toasts = codes "API Key Revoked" ∷ s.toasts;
}
handle_revoke false s = s

-- What the section offers: Generate, or the key with its three buttons.
pub data KeyAction : Type 0 where
  generate copy rotate revoke : KeyAction

unfoldable pub key_actions : Option Text → List KeyAction
key_actions key = if is_empty (api_key key) then generate ∷ [] else copy ∷ rotate ∷ revoke ∷ []
