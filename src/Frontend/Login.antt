-- ===== src/Frontend/Login.antt =====
-- stellance/frontend/app/(auth)/login/LoginForm.tsx and lib/api/auth.ts: where a login leads to, and the
-- text of an error.
use Prim.Native.Char.{code}
use stellances.Base.{
  none, some, false, ◌&&◌, ◌||◌, ◌<>◌, not, String, Bool, Option, List, [], ◌∷◌, if◌then◌else◌,
  nat_eq, ℕ,
}
use stellances.World.Action.{truthy}
use stellances.Frontend.Text.{starts_by, includes, includes_by}

abbrev pub starts : String → String → Bool
starts s t = starts_by code s t

-- `safeNextUrl`; the form of a registration has the same
unfoldable pub safe_next_url : Option String → String → String
unfolding includes_by
safe_next_url raw fallback = elim (truthy raw) [
  | none ↦ fallback
  | some s ↦ if starts s "/" && not (starts s "//") && not (includes s "://") then s else fallback
]

-- `message` of the body of an error
pub data Message : Type 0 where
  single : String → Message
  several : List String → Message

-- `join(", ")`
abbrev joined : List String → String
joined [] = ""
joined (s ∷ []) = s
joined (s ∷ t ∷ ts) = s <> ", " <> joined (t ∷ ts)

abbrev pub text_of : Message → String
text_of (single s) = s
text_of (several ss) = joined ss

-- what was thrown: an AuthApiError with its status, another Error, or something else
pub data Thrown : Type 0 where
  api_error : ℕ → Message → Thrown
  plain_error : String → Thrown
  something : Thrown

-- `extractErrorMessage`
unfoldable pub extract_error_message : Thrown → String → String
extract_error_message (api_error status m) fallback = text_of m
extract_error_message (plain_error s) fallback = s
extract_error_message something fallback = fallback

abbrev is_credential_error : Thrown → Bool
is_credential_error (api_error status m) = nat_eq status 401 || nat_eq status 403
is_credential_error _ = false

-- the `catch` of `onSubmit`
unfoldable pub login_error : Thrown → String
unfolding extract_error_message
login_error err = extract_error_message err (
    if is_credential_error err
    then "Invalid email or password."
    else "Something went wrong. Please try again.")
