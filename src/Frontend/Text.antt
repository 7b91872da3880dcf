-- ===== src/Frontend/Text.antt =====
-- `includes` of a text, as the frontend uses it.
use Prim.Native.Char.{Char, code}
use stellances.Base.{
  true, false, ℕ, String, Bool, ◌&&◌, ◌||◌, nat_eq, is_empty, if◌then◌else◌, leb, ◌+◌,
}

module _ (read : Char → ℕ) where
  -- `s.startsWith(t)`, the characters compared by what `read` makes of them
  abbrev pub starts_by : String → String → Bool
  starts_by s String.[] = true
  starts_by String.[] (String.◌∷◌ d t) = false
  starts_by (String.◌∷◌ c s) (String.◌∷◌ d t) = nat_eq (read c) (read d) && starts_by s t

  -- `s.includes(t)`
  unfoldable pub includes_by : String → String → Bool
  includes_by String.[] t = is_empty t
  includes_by (String.◌∷◌ c s) t = starts_by (String.◌∷◌ c s) t || includes_by s t

abbrev pub includes : String → String → Bool
includes s t = includes_by code s t

-- a letter of ASCII as its small letter
abbrev small : Char → ℕ
small c = if leb 65 (code c) && leb (code c) 90 then code c + 32 else code c

-- `s.toLowerCase().includes(t.toLowerCase())`
abbrev pub includes_lower : String → String → Bool
includes_lower s t = includes_by small s t
