-- ===== src/Frontend/Redirect.antt =====
-- Where a login may lead to.
use Prim.Native.Char.{char}
use stellances.Base.{
  some, true, false, ◌≡◌, ◌⊎◌, String, Option, refl, arith, inl, inr, Bool-cases, Option-cases,
  ◌&&◌, not,
}
use stellances.World.Action.{truthy}
use stellances.World.Laws.{truthy-some}
use stellances.Frontend.Text.{includes, includes_by}
use stellances.Frontend.Login.{starts, safe_next_url}

-- a path whose second character is a backslash, which a browser reads as a second slash
abbrev pub behind_backslash : String → String
behind_backslash host = String.◌∷◌ (char 47 tt) (String.◌∷◌ (char 92 tt) host)

-- the fallback, or the text that was asked for, which begins with one slash and has no `://`
abbrev pub Target : Option String → String → String → Type 0
Target raw fallback url =
    (url ≡ fallback)
    ⊎ ((raw ≡ some url)
        × (starts url "/" ≡ true)
        × (starts url "//" ≡ false)
        × (includes url "://" ≡ false))

safe_next_url-Target :
    (raw : Option String) (fallback : String) → Target raw fallback (safe_next_url raw fallback)
unfolding safe_next_url
safe_next_url-Target raw fallback = elim (Option-cases (truthy raw)) [
  | inl e ↦ rw (e, safe_next_url) (inl refl)
  | inr (s, e) ↦ elim (Bool-cases (starts s "/" && not (starts s "//") && not (includes s "://"))) [
    | inl t ↦
        rw (e, t, safe_next_url)
          (inr (truthy-some raw s e, ground (arith, t), ground (arith, t), ground (arith, t)))
    | inr t ↦ rw (e, t, safe_next_url) (inl refl)
  ]
]

-- The target of a login is its fallback, or the text that was asked for, which begins with one slash
-- and has no `://`. The finding about safeNextUrl: a slash, a backslash and then any text without
-- `://`, such as the name of a host, is let through, though a browser reads it as the address of that
-- host.
pub safe_next_url_lem :
    (raw : Option String) (fallback host : String)
    → includes host "://" ≡ false
    → Target raw fallback (safe_next_url raw fallback)
      × (safe_next_url (some (behind_backslash host)) fallback ≡ behind_backslash host)
unfolding safe_next_url includes_by
safe_next_url_lem raw fallback host h = (safe_next_url-Target raw fallback, rw h refl)
