-- ===== src/Slug.antt =====
-- ui/src/lib/slug.ts: the slug of a name. `toLowerCase` is the argument `lower`. The regular expressions
-- look at ASCII and at blanks, so that code points serve for UTF-16 units.
pub mod Shape
mod Tests
use Prim.Native.Char.{Char, code}
use Prim.Native.String.{String}
use wai_ai.Common.{Bool, true, false, ◌&&◌, ◌||◌, leb, eqb, if◌then◌else◌}
use wai_ai.Common.Text.{append, is_space}

abbrev pub is_dash : Char → Bool
is_dash c = eqb (code c) 45

-- `[a-z0-9-]`
unfoldable pub is_allowed : Char → Bool
is_allowed c =
    leb 97 (code c) && leb (code c) 122 || leb 48 (code c) && leb (code c) 57 || is_dash c

unfoldable pub starts_space : String → Bool
starts_space String.[] = false
starts_space (String.◌∷◌ c s) = is_space (code c)

unfoldable pub starts_dash : String → Bool
starts_dash String.[] = false
starts_dash (String.◌∷◌ c s) = is_dash c

-- `.replace(/\s+/g, '-')`: the last blank of a run becomes the dash.
unfoldable pub dash_spaces : String → String
unfolding append starts_space
dash_spaces String.[] = String.[]
dash_spaces (String.◌∷◌ c s) =
    let rest = dash_spaces s in
    if is_space (code c)
    then (if starts_space s then rest else append "-" rest)
    else String.◌∷◌ c rest

-- `.replace(/[^a-z0-9-]/g, '')`
unfoldable pub keep_allowed : String → String
unfolding is_allowed
keep_allowed String.[] = String.[]
keep_allowed (String.◌∷◌ c s) =
    let rest = keep_allowed s in if is_allowed c then String.◌∷◌ c rest else rest

-- `.replace(/-{2,}/g, '-')`: the last dash of a run is kept.
unfoldable pub squeeze : String → String
unfolding starts_dash
squeeze String.[] = String.[]
squeeze (String.◌∷◌ c s) =
    let rest = squeeze s in if is_dash c && starts_dash s then rest else String.◌∷◌ c rest

-- `.replace(/^-|-$/g, '')`: a first dash, and then a last one.
unfoldable pub drop_start : String → String
drop_start String.[] = String.[]
drop_start (String.◌∷◌ c s) = if is_dash c then s else String.◌∷◌ c s

unfoldable pub drop_end : String → String
drop_end String.[] = String.[]
drop_end (String.◌∷◌ c String.[]) = if is_dash c then String.[] else String.◌∷◌ c String.[]
drop_end (String.◌∷◌ c (String.◌∷◌ d s)) = String.◌∷◌ c (drop_end (String.◌∷◌ d s))

-- `deriveSlug`
unfoldable pub derive_slug : (String → String) → String → String
unfolding dash_spaces keep_allowed squeeze drop_start drop_end
derive_slug lower name = drop_end (drop_start (squeeze (keep_allowed (dash_spaces (lower name)))))
