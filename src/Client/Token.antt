-- ===== src/Client/Token.antt =====
-- api/client.ts: `getCSRFToken`. The expression `(?:^|;\s*)_gorilla_csrf=([^;]+)` is tried at each
-- position from the left. `\s*` takes all white space there is: the name that follows begins with
-- none, so nothing is given back.
pub mod Cookies
use Prim.Native.Char.{code}
use Prim.Native.String.{[], ◌∷◌}
use vps_pilot.Base.{ℕ, String, Bool, true, false, Option, none, some, eqb, if◌then◌else◌}
use vps_pilot.Base.Text.{nonempty}
use vps_pilot.Base.Scan.{after_prefix, trim_start}

-- The characters in front of the first separator: `[^;]*`
unfoldable pub up_to : ℕ → String → String
up_to sep [] = []
up_to sep (c ∷ s) = let rest = up_to sep s in if eqb (code c) sep then [] else c ∷ rest

abbrev pub nonempty_part : Option String → Option String
nonempty_part none = none
nonempty_part (some rest) = if nonempty (up_to b';' rest) then some (up_to b';' rest) else none

-- `_gorilla_csrf=([^;]+)` at the start of the text.
unfoldable pub token_at : String → Option String
unfolding after_prefix up_to
token_at s = nonempty_part (after_prefix "_gorilla_csrf=" s)

abbrev pub first_of {ℓ} : {A : Type ℓ} → Option A → Option A → Option A
first_of none o = o
first_of (some a) o = some a

-- The leftmost match in the text; the flag tells whether its start is that of the cookies.
unfoldable pub find_token : Bool → String → Option String
unfolding token_at trim_start
find_token at_start [] = none
find_token at_start (c ∷ s) =
    let rest = find_token false s in
    first_of (if at_start then token_at (c ∷ s) else none)
      (first_of (if eqb (code c) b';' then token_at (trim_start s) else none) rest)

-- `match ? decodeURIComponent(match[1]) : ""`; none where the decoding throws.
unfoldable pub get_csrf_token : (String → Option String) → String → Option String
unfolding find_token
get_csrf_token decode cookie = elim (find_token true cookie) [ none ↦ some "" | some t ↦ decode t ]
