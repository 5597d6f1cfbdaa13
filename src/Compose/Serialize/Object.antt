-- ===== src/Compose/Serialize/Object.antt =====
-- components/compose/serializer.ts: the object that the serializer fills. Its statements
-- `if (…) out[key] = …` are a list of keys, each with the value that is assigned, if one is.
use vps_pilot.Base.{String, ◌≡◌, refl, ap, ◌∙◌, Option, none, some, List, [], ◌∷◌, ◌==◌}
use vps_pilot.Base.{if◌then◌else◌, or_else, arith}
use vps_pilot.Js.{Value, Fields, get, put}
use vps_pilot.Js.Laws.{get-put}

abbrev pub Writes : Type 0
Writes = List (String × Option Value)

-- The assignments in order, onto an object.
unfoldable pub write_all : Writes → Fields → Fields
write_all [] fs = fs
write_all ((k, none) ∷ ws) fs = write_all ws fs
write_all ((k, some v) ∷ ws) fs = write_all ws (put k v fs)

-- What a key holds after the assignments, `d` if it is not assigned.
abbrev pub last_write : String → Writes → Value → Value
last_write j [] d = d
last_write j ((k, o) ∷ ws) d = last_write j ws (if k == j then or_else o d else d)

pub get-write_all :
    (j : String) (ws : Writes) (fs : Fields) → get j (write_all ws fs) ≡ last_write j ws (get j fs)
unfolding write_all
get-write_all j [] fs = refl
get-write_all j ((k, none) ∷ ws) fs = get-write_all j ws fs ∙ ap (last_write j ws) (ground arith)
get-write_all j ((k, some v) ∷ ws) fs =
    get-write_all j ws (put k v fs) ∙ ap (last_write j ws) (get-put k j v fs)
