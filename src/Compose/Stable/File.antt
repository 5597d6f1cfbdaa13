-- ===== src/Compose/Stable/File.antt =====
-- A whole file that was written, read back and written again.
use mathlib.Core.Path.{subst⁻¹}
use mathlib.Core.List.{append-nil}
use vps_pilot.Base.{
  String, ◌≡◌, refl, ap, sym, ◌∙◌, true, false, Option, some, List, [], ◌∷◌, ◌++◌, map, ◌==◌, ◌||◌,
  if◌then◌else◌, All, Bool-cases, inl, inr,
}
use vps_pilot.Base.Dict.{Dict, NodupKeys, has_key, insert, insert-middle}
use vps_pilot.Base.Text.{is_blank}
use vps_pilot.Js.{
  Value, Fields, obj, end, entries, member, has_keys, text?, Result, ok, ◌>>=◌, map_result,
}
use vps_pilot.Js.Laws.{>>=-eq-ok, fields-of_dict}
use vps_pilot.Compose.Service.{ComposeService, ComposeFile}
use vps_pilot.Compose.Parse.{
  is_record, parse_service, services_onto, parse_top_level_map, file_of, parse_compose,
}
use vps_pilot.Compose.Serialize.{
  file_writes, write_all, get-write_all, text_write, keyed_write, serialize_service,
  serialize_entry, nonempty_map, compose_object, serialize_compose,
}
use vps_pilot.Compose.Stable.Fields.{reread, text_stable}
use vps_pilot.Compose.Stable.Lines.{map_result-map}
use vps_pilot.Compose.Stable.Whole.{IsStable, serialize_stable}

abbrev Entry : Type 0
Entry = String × ComposeService

abbrev Written : Type 0
Written = String × Value

pub record IsStableFile (cf : ComposeFile) : Type 0 where
  pub services_ok : All (λ (e : Entry). IsStable e.1) cf.services
  pub distinct : NodupKeys cf.services
  pub networks_ok : is_record cf.networks ≡ true
  pub volumes_ok : is_record cf.volumes ≡ true

-- A written service, read back under its name.
abbrev read_entry : Written → Entry
read_entry (name, v) = (name, parse_service v)

-- What a written service is.
serialize_entry-inv :
    (name : String) (svc : ComposeService) (e : Written)
    → serialize_entry (name, svc) ≡ ok e
    → (out : Fields) × (serialize_service svc ≡ ok out) × (e ≡ (name, obj out))
serialize_entry-inv name svc e h =
    let (out, written, shape) = >>=-eq-ok (serialize_service svc) _ h in (out, written, cc)

entry_stable :
    (x : Entry) (y : Written)
    → IsStable x.1
    → serialize_entry x ≡ ok y
    → serialize_entry (read_entry y) ≡ ok y
entry_stable (name, svc) y h e =
    let (out, written, shape) = serialize_entry-inv name svc y e in
    rw (shape, serialize_stable svc out h written) refl

-- Each written service is an object, and keeps its name.
abbrev IsObject : Written → Type 0
IsObject e = is_record e.1 ≡ true

written-inv :
    (name : String) (svc : ComposeService) (m : List Entry) (ws : List Written)
    → map_result serialize_entry ((name, svc) ∷ m) ≡ ok ws
    → (out : Fields) × (rest : List Written) × (map_result serialize_entry m ≡ ok rest)
      × (ws ≡ (name, obj out) ∷ rest)
unfolding map_result
written-inv name svc m ws h =
    let (e, here, h') = >>=-eq-ok (serialize_entry (name, svc)) _ h in
    let (rest, later, whole) = >>=-eq-ok (map_result serialize_entry m) _ h' in
    let (out, written, shape) = serialize_entry-inv name svc e here in (out, rest, later, cc)

written-IsObject :
    (m : List Entry) (ws : List Written) → map_result serialize_entry m ≡ ok ws → All IsObject ws
unfolding map_result
written-IsObject [] [] h = tt
written-IsObject [] (w ∷ ws) h = cc
written-IsObject ((name, svc) ∷ m) ws h =
    let (out, rest, later, shape) = written-inv name svc m ws h in
    subst⁻¹ (All IsObject) shape (refl, written-IsObject m rest later)

has_key-read :
    (m : List Entry) (ws : List Written) (k : String)
    → map_result serialize_entry m ≡ ok ws
    → has_key k (map read_entry ws) ≡ has_key k m
unfolding map_result has_key
has_key-read [] [] k h = refl
has_key-read [] (w ∷ ws) k h = cc
has_key-read ((name, svc) ∷ m) ws k h =
    let (out, rest, later, shape) = written-inv name svc m ws h in
    subst⁻¹ (λ (t : List Written). has_key k (map read_entry t) ≡ has_key k ((name, svc) ∷ m)) shape
      (ap (λ b. name == k || b) (has_key-read m rest k later))

read-NodupKeys :
    (m : List Entry) (ws : List Written)
    → map_result serialize_entry m ≡ ok ws
    → NodupKeys m
    → NodupKeys (map read_entry ws)
unfolding map_result
read-NodupKeys [] [] h u = tt
read-NodupKeys [] (w ∷ ws) h u = cc
read-NodupKeys ((name, svc) ∷ m) ws h (fresh, u) =
    let (out, rest, later, shape) = written-inv name svc m ws h in
    subst⁻¹ (λ (t : List Written). NodupKeys (map read_entry t)) shape
      (has_key-read m rest name later ∙ fresh, read-NodupKeys m rest later u)

services_onto-read :
    (acc : Dict ComposeService) (ws : List Written)
    → All IsObject ws
    → NodupKeys (acc ++ map read_entry ws)
    → services_onto acc ws ≡ acc ++ map read_entry ws
unfolding services_onto
services_onto-read acc [] h u = sym (append-nil acc)
services_onto-read acc ((name, v) ∷ ws) (h, hs) u =
    let same = insert-middle acc name (parse_service v) (map read_entry ws) u in
    rw (h, services_onto)
      (services_onto-read (insert name (parse_service v) acc) ws hs (subst⁻¹ NodupKeys same u)
        ∙ same)

map_again :
    (v : Value)
    → is_record v ≡ true
    → keyed_write (some (parse_top_level_map (reread (keyed_write (some v)))))
      ≡ keyed_write (some v)
unfolding parse_top_level_map
map_again v h = elim (Bool-cases (has_keys v)) [
  | inl k ↦ rw k (rw h (rw k refl))
  | inr n ↦ rw n refl
]

-- What is read back of a written file.
abbrev read_file : ComposeFile → List Written → ComposeFile
read_file cf ws = record {
  version = text? (reread (text_write cf.version));
  services = map read_entry ws;
  networks = parse_top_level_map (reread (keyed_write (some cf.networks)));
  volumes = parse_top_level_map (reread (keyed_write (some cf.volumes)));
}

services_read :
    (ws : List Written)
    → All IsObject ws
    → NodupKeys (map read_entry ws)
    → (if is_record (reread (nonempty_map ws))
        then services_onto [] (entries (reread (nonempty_map ws)))
        else [])
      ≡ map read_entry ws
unfolding entries
services_read [] h u = refl
services_read ((name, v) ∷ ws) h u =
    ap (services_onto []) (fields-of_dict ((name, v) ∷ ws))
    ∙ services_onto-read [] ((name, v) ∷ ws) h u

file_of-written :
    (cf : ComposeFile) (ws : List Written)
    → All IsObject ws
    → NodupKeys (map read_entry ws)
    → file_of (obj (write_all (file_writes cf ws) end)) ≡ read_file cf ws
unfolding file_of member
file_of-written cf ws h u =
    rw
      (
        get-write_all "version" (file_writes cf ws) end,
        get-write_all "services" (file_writes cf ws) end,
        get-write_all "networks" (file_writes cf ws) end,
        get-write_all "volumes" (file_writes cf ws) end,
      )
      (ap
        (λ (m : Dict ComposeService). record {
          version = text? (reread (text_write cf.version));
          services = m;
          networks = parse_top_level_map (reread (keyed_write (some cf.networks)));
          volumes = parse_top_level_map (reread (keyed_write (some cf.volumes)));
        })
        (services_read ws h u))

writes_again :
    (cf : ComposeFile) (ws : List Written)
    → IsStableFile cf
    → file_writes (read_file cf ws) ws ≡ file_writes cf ws
writes_again cf ws h =
    rw
      (
        text_stable cf.version,
        map_again cf.networks h.networks_ok,
        map_again cf.volumes h.volumes_ok,
      )
      refl

-- The body of `compose_object`, with its call shut.
abbrev finish : ComposeFile → Result (List Written) → Result Value
finish cf r = do services ← r; ok (obj (write_all (file_writes cf services) end))

compose-finish :
    (cf : ComposeFile) → compose_object cf ≡ finish cf (map_result serialize_entry cf.services)
unfolding compose_object
compose-finish cf = refl

-- A file that is written, read back and written again gives the same object.
compose_stable :
    (cf : ComposeFile) (out : Value)
    → IsStableFile cf
    → compose_object cf ≡ ok out
    → compose_object (file_of out) ≡ ok out
compose_stable cf out h e =
    let (ws, written, e') =
      >>=-eq-ok (map_result serialize_entry cf.services) _ (sym (compose-finish cf) ∙ e) in
    let same : out ≡ obj (write_all (file_writes cf ws) end) = cc in
    let once_more = read_file cf ws in
    let unique = read-NodupKeys cf.services ws written h.distinct in
    let services_again =
      map_result-map serialize_entry read_entry (λ e. IsStable e.1) entry_stable cf.services ws
        h.services_ok written in
    subst⁻¹ (λ (t : Value). compose_object (file_of t) ≡ ok t) same
      (ap compose_object (file_of-written cf ws (written-IsObject cf.services ws written) unique)
        ∙ compose-finish once_more
        ∙ ap (finish once_more) services_again
        ∙ ap (λ t. ok (obj (write_all t end))) (writes_again cf ws h))

-- Parsing the text that a stable file was saved as and saving it again gives the same text, if the
-- text is not blank and js-yaml, a parameter, reads back what it dumped.
pub save_stable :
    (load : String → Option Value) (dump : Value → String) (cf : ComposeFile) (out : Value)
    → IsStableFile cf
    → compose_object cf ≡ ok out
    → load (dump out) ≡ some out
    → is_blank (dump out) ≡ false
    → serialize_compose dump (parse_compose load (dump out)) ≡ ok (dump out)
unfolding serialize_compose parse_compose
save_stable load dump cf out h e loads visible =
    rw (visible, loads) (ap (λ r. r >>= (λ v. ok (dump v))) (compose_stable cf out h e))
