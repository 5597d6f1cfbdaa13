-- ===== src/Compose/Reading/Loss.antt =====
-- What a save through the editor drops from a document.
use vps_pilot.Base.{String, ◌<>◌, ◌≡◌, refl, ap, ap₂, sym, ◌∙◌, Option}
use vps_pilot.Js.{
  Value, Fields, undefined, null, bool, num, str, arr, obj, join_items, nil, cons, end, field, get,
  member, to_text, ok,
}
use vps_pilot.Js.Laws.{>>=-eq-ok}
use vps_pilot.Compose.Service.{ComposeService}
use vps_pilot.Compose.Parse.{parse_mount, parse_service, str_arr, parse_healthcheck}
use vps_pilot.Compose.Serialize.{
  print_mount, print_raw, ports_write, volumes_write, service_writes, serialize_service, write_all,
  get-write_all, last_write, list_write, health_write, text_write, number_write,
}
use vps_pilot.Compose.Stable.Fields.{reread}
use vps_pilot.Compose.Stable.Lines.{LongForm}

-- What each key of a written service holds.
written-get :
    (k : String) (svc : ComposeService) (out : Fields)
    → serialize_service svc ≡ ok out
    → (ports : Option Value) × (volumes : Option Value) × (get k out
        ≡ last_write k (service_writes svc ports volumes) undefined)
unfolding serialize_service get
written-get k svc out e =
    let (ports, printed, e') = >>=-eq-ok (ports_write svc.ports) _ e in
    let (volumes, mounted, e'') = >>=-eq-ok (volumes_write svc.volumes) _ e' in
    let same : out ≡ write_all (service_writes svc ports volumes) end = cc in
    (ports, volumes, ap (get k) same ∙ get-write_all k (service_writes svc ports volumes) end)

-- The lists for which Compose also takes a single text.
data ListKey : Type 0 where
  env_file dns dns_search tmpfs : ListKey

abbrev key_name : ListKey → String
key_name env_file = "env_file"
key_name dns = "dns"
key_name dns_search = "dns_search"
key_name tmpfs = "tmpfs"

-- The list of a read service under such a key, and what is written of it.
list_read :
    (k : ListKey) (raw : Value) (ports volumes : Option Value)
    → last_write (key_name k) (service_writes (parse_service raw) ports volumes) undefined
      ≡ reread (list_write (str_arr (member (key_name k) raw)))
unfolding service_writes parse_service
list_read env_file raw ports volumes = refl
list_read dns raw ports volumes = refl
list_read dns_search raw ports volumes = refl
list_read tmpfs raw ports volumes = refl

text_is_no_list : (s : String) → reread (list_write (str_arr (str s))) ≡ undefined
unfolding list_write str_arr
text_is_no_list s = refl

-- Whichever of these lists a document writes as a single text, the saved service has no such key.
single_text_lost :
    (k : ListKey) (raw : Value) (out : Fields) (s : String)
    → serialize_service (parse_service raw) ≡ ok out
    → member (key_name k) raw ≡ str s
    → get (key_name k) out ≡ undefined
single_text_lost k raw out s e single =
    let (ports, volumes, holds) = written-get (key_name k) (parse_service raw) out e in
    holds
    ∙ list_read k raw ports volumes
    ∙ ap (λ v. reread (list_write (str_arr v))) single
    ∙ text_is_no_list s

health_read :
    (raw : Value) (ports volumes : Option Value)
    → last_write "healthcheck" (service_writes (parse_service raw) ports volumes) undefined
      ≡ reread (health_write (parse_healthcheck (member "healthcheck" raw)))
unfolding service_writes parse_service
health_read raw ports volumes = refl

abbrev pub none_check : Value
none_check = obj (field "test" (arr (cons (str "NONE") nil)) end)

none_is_no_check : reread (health_write (parse_healthcheck none_check)) ≡ undefined
unfolding health_write parse_healthcheck member write_all text_write number_write join_items
none_is_no_check = refl

-- A health check that is switched off by the test `NONE`, and sets nothing else, is not in the saved
-- service.
none_check_lost :
    (raw : Value) (out : Fields)
    → serialize_service (parse_service raw) ≡ ok out
    → member "healthcheck" raw ≡ none_check
    → get "healthcheck" out ≡ undefined
none_check_lost raw out e h =
    let (ports, volumes, holds) = written-get "healthcheck" (parse_service raw) out e in
    holds
    ∙ health_read raw ports volumes
    ∙ ap (λ v. reread (health_write (parse_healthcheck v))) h
    ∙ none_is_no_check

long_line :
    (v : Value) (h : LongForm v)
    → member "readOnly" v ≡ undefined
    → print_raw v ≡ str (h.source <> (":" <> (h.target <> "")))
unfolding to_text
long_line v h writable = rw (h.source_is, h.target_is, h.source_filled, writable) refl

LongForm-line :
    (v : Value) (h : LongForm v)
    → member "readOnly" v ≡ undefined
    → print_mount (parse_mount v) ≡ ok (str (h.source <> (":" <> (h.target <> ""))))
unfolding print_mount parse_mount
LongForm-line (obj fs) h m = ap ok (long_line (obj fs) h m)
LongForm-line (arr vs) h m = let e : Path Value undefined (str h.source) = h.source_is in cc
LongForm-line (str s) h m = let e : Path Value undefined (str h.source) = h.source_is in cc
LongForm-line (num s) h m = let e : Path Value undefined (str h.source) = h.source_is in cc
LongForm-line (bool s) h m = let e : Path Value undefined (str h.source) = h.source_is in cc
LongForm-line null h m = let e : Path Value undefined (str h.source) = h.source_is in cc
LongForm-line undefined h m = let e : Path Value undefined (str h.source) = h.source_is in cc

-- Two long-form mounts with the same source and target, and no field `readOnly`, which Compose does
-- not know, are saved alike, whatever else they hold.
mount_mode_lost :
    (v w : Value) (h : LongForm v) (k : LongForm w)
    → h.source ≡ k.source
    → h.target ≡ k.target
    → member "readOnly" v ≡ undefined
    → member "readOnly" w ≡ undefined
    → print_mount (parse_mount v) ≡ print_mount (parse_mount w)
mount_mode_lost v w h k same_source same_target no_v no_w =
    LongForm-line v h no_v
    ∙ ap₂ (λ s t. ok (str (s <> (":" <> (t <> ""))))) same_source same_target
    ∙ sym (LongForm-line w k no_w)
