-- ===== src/Compose/Parse/Fields.antt =====
-- components/compose/serializer.ts: the lists of texts, ports, volumes and dependencies.
use vps_pilot.Base.{String, Bool, ◌&&◌, Option, none, some, List, map, if◌then◌else◌}
use vps_pilot.Js.{
  Value, undefined, null, bool, num, str, arr, obj, items, fields, truthy, is_object, is_nullish,
  coalesce, member, to_text, join_items, text?,
}
use vps_pilot.Compose.Port.{PortSpec, parse_port_spec}
use vps_pilot.Compose.Mount.{parse_volume_mount}
use vps_pilot.Compose.Service.{
  PortEntry, spec, null_port, bool_port, MountEntry, mount, raw_mount, DependsOnEntry,
}

-- `v && typeof v === "object"`
abbrev pub is_record : Value → Bool
is_record v = truthy v && is_object v

-- `strArr`
unfoldable pub str_arr : Value → Option (List String)
str_arr (arr vs) = some (map to_text (items vs))
str_arr _ = none

-- `command` and `entrypoint`: a text, or an array joined by blanks.
unfoldable pub command_text : Value → Option String
command_text (str s) = some s
command_text (arr vs) = some (join_items " " vs)
command_text _ = none

-- `po.published != null ? String(po.published) : undefined`
abbrev text_unless_nullish : Value → Option String
text_unless_nullish v = if is_nullish v then none else some (to_text v)

-- The long form of a port: an object, or an array, which has none of the names.
abbrev long_port : Value → PortSpec
long_port po = record {
  ip = none;
  host = text_unless_nullish (member "published" po);
  container = some (to_text (coalesce (member "target" po) (str "")));
  protocol = text? (member "protocol" po);
}

unfoldable pub parse_port : Value → PortEntry
parse_port (str s) = spec (parse_port_spec s)
parse_port (num n) = spec (record { ip = none; host = none; container = some n; protocol = none })
parse_port (obj fs) = spec (long_port (obj fs))
parse_port (arr vs) = spec (long_port (arr vs))
parse_port (bool b) = bool_port b
parse_port null = null_port
parse_port undefined = null_port

unfoldable pub parse_ports : Value → Option (List PortEntry)
unfolding parse_port
parse_ports (arr vs) = some (map parse_port (items vs))
parse_ports _ = none

unfoldable pub parse_mount : Value → MountEntry
parse_mount (str s) = mount (parse_volume_mount s)
parse_mount v = raw_mount v

unfoldable pub parse_volumes : Value → Option (List MountEntry)
unfolding parse_mount
parse_volumes (arr vs) = some (map parse_mount (items vs))
parse_volumes _ = none

abbrev pub started : Value
started = str "service_started"

abbrev pub plain_dependency : Value → DependsOnEntry
plain_dependency d = record { service = to_text d; condition = started }

abbrev pub keyed_dependency : String × Value → DependsOnEntry
keyed_dependency (k, v) = record {
  service = k;
  condition = coalesce (member "condition" v) started;
}

unfoldable pub parse_depends_on : Value → Option (List DependsOnEntry)
parse_depends_on (arr vs) = some (map plain_dependency (items vs))
parse_depends_on (obj fs) = some (map keyed_dependency (fields fs))
parse_depends_on _ = none
