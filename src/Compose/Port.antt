-- ===== src/Compose/Port.antt =====
-- components/compose/types.ts: `PortSpec`, `parsePortSpec`, `portSpecToString`.
pub mod Laws
pub mod Normal
use vps_pilot.Base.{
  ℕ, String, ◌<>◌, Bool, true, false, not, ◌&&◌, Option, none, some, List, [], ◌∷◌, ◌==◌,
  if◌then◌else◌,
}
use vps_pilot.Base.Text.{nonempty, split}

-- Any text may stand for the protocol: the source casts it to "tcp" | "udp". The container port is
-- undefined where the editor's field was emptied.
pub record PortSpec : Type 0 where
  pub ip : Option String
  pub host : Option String
  pub container : Option String
  pub protocol : Option String

-- `!!o`
abbrev pub filled : Option String → Bool
filled none = false
filled (some s) = nonempty s

-- `${o}`
abbrev pub shown : Option String → String
shown none = "undefined"
shown (some s) = s

-- `split("/")[1] ?? undefined`
abbrev second : List String → Option String
second (a ∷ b ∷ rest) = some b
second _ = none

abbrev first : List String → String
first (a ∷ rest) = a
first [] = ""

-- The cases of `parts.length`. `split` makes at least one part.
abbrev of_parts : List String → Option String → PortSpec
of_parts [] protocol = record { ip = none; host = none; container = none; protocol = protocol }
of_parts (c ∷ []) protocol = record {
  ip = none;
  host = none;
  container = some c;
  protocol = protocol;
}
of_parts (h ∷ c ∷ []) protocol = record {
  ip = none;
  host = some h;
  container = some c;
  protocol = protocol;
}
of_parts (i ∷ h ∷ c ∷ rest) protocol = record {
  ip = some i;
  host = some h;
  container = some c;
  protocol = protocol;
}

unfoldable pub parse_port_spec : String → PortSpec
unfolding split
parse_port_spec s =
    let proto_split = split b'/' s in of_parts (split b':' (first proto_split)) (second proto_split)

-- `p.protocol && p.protocol !== "tcp" ? … : ""`
abbrev proto_suffix : Option String → String
proto_suffix o = if filled o && not (shown o == "tcp") then "/" <> shown o else ""

unfoldable pub port_spec_to_string : PortSpec → String
port_spec_to_string p =
    let proto = proto_suffix p.protocol in
    if filled p.ip && filled p.host
    then shown p.ip <> (":" <> (shown p.host <> (":" <> (shown p.container <> proto))))
    else if filled p.ip
    then shown p.ip <> (":" <> (":" <> (shown p.container <> proto)))
    else if filled p.host
    then shown p.host <> (":" <> (shown p.container <> proto))
    else shown p.container <> proto
