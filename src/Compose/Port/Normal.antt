-- ===== src/Compose/Port/Normal.antt =====
-- The normal form of a port, and what is read of any text.

use mathlib.Core.Path.{ap₂}
use vps_pilot.Base.{
  String, ◌<>◌, ◌≡◌, refl, not, ◌&&◌, Option, none, some, List, [], ◌∷◌, ◌==◌, arith, ◌∙◌, sym, ap,
  All, All-×, Bool-cases, inl, inr,
}
use vps_pilot.Base.Text.{split, Free, split-Free, split-keeps-Free}
use vps_pilot.Compose.Port.{
  PortSpec, filled, shown, second, first, of_parts, parse_port_spec, proto_suffix,
  port_spec_to_string,
}
use vps_pilot.Compose.Port.Laws.{
  HasParts, IsPart, OptionIsFree, address, normal_protocol, normalize, parse_port-print,
  print-address,
}

proto_suffix-normal : (o : Option String) → proto_suffix (normal_protocol o) ≡ proto_suffix o
proto_suffix-normal o = elim (Bool-cases (filled o && not (shown o == "tcp"))) [
  | inl t ↦ rw t (rw t refl)
  | inr f ↦ rw f refl
]

address-normalize :
    (i h : Option String) (c : Option String) (o : Option String)
    → let p : PortSpec = record { ip = i; host = h; container = c; protocol = o } in
      address (normalize p) ≡ address p
unfolding normalize
address-normalize none none c o = refl
address-normalize none (some String.[]) c o = refl
address-normalize none (some (String.◌∷◌ a h)) c o = refl
address-normalize (some String.[]) none c o = refl
address-normalize (some String.[]) (some String.[]) c o = refl
address-normalize (some String.[]) (some (String.◌∷◌ a h)) c o = refl
address-normalize (some (String.◌∷◌ a i)) none c o = refl
address-normalize (some (String.◌∷◌ a i)) (some String.[]) c o = refl
address-normalize (some (String.◌∷◌ a i)) (some (String.◌∷◌ b h)) c o = refl

print-normalize : (p : PortSpec) → port_spec_to_string (normalize p) ≡ port_spec_to_string p
unfolding normalize
print-normalize p =
    print-address (normalize p)
    ∙ ap₂ ◌<>◌ (address-normalize p.ip p.host p.container p.protocol)
        (proto_suffix-normal p.protocol)
    ∙ sym (print-address p)

of_parts-HasParts :
    (ps : List String) (o : Option String)
    → All IsPart ps
    → OptionIsFree o
    → HasParts (of_parts ps o)
of_parts-HasParts [] o h k = record {
  ip_part = tt;
  host_part = tt;
  container_part = omega arith;
  protocol_part = k;
}
of_parts-HasParts (c ∷ []) o h k = record {
  ip_part = tt;
  host_part = tt;
  container_part = h.0;
  protocol_part = k;
}
of_parts-HasParts (a ∷ c ∷ []) o h k = record {
  ip_part = tt;
  host_part = h.0;
  container_part = h.1.0;
  protocol_part = k;
}
of_parts-HasParts (i ∷ a ∷ c ∷ rest) o h k = record {
  ip_part = h.0;
  host_part = h.1.0;
  container_part = h.1.1.0;
  protocol_part = k;
}

second-Free : (ps : List String) → All (Free b'/') ps → OptionIsFree (second ps)
second-Free [] h = tt
second-Free (a ∷ []) h = tt
second-Free (a ∷ b ∷ rest) h = h.1.0

first-Free : (ps : List String) → All (Free b'/') ps → Free b'/' (first ps)
first-Free [] h = tt
first-Free (a ∷ rest) h = h.0

pub parse-HasParts : (s : String) → HasParts (parse_port_spec s)
unfolding parse_port_spec
parse-HasParts s =
    let parts = split-Free b'/' s in
    let main = first (split b'/' s) in
    of_parts-HasParts (split b':' main) (second (split b'/' s))
      (All-× (Free b':') (Free b'/') (split b':' main) (split-Free b':' main)
        (split-keeps-Free b'/' b':' main (first-Free (split b'/' s) parts)))
      (second-Free (split b'/' s) parts)

-- Printing what was read of a printed port gives the same text.
pub reprint :
    (p : PortSpec)
    → HasParts p
    → port_spec_to_string (parse_port_spec (port_spec_to_string p)) ≡ port_spec_to_string p
reprint p h = ap port_spec_to_string (parse_port-print p h) ∙ print-normalize p

-- Whatever text a port is read from, printing it a second time changes nothing.
print_port_stable :
    (s : String)
    → port_spec_to_string (parse_port_spec (port_spec_to_string (parse_port_spec s)))
      ≡ port_spec_to_string (parse_port_spec s)
print_port_stable s = reprint (parse_port_spec s) (parse-HasParts s)
