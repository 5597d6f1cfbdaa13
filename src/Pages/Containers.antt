-- ===== src/Pages/Containers.antt =====
-- pages/Containers.tsx: the ports of a container, and what the form for a new one sends.
pub mod Laws
use vps_pilot.Base.Filter.{keep}
use vps_pilot.Base.{
  String, ◌<>◌, Bool, true, false, not, ◌&&◌, Option, none, some, List, [], ◌∷◌, is_nil,
  if◌then◌else◌,
}
use vps_pilot.Base.Text.{nonempty, split, join, has_char}
use vps_pilot.Base.Scan.{trim}

-- `PortSpec` of types/index.ts
pub record ContainerPort : Type 0 where
  pub host_port : String
  pub container_port : String
  pub protocol : String

abbrev port_text : ContainerPort → String
port_text p =
    if nonempty p.host_port
    then p.host_port <> ("→" <> (p.container_port <> ("/" <> p.protocol)))
    else p.container_port <> ("/" <> p.protocol)

abbrev port_texts : List ContainerPort → List String
port_texts [] = []
port_texts (p ∷ ps) = port_text p ∷ port_texts ps

-- `formatPorts`
unfoldable format_ports : Option (List ContainerPort) → String
unfolding join
format_ports none = "—"
format_ports (some []) = "—"
format_ports (some (p ∷ ps)) = join ", " (port_texts (p ∷ ps))

abbrev trimmed_lines : List String → List String
trimmed_lines [] = []
trimmed_lines (l ∷ ls) = trim l ∷ trimmed_lines ls

-- `raw.split("\n").map((l) => l.trim()).filter((l) => l)`
unfoldable lines_of : String → List String
unfolding split trim
lines_of raw = keep nonempty (trimmed_lines (split b'\n' raw))

-- `[a, b] = parts`: there are two parts wherever the separator is.
abbrev pub first_two : List String → String × String
first_two [] = ("", "")
first_two (a ∷ []) = (a, "")
first_two (a ∷ b ∷ more) = (a, b)

-- `l.includes(":") ? l.split(":") : ["", l]`
unfoldable pub host_and_rest : String → String × String
unfolding split
host_and_rest l = if has_char b':' l then first_two (split b':' l) else ("", l)

-- `rest.includes("/") ? rest.split("/") : [rest, "tcp"]`
unfoldable pub container_and_protocol : String → String × String
unfolding split
container_and_protocol rest =
    if has_char b'/' rest then first_two (split b'/' rest) else (rest, "tcp")

-- One line of the ports.
unfoldable pub port_of_line : String → ContainerPort
unfolding host_and_rest container_and_protocol
port_of_line l =
    let host = host_and_rest l in
    let container = container_and_protocol host.1 in
    record { host_port = host.0; container_port = container.0; protocol = container.1 }

abbrev ports_of : List String → List ContainerPort
ports_of [] = []
ports_of (l ∷ ls) = port_of_line l ∷ ports_of ls

-- `xs.length > 0 ? xs : undefined`
abbrev unless_empty {ℓ} : {A : Type ℓ} → List A → Option (List A)
unless_empty xs = if is_nil xs then none else some xs

-- `CreateContainerRequest`
record CreateContainerRequest : Type 0 where
  pub image : String
  pub name : Option String
  pub restart_policy : String
  pub env : Option (List String)
  pub ports : Option (List ContainerPort)
  pub volumes : Option (List String)

-- The form of `CreateContainerDialog`.
record ContainerForm : Type 0 where
  pub image : String
  pub name : String
  pub restart_policy : String
  pub env_raw : String
  pub ports_raw : String
  pub volumes_raw : String

-- `handleSubmit` up to its request; without an image there is none.
unfoldable submit_container : ContainerForm → Option CreateContainerRequest
unfolding lines_of port_of_line trim
submit_container f =
    if not (nonempty (trim f.image))
    then none
    else some (record {
      image = trim f.image;
      name = if nonempty (trim f.name) then some (trim f.name) else none;
      restart_policy = f.restart_policy;
      env = unless_empty (keep (has_char b'=') (lines_of f.env_raw));
      ports = unless_empty (ports_of (lines_of f.ports_raw));
      volumes = unless_empty (lines_of f.volumes_raw);
    })
