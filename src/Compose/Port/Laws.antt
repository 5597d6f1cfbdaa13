-- ===== src/Compose/Port/Laws.antt =====
-- Printing a port and reading it back.

use text.Mathlib.TextLemmas.{append_assoc, append-nil, nil-append}
use vps_pilot.Base.{
  String, ◌<>◌, ◌≡◌, refl, true, not, ◌&&◌, Option, none, some, ◌∷◌, ◌==◌, if◌then◌else◌, arith,
  ◌∙◌, ap, Bool-cases, inl, inr,
}
use vps_pilot.Base.Text.{nonempty, split, Free, split-of_Free, split-append_sep, Free-append}
use vps_pilot.Compose.Port.{
  PortSpec, filled, shown, second, first, of_parts, parse_port_spec, proto_suffix,
  port_spec_to_string,
}

-- A part of a port without the two separators.
abbrev pub IsPart : String → Type 0
IsPart s = Free b':' s × Free b'/' s

abbrev OptionIsPart : Option String → Type 0
OptionIsPart none = Unit
OptionIsPart (some s) = IsPart s

abbrev pub OptionIsFree : Option String → Type 0
OptionIsFree none = Unit
OptionIsFree (some s) = Free b'/' s

pub record HasParts (p : PortSpec) : Type 0 where
  pub ip_part : OptionIsPart p.ip
  pub host_part : OptionIsPart p.host
  pub container_part : IsPart (shown p.container)
  pub protocol_part : OptionIsFree p.protocol

-- An absent or "tcp" protocol, an empty address and an empty host are not printed; behind an
-- address the host is.
abbrev pub normal_protocol : Option String → Option String
normal_protocol o = if filled o && not (shown o == "tcp") then o else none

unfoldable pub normalize : PortSpec → PortSpec
normalize p = record {
  ip = if filled p.ip then p.ip else none;
  host = if filled p.host then p.host else if filled p.ip then some "" else none;
  container = some (shown p.container);
  protocol = normal_protocol p.protocol;
}

-- The text in front of the protocol.
abbrev pub address : PortSpec → String
address p =
    if filled p.ip && filled p.host
    then shown p.ip <> (":" <> (shown p.host <> (":" <> shown p.container)))
    else if filled p.ip
    then shown p.ip <> (":" <> (":" <> shown p.container))
    else if filled p.host
    then shown p.host <> (":" <> shown p.container)
    else shown p.container

pub print-address : (p : PortSpec) → port_spec_to_string p ≡ address p <> proto_suffix p.protocol
unfolding port_spec_to_string
print-address p = elim (Bool-cases (filled p.ip)) [
  | inl i ↦ elim (Bool-cases (filled p.host)) [
    | inl h ↦ rw (i, h) (simp append_assoc)
    | inr h ↦ rw (i, h) (simp append_assoc)
  ]
  | inr i ↦ elim (Bool-cases (filled p.host)) [
    | inl h ↦ rw (i, h) (simp append_assoc)
    | inr h ↦ rw (i, h) refl
  ]
]

split_colon : (s t : String) → Free b':' s → split b':' (s <> (":" <> t)) ≡ s ∷ split b':' t
split_colon s t h = split-append_sep ":" s t h

split_leading_colon : (t : String) → split b':' (":" <> t) ≡ "" ∷ split b':' t
split_leading_colon t = rw (← nil-append (":" <> t)) (split_colon "" t tt)

split-suffix :
    (m : String) (o : Option String)
    → Free b'/' m
    → OptionIsFree o
    → (first (split b'/' (m <> proto_suffix o)) ≡ m)
      × (second (split b'/' (m <> proto_suffix o)) ≡ normal_protocol o)
split-suffix m none h k = rw (append-nil, split-of_Free b'/' m h) (refl, refl)
split-suffix m (some s) h k = elim (Bool-cases (nonempty s && not (s == "tcp"))) [
  | inl t ↦ rw (t, split-append_sep "/" m s h, split-of_Free b'/' s k) (refl, refl)
  | inr f ↦ rw (f, append-nil, split-of_Free b'/' m h) (refl, refl)
]

-- The protocol is cut off again.
parse-suffix :
    (m : String) (o : Option String)
    → Free b'/' m
    → OptionIsFree o
    → parse_port_spec (m <> proto_suffix o) ≡ of_parts (split b':' m) (normal_protocol o)
unfolding parse_port_spec
parse-suffix m o h k = let (main, proto) = split-suffix m o h k in rw (main, proto) refl

-- The address is cut at its colons.
parse-address :
    (i h : Option String) (c : Option String) (o : Option String)
    → OptionIsPart i
    → OptionIsPart h
    → IsPart (shown c)
    → let p : PortSpec = record { ip = i; host = h; container = c; protocol = o } in
      of_parts (split b':' (address p)) (normal_protocol o) ≡ normalize p
unfolding normalize
parse-address none none c o hi hh hc = rw (split-of_Free b':' (shown c) hc.0) refl
parse-address none (some String.[]) c o hi hh hc = rw (split-of_Free b':' (shown c) hc.0) refl
parse-address none (some (String.◌∷◌ a h)) c o hi hh hc =
    rw (split_colon (String.◌∷◌ a h) (shown c) hh.0, split-of_Free b':' (shown c) hc.0) refl
parse-address (some String.[]) none c o hi hh hc = rw (split-of_Free b':' (shown c) hc.0) refl
parse-address (some String.[]) (some String.[]) c o hi hh hc =
    rw (split-of_Free b':' (shown c) hc.0) refl
parse-address (some String.[]) (some (String.◌∷◌ a h)) c o hi hh hc =
    rw (split_colon (String.◌∷◌ a h) (shown c) hh.0, split-of_Free b':' (shown c) hc.0) refl
parse-address (some (String.◌∷◌ a i)) none c o hi hh hc =
    rw
      (
        split_colon (String.◌∷◌ a i) (":" <> shown c) hi.0,
        split_leading_colon (shown c),
        split-of_Free b':' (shown c) hc.0,
      )
      refl
parse-address (some (String.◌∷◌ a i)) (some String.[]) c o hi hh hc =
    rw
      (
        split_colon (String.◌∷◌ a i) (":" <> shown c) hi.0,
        split_leading_colon (shown c),
        split-of_Free b':' (shown c) hc.0,
      )
      refl
parse-address (some (String.◌∷◌ a i)) (some (String.◌∷◌ b h)) c o hi hh hc =
    rw
      (
        split_colon (String.◌∷◌ a i) _ hi.0,
        split_colon (String.◌∷◌ b h) (shown c) hh.0,
        split-of_Free b':' (shown c) hc.0,
      )
      refl

OptionIsPart-shown : (o : Option String) → OptionIsPart o → filled o ≡ true → Free b'/' (shown o)
OptionIsPart-shown none h f = cc
OptionIsPart-shown (some s) h f = h.1

joined-Free : (s t : String) → Free b'/' s → Free b'/' t → Free b'/' (s <> (":" <> t))
joined-Free s t hs ht = Free-append b'/' s (":" <> t) hs (Free-append b'/' ":" t (omega arith) ht)

address-Free : (p : PortSpec) → HasParts p → Free b'/' (address p)
address-Free p h = elim (Bool-cases (filled p.ip)) [
  | inl i ↦
      let i_free = OptionIsPart-shown p.ip h.ip_part i in
      elim (Bool-cases (filled p.host)) [
        | inl f ↦
            let rest =
              joined-Free (shown p.host) (shown p.container)
                (OptionIsPart-shown p.host h.host_part f) c in
            rw (i, f) (joined-Free (shown p.ip) _ i_free rest)
        | inr f ↦
            rw (i, f)
              (joined-Free (shown p.ip) (":" <> shown p.container) i_free
                (Free-append b'/' ":" (shown p.container) (omega arith) c))
      ]
  | inr i ↦ elim (Bool-cases (filled p.host)) [
    | inl f ↦
        rw (i, f)
          (joined-Free (shown p.host) (shown p.container) (OptionIsPart-shown p.host h.host_part f)
            c)
    | inr f ↦ rw (i, f) c
  ]
]
  where
    c : Free b'/' (shown p.container)
    c = h.container_part.1

-- A port whose address, host and container hold no colon and no slash, and whose protocol holds no
-- slash, is read back from its text as its normal form.
pub parse_port-print :
    (p : PortSpec) → HasParts p → parse_port_spec (port_spec_to_string p) ≡ normalize p
parse_port-print p h =
    ap parse_port_spec (print-address p)
    ∙ parse-suffix (address p) p.protocol (address-Free p h) h.protocol_part
    ∙ parse-address p.ip p.host p.container p.protocol h.ip_part h.host_part h.container_part
