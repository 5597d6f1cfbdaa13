-- ===== src/Pages/Containers/Laws.antt =====
-- pages/Containers.tsx: how a line of the ports is read.

use text.Mathlib.TextLemmas.{nil-append, cons-append}
use vps_pilot.Base.{ℕ, String, ◌<>◌, ◌≡◌, refl, ap, ap₂, ◌∙◌, true, false, ◌||◌, ◌∷◌, arith}
use vps_pilot.Base.Text.{has_char, Free, Free-append, Free-of_test, split-of_Free, split-append_sep}
use vps_pilot.Pages.Containers.{
  ContainerPort, first_two, host_and_rest, container_and_protocol, port_of_line,
}

has_char-append :
    (sep : ℕ) (s t : String) → has_char sep (s <> t) ≡ (has_char sep s || has_char sep t)
has_char-append sep String.[] t = rw nil-append refl
has_char-append sep (String.◌∷◌ c s) t = rw cons-append (ground (arith, has_char-append sep s t))

has_char-Free : (sep : ℕ) (s : String) → Free sep s → has_char sep s ≡ false
has_char-Free sep String.[] h = refl
has_char-Free sep (String.◌∷◌ c s) (h, hs) = ground (arith, has_char-Free sep s hs)

has_colon : (s t : String) → has_char b':' (s <> (":" <> t)) ≡ true
has_colon s t = has_char-append b':' s (":" <> t) ∙ rw cons-append (ground arith)

has_slash : (s t : String) → has_char b'/' (s <> ("/" <> t)) ≡ true
has_slash s t = has_char-append b'/' s ("/" <> t) ∙ rw cons-append (ground arith)

host_and_rest-two :
    (a b : String) → Free b':' a → Free b':' b → host_and_rest (a <> (":" <> b)) ≡ (a, b)
unfolding host_and_rest
host_and_rest-two a b h k =
    rw (has_colon a b)
      (ap first_two (split-append_sep ":" a b h ∙ ap (λ ts. a ∷ ts) (split-of_Free b':' b k)))

host_and_rest-more :
    (a b c : String)
    → Free b':' a
    → Free b':' b
    → host_and_rest (a <> (":" <> (b <> (":" <> c)))) ≡ (a, b)
unfolding host_and_rest
host_and_rest-more a b c h k = rw (has_colon a (b <> (":" <> c))) (
    ap first_two
      (split-append_sep ":" a (b <> (":" <> c)) h ∙ ap (λ ts. a ∷ ts) (split-append_sep ":" b c k)))

host_and_rest-one : (a : String) → Free b':' a → host_and_rest a ≡ ("", a)
unfolding host_and_rest
host_and_rest-one a h = rw (has_char-Free b':' a h) refl

protocol-two :
    (a b : String) → Free b'/' a → Free b'/' b → container_and_protocol (a <> ("/" <> b)) ≡ (a, b)
unfolding container_and_protocol
protocol-two a b h k =
    rw (has_slash a b)
      (ap first_two (split-append_sep "/" a b h ∙ ap (λ ts. a ∷ ts) (split-of_Free b'/' b k)))

protocol-one : (a : String) → Free b'/' a → container_and_protocol a ≡ (a, "tcp")
unfolding container_and_protocol
protocol-one a h = rw (has_char-Free b'/' a h) refl

abbrev port : String × String → String → ContainerPort
port (container, protocol) host = record {
  host_port = host;
  container_port = container;
  protocol = protocol;
}

port-reads :
    (l : String) (host rest : String) (container : String × String)
    → host_and_rest l ≡ (host, rest)
    → container_and_protocol rest ≡ container
    → port_of_line l ≡ port container host
unfolding port_of_line
port-reads l host rest (c, p) h k =
    let inner : container_and_protocol (host_and_rest l).1 ≡ (c, p) =
      ap (λ r. container_and_protocol r.1) h ∙ k in
    ap₂ (λ x y. record { host_port = x.0; container_port = y.0; protocol = y.1 }) h inner

-- No separator of a port's text is in its parts.
abbrev IsPlain : String → Type 0
IsPlain s = Free b':' s × Free b'/' s

-- A line of the ports is read as the host's port, the container's port and the protocol that it
-- names, for parts without colon and slash; without a host it has none, and without a protocol it
-- is for TCP.
pub port_of_line-forms :
    (host container protocol : String)
    → IsPlain host
    → IsPlain container
    → IsPlain protocol
    → (port_of_line (host <> (":" <> (container <> ("/" <> protocol))))
        ≡ record { host_port = host; container_port = container; protocol = protocol })
      × (port_of_line (host <> (":" <> container))
          ≡ record { host_port = host; container_port = container; protocol = "tcp" })
      × (port_of_line (container <> ("/" <> protocol))
          ≡ record { host_port = ""; container_port = container; protocol = protocol })
      × (port_of_line container
          ≡ record { host_port = ""; container_port = container; protocol = "tcp" })
port_of_line-forms host container protocol (h, hs) (c, cs) (p, ps) =
    let inner : Free b':' (container <> ("/" <> protocol)) =
      Free-append b':' container ("/" <> protocol) c
        (Free-append b':' "/" protocol (Free-of_test b':' "/" refl) p) in
    (
      port-reads (host <> (":" <> (container <> ("/" <> protocol)))) host
          (container <> ("/" <> protocol)) (container, protocol)
          (host_and_rest-two host (container <> ("/" <> protocol)) h inner)
          (protocol-two container protocol cs ps),
      port-reads (host <> (":" <> container)) host container (container, "tcp")
          (host_and_rest-two host container h c) (protocol-one container cs),
      port-reads (container <> ("/" <> protocol)) "" (container <> ("/" <> protocol))
          (container, protocol) (host_and_rest-one (container <> ("/" <> protocol)) inner)
          (protocol-two container protocol cs ps),
      port-reads container "" container (container, "tcp") (host_and_rest-one container c)
          (protocol-one container cs),
    )

-- What stands behind a second colon is lost: a line with an address in front, as "address:host:port",
-- is read as the address for the host's port and the host's for the container's.
address_misread :
    (address host rest : String)
    → Free b':' address
    → IsPlain host
    → port_of_line (address <> (":" <> (host <> (":" <> rest))))
      ≡ record { host_port = address; container_port = host; protocol = "tcp" }
address_misread address host rest h (k, ks) =
    port-reads (address <> (":" <> (host <> (":" <> rest)))) address host (host, "tcp")
      (host_and_rest-more address host rest h k) (protocol-one host ks)
