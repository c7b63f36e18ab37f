-- ===== src/PublishPort.antt =====
-- src/publish-port.ts: the protocol of a published port, by its logical and its wire name.
pub mod Laws
use dsh_podman.Prelude.{[], ◌∷◌, Option, none, some, Outcome, ok, throw}
use dsh_podman.Text.{Text, text}
use dsh_podman.Dict.{Entries, lookup}

abbrev protocols : Entries
protocols =
    (text "tcp", text "PROTOCOL_TCP")
    ∷ (text "udp", text "PROTOCOL_UDP")
    ∷ (text "http", text "PROTOCOL_HTTP")
    ∷ []

abbrev protocol_names : Entries
protocol_names =
    (text "PROTOCOL_TCP", text "tcp")
    ∷ (text "PROTOCOL_UDP", text "udp")
    ∷ (text "PROTOCOL_HTTP", text "http")
    ∷ []

abbrev pub default_port_protocol : Text
default_port_protocol = text "tcp"

unfoldable pub port_protocol_from_proto : Option Text → Option Text
unfolding lookup text
port_protocol_from_proto none = none
port_protocol_from_proto (some proto) = lookup proto protocol_names

pub data PortError : Type 0 where
  unknown_protocol : Option Text → PortError

proto_of : Option Text → Option Text → Outcome PortError Text
proto_of protocol none = throw (unknown_protocol protocol)
proto_of protocol (some proto) = ok proto

unfoldable pub port_protocol_to_proto : Option Text → Outcome PortError Text
unfolding proto_of lookup text
port_protocol_to_proto none = proto_of none (lookup default_port_protocol protocols)
port_protocol_to_proto (some protocol) = proto_of (some protocol) (lookup protocol protocols)
