-- ===== src/PublishPort/Laws.antt =====
-- The two names of a protocol (src/publish-port.ts).
use dsh_podman.Prelude.{◌≡◌, ◌↔◌, refl, ap, Option, none, some, ok, ok-injective}
use dsh_podman.Text.{Text, text, ◌===◌}
use dsh_podman.Dict.{lookup}
use dsh_podman.Dict.Laws.{lookup-All}
use dsh_podman.PublishPort.{
  protocols, protocol_names, port_protocol_from_proto, proto_of, port_protocol_to_proto,
}

proto_of-eq-ok : (p o : Option Text) {s : Text} → proto_of p o ≡ ok s → o ≡ some s
unfolding proto_of
proto_of-eq-ok p none h = cc
proto_of-eq-ok p (some t) h = ap some (ok-injective h)

-- A protocol is written as a wire name exactly where that wire name is read as the protocol.
pub port_protocol_to_proto-port_protocol_from_proto :
    (protocol proto : Text)
    → (port_protocol_to_proto (some protocol) ≡ ok proto)
      ↔ (port_protocol_from_proto (some proto) ≡ some protocol)
unfolding port_protocol_to_proto port_protocol_from_proto lookup proto_of text ◌===◌
port_protocol_to_proto-port_protocol_from_proto protocol proto = (
  λ h.
      lookup-All (λ k p. port_protocol_from_proto (some p) ≡ some k) protocol protocols
        (refl, (refl, (refl, tt))) (proto_of-eq-ok (some protocol) (lookup protocol protocols) h),
  λ h.
      lookup-All (λ p k. port_protocol_to_proto (some k) ≡ ok p) proto protocol_names
        (refl, (refl, (refl, tt))) h,
)
