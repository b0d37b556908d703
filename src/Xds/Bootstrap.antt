-- ===== src/Xds/Bootstrap.antt =====
-- server/internal/xds/bootstrap.go: the Envoy configuration of an edge proxy, which dials back to this
-- server at an advertised address; and net.SplitHostPort, which reads that address.
pub mod Address
use easy_deploy.Prelude.{
  ℕ, Bool, true, false, not, ◌&&◌, ◌||◌, ◌==◌, Option, none, some, List, [], ◌∷◌, ◌++◌, Text, codes,
  is_empty, if◌then◌else◌,
}
use easy_deploy.Prelude.Int.{ℤ, pos, leb_ℤ}
use easy_deploy.Prelude.Decimal.{atoi, itoa}
use easy_deploy.Prelude.Split.{cut}
use easy_deploy.Prelude.Trim.{trim_space}
use easy_deploy.Effect.{Result, ok, err}

unfoldable pub has_char : ℕ → Text → Bool
has_char d [] = false
has_char d (c ∷ s) = c == d || has_char d s

abbrev pub further : ℕ → ℕ → Text → Option (Text × Text) → Option (Text × Text)
further d c s none = if c == d then some ([], s) else none
further d c s (some (before, after)) = some (c ∷ before, after)

-- The text before the last separator, and the one after it.
unfoldable pub cut_last : ℕ → Text → Option (Text × Text)
cut_last d [] = none
cut_last d (c ∷ s) = further d c s (cut_last d s)

abbrev pub plain_host : Option (Text × Text) → Option (Text × Text)
plain_host none = none
plain_host (some (host, port)) =
    if has_char b':' host
      || ((has_char b'[' host || has_char b'[' port) || (has_char b']' host || has_char b']' port))
    then none
    else some (host, port)

-- What follows the closing bracket is a colon and the port.
abbrev pub after_bracket : Text → Text → Option (Text × Text)
after_bracket host [] = none
after_bracket host (c ∷ port) =
    if not (c == b':')
      || (has_char b':' port || ((has_char b'[' host || has_char b'[' port) || has_char b']' port))
    then none
    else some (host, port)

abbrev pub bracket_host : Option (Text × Text) → Option (Text × Text)
bracket_host none = none
bracket_host (some (host, rest)) = after_bracket host rest

-- `none` is an error.
unfoldable pub split_host_port : Text → Option (Text × Text)
unfolding has_char cut cut_last
split_host_port [] = none
split_host_port (c ∷ s) =
    if c == b'[' then bracket_host (cut b']' s) else plain_host (cut_last b':' (c ∷ s))

abbrev pub http_listen_port : ℤ
http_listen_port = pos 10000

abbrev pub admin_port : ℤ
admin_port = pos 9901

abbrev pub line : Text → Text → Text
line text rest = text ++ (10 ∷ rest)

-- The two sources that are asked over gRPC, for clusters and for listeners.
abbrev source_lines : Text → Text → Text
source_lines name rest = line (codes "  " ++ (name ++ codes ":")) (
    line (codes "    resource_api_version: V3") (
      line (codes "    api_config_source:") (
        line (codes "      api_type: GRPC") (
          line (codes "      transport_api_version: V3") (
            line (codes "      grpc_services:")
              (line (codes "        - envoy_grpc: { cluster_name: easydeploy_xds }") rest))))))

abbrev cluster_lines : Text → Text
cluster_lines rest = line (codes "static_resources:") (
    line (codes "  clusters:") (
      line (codes "    - name: easydeploy_xds") (
        line (codes "      type: STRICT_DNS") (
          line (codes "      dns_lookup_family: V4_PREFERRED") (
            line (codes "      connect_timeout: 5s") (
              line (codes "      typed_extension_protocol_options:") (
                line (codes "        envoy.extensions.upstreams.http.v3.HttpProtocolOptions:")
                  rest)))))))

abbrev protocol_lines : Text → Text
protocol_lines rest =
    line
      (codes
        "          \"@type\": type.googleapis.com/envoy.extensions.upstreams.http.v3.HttpProtocolOptions")
      (line (codes "          explicit_http_config:")
        (line (codes "            http2_protocol_options: {}") rest))

abbrev assignment_lines : Text → Text
assignment_lines rest = line (codes "      load_assignment:") (
    line (codes "        cluster_name: easydeploy_xds") (
      line (codes "        endpoints:") (
        line (codes "          - lb_endpoints:") (
          line (codes "              - endpoint:")
            (line (codes "                  address:") rest)))))

abbrev admin_lines : Text → Text
admin_lines rest = line (codes "  cluster: easydeploy") (
    line (codes "admin:") (
      line (codes "  address:") (
        line
          (codes "    socket_address: { address: 0.0.0.0, port_value: "
            ++ (itoa admin_port ++ codes " }"))
          rest)))

-- The part of the template that no argument goes into.
unfoldable pub fixed_lines : Text → Text
fixed_lines rest = admin_lines (
    line (codes "dynamic_resources:") (
      source_lines (codes "cds_config") (
        source_lines (codes "lds_config")
          (cluster_lines (protocol_lines (assignment_lines rest))))))

abbrev pub target_lines : Text → ℤ → Text
target_lines host port = line (codes "                    socket_address:") (
    line (codes "                      address: " ++ host)
      (line (codes "                      port_value: " ++ itoa port) []))

-- The template: the node's id, and the address that it dials.
unfoldable pub bootstrap : Text → Text → ℤ → Text
unfolding fixed_lines
bootstrap node_id host port =
    line (codes "node:") (line (codes "  id: " ++ node_id) (fixed_lines (target_lines host port)))

pub data AddressError : Type 0 where
  not_host_port invalid_port no_host : AddressError

abbrev pub with_port : Text → Text → Option ℤ → Result AddressError Text
with_port node_id host none = err invalid_port
with_port node_id host (some port) =
    if leb_ℤ port (pos 0)
    then err invalid_port
    else if is_empty host
    then err no_host
    else ok (bootstrap node_id host port)

abbrev pub with_address : Text → Option (Text × Text) → Result AddressError Text
with_address node_id none = err not_host_port
with_address node_id (some (host, port)) = with_port node_id host (atoi port)

unfoldable pub edge_bootstrap_yaml : Text → Text → Result AddressError Text
unfolding split_host_port
edge_bootstrap_yaml node_id xds_addr = with_address node_id (split_host_port (trim_space xds_addr))
