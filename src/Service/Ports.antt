-- ===== src/Service/Ports.antt =====
-- server/internal/service/service.go: the host ports of a service's replicas.
pub mod Collisions
use easy_deploy.Prelude.{
  ℕ, Bool, true, false, not, ◌&&◌, ◌||◌, Option, none, some, List, [], ◌∷◌, map, Text, is_empty,
  ◌==◌, if◌then◌else◌,
}
use easy_deploy.Prelude.Int.{ℤ, pos, int_eq, ◌+ℤ◌, wrap64}
use easy_deploy.Prelude.Decimal.{itoa, atoi}
use easy_deploy.Prelude.Trim.{trim_space}
use easy_deploy.Docker.Spec.{PortMap}

abbrev or_shifted : Text → ℤ → Option ℤ → Text
or_shifted host_port delta none = host_port
or_shifted host_port delta (some n) = itoa (wrap64 (n +ℤ delta))

-- A host port that is a number is shifted; an empty one or another text stays.
unfoldable pub shifted_port : ℤ → Text → Text
unfolding trim_space
shifted_port delta host_port = or_shifted host_port delta (atoi (trim_space host_port))

unfoldable pub offset_host_ports : List PortMap → ℤ → List PortMap
unfolding shifted_port
offset_host_ports ports delta =
    if is_empty ports || int_eq delta (pos 0)
    then ports
    else map (λ (p : PortMap). record p { host_port = shifted_port delta p.host_port }) ports
