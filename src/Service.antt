-- ===== src/Service.antt =====
-- server/internal/service: replicas behind one subdomain.
pub mod Scaler
pub mod Ports
pub mod Replicas
pub mod Manager
pub mod Git
pub mod Autoscaler
use easy_deploy.Prelude.{
  ℕ, zero, suc, ◌+◌, Bool, true, false, not, ◌&&◌, Option, none, some, List, [], ◌∷◌, ◌++◌, Text,
  codes, if◌then◌else◌,
}
use easy_deploy.Prelude.Int.{ℤ, pos, negsuc, int_eq, ltb_ℤ, leb_ℤ}
use easy_deploy.Prelude.Decimal.{itoa, itoa_ℕ}
use easy_deploy.Store.{Service}

-- fmt.Sprintf("%s-%d", service, i)
unfoldable pub replica_name : Text → ℕ → Text
replica_name service i = service ++ codes "-" ++ itoa_ℕ i
