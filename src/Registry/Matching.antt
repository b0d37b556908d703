-- ===== src/Registry/Matching.antt =====
-- Whose credentials an image is pulled with.
use easy_deploy.Prelude.{◌≡◌, refl, arith, List, [], ◌∷◌, map, Text}
use easy_deploy.Store.{Registry}
use easy_deploy.Registry.{Box, auth_among}

abbrev pub given_to : Text → Registry → Registry
given_to owner r = record r { owner = owner }

-- The credentials for an image do not depend on who owns the registries: another member's are used
-- as well as one's own.
pub auth_among-owner :
    (box : Box) (host owner : Text) (regs : List Registry)
    → auth_among box host (map (given_to owner) regs) ≡ auth_among box host regs
unfolding auth_among
auth_among-owner box host owner [] = refl
auth_among-owner box host owner (r ∷ rs) = ground (arith, auth_among-owner box host owner rs)
