-- ===== src/Xds/Claims.antt =====
-- The `claimed` map of `makeRouteConfig`: what one upstream gets of its domains.
use easy_deploy.Prelude.{
  ◌≤◌, ◌≡◌, refl, not, ◌&&◌, ◌||◌, List, [], ◌∷◌, arith, Text, text_eq_iff, has, times,
  times_of_not_has,
}
use easy_deploy.Xds.{claim}

-- A domain is granted when it is asked for and was free.
pub has-claim :
    (d : Text) (claimed ds : List Text)
    → has d (claim claimed ds).0 ≡ (has d ds && not (has d claimed))
unfolding has claim
has-claim d claimed [] = refl
has-claim d claimed (x ∷ ds) =
    ground (arith, has-claim d claimed ds, has-claim d (x ∷ claimed) ds, text_eq_iff x d)

-- Afterwards it is taken if it was, or was asked for.
pub claimed-claim :
    (d : Text) (claimed ds : List Text) → has d (claim claimed ds).1 ≡ (has d claimed || has d ds)
unfolding has claim
claimed-claim d claimed [] = ground arith
claimed-claim d claimed (x ∷ ds) =
    ground (arith, claimed-claim d claimed ds, claimed-claim d (x ∷ claimed) ds, text_eq_iff x d)

-- No domain is granted twice.
pub times-claim-le : (d : Text) (claimed ds : List Text) → times d (claim claimed ds).0 ≤ 1
unfolding has claim times
times-claim-le d claimed [] = omega arith
times-claim-le d claimed (x ∷ ds) = ground (
  arith,
  times-claim-le d claimed ds,
  times-claim-le d (x ∷ claimed) ds,
  has-claim d (x ∷ claimed) ds,
  times_of_not_has d (claim (x ∷ claimed) ds).0,
  text_eq_iff x d,
)
