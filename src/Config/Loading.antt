-- ===== src/Config/Loading.antt =====
-- Which environments give a configuration that the server starts with.
use easy_deploy.Prelude.{◌≡◌, ◌↔◌, arith, false, Option, none, some, [], Text, codes, is_empty}
use easy_deploy.Effect.{ok}
use easy_deploy.Config.{Environment, or_default, load, validate}

-- The variable is set, and to a text that is not empty.
abbrev pub IsGiven : Environment → Text → Type 0
IsGiven e key = (v : Text) × (e key ≡ some v) × (is_empty v ≡ false)

given :
    (v : Option Text)
    → is_empty (or_default [] v) ≡ false
    → (t : Text) × (v ≡ some t) × (is_empty t ≡ false)
given none h = cc
given (some v) h = (v, ground arith, ground arith)

taken :
    (v : Option Text)
    → (t : Text) × (v ≡ some t) × (is_empty t ≡ false)
    → is_empty (or_default [] v) ≡ false
taken none h = cc h.1
taken (some v) h = ground arith

-- A configuration is taken exactly if the password of the first administrator and the master key are
-- given: neither has a default.
pub validate-load_iff :
    (e : Environment)
    → (validate (load e) ≡ ok tt)
      ↔ (IsGiven e (codes "EASYDEPLOY_ADMIN_PASSWORD") × IsGiven e (codes "EASYDEPLOY_SECRET_KEY"))
unfolding validate load
validate-load_iff e =
    let p = e (codes "EASYDEPLOY_ADMIN_PASSWORD") in
    let k = e (codes "EASYDEPLOY_SECRET_KEY") in
    (
      λ h. (given p (ground arith), given k (ground arith)),
      λ h. ground (arith, taken p h.0, taken k h.1),
    )
