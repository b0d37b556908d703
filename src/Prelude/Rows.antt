-- ===== src/Prelude/Rows.antt =====
-- Tables as lists of rows: the selections, updates and deletions that the SQL statements make.
use easy_deploy.Prelude.Tests.{ltb, if◌then◌else◌}
use easy_deploy.Prelude.Texts.{Text}
use Prim.Native.Nat.{ℕ, suc, ◌+◌}
use mathlib.Core.Path.{◌≡◌, refl}
use mathlib.Core.Bool.{Bool, true, false, ◌||◌}
use mathlib.Core.Option
use mathlib.Core.Option.{Option, none, some}
use mathlib.Core.List.{List, [], ◌∷◌, ◌++◌}
use native.Mathlib.Omega.{arith}

module _ {ℓ} {A : Type ℓ} where
  -- `SELECT … WHERE p`, in the table's order.
  unfoldable pub select : (A → Bool) → List A → List A
  select p [] = []
  select p (r ∷ rs) = if p r then r ∷ select p rs else select p rs

  -- The first row that a `SELECT … WHERE p` returns.
  unfoldable pub first : (A → Bool) → List A → Option A
  first p [] = none
  first p (r ∷ rs) = if p r then some r else first p rs

  -- `UPDATE … SET f WHERE p`.
  unfoldable pub update : (A → Bool) → (A → A) → List A → List A
  update p f [] = []
  update p f (r ∷ rs) = (if p r then f r else r) ∷ update p f rs

  -- `DELETE … WHERE p`.
  unfoldable pub delete : (A → Bool) → List A → List A
  delete p [] = []
  delete p (r ∷ rs) = if p r then delete p rs else r ∷ delete p rs

  -- `SELECT count(*) … WHERE p`.
  unfoldable pub count : (A → Bool) → List A → ℕ
  count p [] = 0
  count p (r ∷ rs) = if p r then suc (count p rs) else count p rs

  unfoldable pub exists : (A → Bool) → List A → Bool
  exists p [] = false
  exists p (r ∷ rs) = if p r then true else exists p rs

  pub count-append : (p : A → Bool) (xs ys : List A) → count p (xs ++ ys) ≡ count p xs + count p ys
  unfolding count
  count-append p [] ys = omega arith
  count-append p (x ∷ xs) ys = ground (arith, count-append p xs ys)

  pub select-append :
      (p : A → Bool) (xs ys : List A) → select p (xs ++ ys) ≡ select p xs ++ select p ys
  unfolding select
  select-append p [] ys = refl
  select-append p (x ∷ xs) ys = ground (arith, select-append p xs ys)

module _ {ℓ} {A : Type ℓ} (p : A → Bool) (f : A → A) where
  -- The row that an update is about, where the update leaves the condition as it was.
  pub first-update_self :
      ((r : A) → p (f r) ≡ p r)
      → (rs : List A) → first p (update p f rs) ≡ Option.map f (first p rs)
  unfolding first update
  first-update_self keep [] = refl
  first-update_self keep (r ∷ rs) = ground (arith, keep r, first-update_self keep rs)

  -- A row that an update is not about.
  pub first-update_other :
      (q : A → Bool)
      → ((r : A) → q r ≡ true → p r ≡ false)
      → ((r : A) → q (f r) ≡ q r)
      → (rs : List A) → first q (update p f rs) ≡ first q rs
  unfolding first update
  first-update_other q apart keep [] = refl
  first-update_other q apart keep (r ∷ rs) =
      ground (arith, apart r, keep r, first-update_other q apart keep rs)

-- `ORDER BY` a text column, in the order of the code points.
unfoldable pub text_le : Text → Text → Bool
text_le [] t = true
text_le (c ∷ s) [] = false
text_le (c ∷ s) (d ∷ t) = if ltb c d then true else if ltb d c then false else text_le s t

module _ {ℓ} {A : Type ℓ} (column : A → Text) where
  insert_by : A → List A → List A
  insert_by r [] = r ∷ []
  insert_by r (s ∷ rs) = if text_le (column r) (column s) then r ∷ s ∷ rs else s ∷ insert_by r rs

  unfoldable pub order_by : List A → List A
  unfolding insert_by
  order_by [] = []
  order_by (r ∷ rs) = insert_by r (order_by rs)

module _ {ℓ} {A : Type ℓ} (p : A → Bool) (column : A → Text) where
  exists-insert_by : (r : A) (rs : List A) → exists p (insert_by column r rs) ≡ (p r || exists p rs)
  unfolding exists insert_by
  exists-insert_by r [] = ground arith
  exists-insert_by r (s ∷ rs) = ground (arith, exists-insert_by r rs)

  -- Sorting loses no row and adds none.
  pub exists-order_by : (rs : List A) → exists p (order_by column rs) ≡ exists p rs
  unfolding exists order_by
  exists-order_by [] = refl
  exists-order_by (r ∷ rs) =
      ground (arith, exists-insert_by r (order_by column rs), exists-order_by rs)

  first-insert_by :
      (r : A) (rs : List A) → p r ≡ false → first p (insert_by column r rs) ≡ first p rs
  unfolding first insert_by
  first-insert_by r [] h = ground arith
  first-insert_by r (s ∷ rs) h = ground (arith, first-insert_by r rs h)

  -- The only row that a condition holds of is found in the sorted table too.
  pub first-order_by_last :
      (r : A) (rs : List A)
      → exists p rs ≡ false
      → p r ≡ true
      → first p (order_by column (rs ++ r ∷ [])) ≡ some r
  unfolding first exists order_by
  first-order_by_last r [] none_there here = ground arith
  first-order_by_last r (s ∷ rs) none_there here =
      ground (arith, first-insert_by s (order_by column (rs ++ r ∷ [])), first-order_by_last r rs)
