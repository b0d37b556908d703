-- ===== src/Api/Volumes/Budget.antt =====
-- A member's volume budgets never add up to more than the storage quota.
use easy_deploy.Prelude.{
  ◌≤◌, ◌≡◌, refl, false, Option, none, some, List, [], ◌∷◌, arith, Text, All, is_empty,
  if◌then◌else◌,
}
use easy_deploy.Prelude.Int.{ℤ, pos, int_eq, ◌≤ℤ◌, ◌+ℤ◌, +ℤ_parts, Fits64, wrap64-Fits64}
use easy_deploy.Prelude.Rows.{first, count}
use easy_deploy.Effect.{Result, ok, err}
use easy_deploy.Store.{answering, Db, User, Grant, VolumeSpec, statement}
use easy_deploy.Store.Users.{get_user_by_id}
use easy_deploy.Store.Grants.{get_user_endpoint_quota, is_grant}
use easy_deploy.Store.Volumes.{usage, put_volume, set_volume_size, owner_disk_usage_mb, is_volume}
use easy_deploy.Api.{Principal, is_admin, Reason, refused}
use easy_deploy.Docker.{Labels, set_label, label_owner}
use easy_deploy.Api.Quota.{enforce_volume_quota, disk_quota, no_access}
use easy_deploy.Api.Volumes.{
  VolumeDaemon, create_volume, record_volume, handle_create_volume, handle_resize_volume,
}

abbrev pub IsNonneg : VolumeSpec → Type 0
IsNonneg v = pos 0 ≤ℤ v.size_mb

-- Writing one budget adds at most its size.
usage-put_volume-le :
    (env : ℤ) (owner exclude : Text) (new : VolumeSpec) (vs : List VolumeSpec)
    → IsNonneg new
    → All IsNonneg vs
    → usage env owner exclude (put_volume new vs) ≤ℤ usage env owner exclude vs +ℤ new.size_mb
unfolding usage put_volume
usage-put_volume-le env owner exclude new [] h hs =
    ground (arith, +ℤ_parts new.size_mb (pos 0), +ℤ_parts (pos 0) new.size_mb)
usage-put_volume-le env owner exclude new (v ∷ vs) h hs =
    let rest = usage env owner exclude vs in
    let later = usage env owner exclude (put_volume new vs) in
    ground (
      arith,
      usage-put_volume-le env owner exclude new vs h hs.1,
      +ℤ_parts new.size_mb rest,
      +ℤ_parts v.size_mb rest,
      +ℤ_parts v.size_mb later,
      +ℤ_parts rest new.size_mb,
      +ℤ_parts (v.size_mb +ℤ rest) new.size_mb,
    )

-- Where no volume of the environment has the name, leaving it out makes no difference.
usage_absent :
    (env : ℤ) (owner name : Text) (vs : List VolumeSpec)
    → All IsNonneg vs
    → count (is_volume env name) vs ≡ 0
    → usage env owner [] vs ≤ℤ usage env owner name vs
unfolding usage count
usage_absent env owner name [] hs h = omega arith
usage_absent env owner name (v ∷ vs) hs h = ground (
  arith,
  usage_absent env owner name vs hs.1,
  +ℤ_parts v.size_mb (usage env owner [] vs),
  +ℤ_parts v.size_mb (usage env owner name vs),
)

-- Writing the budget of a volume that was left out of the sum.
usage-put_volume_self :
    (env : ℤ) (owner : Text) (new : VolumeSpec) (vs : List VolumeSpec)
    → new.endpoint_id ≡ env
    → IsNonneg new
    → All IsNonneg vs
    → count (is_volume env new.name) vs ≤ 1
    → usage env owner [] (put_volume new vs) ≤ℤ usage env owner new.name vs +ℤ new.size_mb
unfolding usage put_volume count
usage-put_volume_self env owner new [] same h hs k =
    ground (arith, +ℤ_parts new.size_mb (pos 0), +ℤ_parts (pos 0) new.size_mb)
usage-put_volume_self env owner new (v ∷ vs) same h hs k =
    let kept = usage env owner new.name vs in
    let rest = usage env owner [] vs in
    let later = usage env owner [] (put_volume new vs) in
    ground (
      arith,
      usage-put_volume_self env owner new vs same h hs.1,
      usage_absent env owner new.name vs hs.1,
      +ℤ_parts new.size_mb rest,
      +ℤ_parts v.size_mb later,
      +ℤ_parts kept new.size_mb,
      +ℤ_parts v.size_mb kept,
      +ℤ_parts (v.size_mb +ℤ kept) new.size_mb,
    )

abbrev pub disk_on : User → ℤ → List Grant → Option ℤ
disk_on user env grants =
    if int_eq env (pos 0)
    then some user.disk_quota_mb
    else elim (first (is_grant user.id env) grants) [ none ↦ none | some g ↦ some g.disk_quota_mb ]

disk_quota-answering :
    (user : User) (env : ℤ) (db : Db)
    → disk_quota user env (answering db) ≡ (
      elim (disk_on user env db.grants) [ none ↦ err (refused no_access) | some q ↦ ok q ],
      answering db,
    )
unfolding disk_quota get_user_endpoint_quota statement
disk_quota-answering user env db = ground arith

abbrev budget : ℤ → Text → Text → ℤ → VolumeSpec
budget env name owner size_mb = record {
  endpoint_id = env;
  name = name;
  owner = owner;
  size_mb = size_mb;
}

record_volume-le :
    (env : ℤ) (owner : Text) (size_mb : ℤ) (created : Option Text) (db : Db)
    → db.outages ≡ []
    → pos 0 ≤ℤ size_mb
    → All IsNonneg db.volumes
    → usage env owner [] (record_volume env owner size_mb created db).1.volumes
      ≤ℤ usage env owner [] db.volumes +ℤ size_mb
unfolding record_volume set_volume_size statement
record_volume-le env owner size_mb none db up h hs =
    ground (arith, +ℤ_parts (usage env owner [] db.volumes) size_mb)
record_volume-le env owner size_mb (some name) db up h hs =
    ground (arith, usage-put_volume-le env owner [] (budget env name owner size_mb) db.volumes)

-- What a check that ended leaves: the database as it was, and where it passed, room in the quota.
abbrev IsChecked : ℤ → ℤ → ℤ → Db → Result Reason Text × Db → Type 0
IsChecked quota used size_mb db (ok owner, after) =
    (after ≡ db) × (pos 0 ≤ℤ size_mb) × (Fits64 (used +ℤ size_mb) → used +ℤ size_mb ≤ℤ quota)
IsChecked quota used size_mb db (err e, after) = after ≡ db

module _ (p : Principal) (user : User) (env quota size_mb : ℤ) (db : Db)
    (member : is_admin p ≡ false) (named : is_empty p.username ≡ false)
    (same : user.username ≡ p.username)
    (known : first (λ (u : User). int_eq u.id p.user_id) db.users ≡ some user)
    (granted : disk_on user env db.grants ≡ some quota) where
  enforce_volume_quota-IsChecked :
      (name : Text)
      → IsChecked quota
          (usage env p.username name db.volumes)
          size_mb
          (answering db)
          (enforce_volume_quota p env size_mb name (answering db))
  unfolding enforce_volume_quota get_user_by_id owner_disk_usage_mb statement
  enforce_volume_quota-IsChecked name =
      let used = usage env p.username name db.volumes in
      rw (member, enforce_volume_quota)
        (rw known (
          rw (disk_quota-answering user env db) (
            rw granted
              (rw same (ground (arith, wrap64-Fits64 (used +ℤ size_mb), +ℤ_parts used size_mb))))))

  module _ (positive : All IsNonneg db.volumes)
      (within : usage env p.username [] db.volumes ≤ℤ quota) where
    -- Resizing a volume, whether it is refused or done, keeps the budgets that the member's volumes
    -- have on the environment within the storage quota there. The database answers, the member's
    -- name is not empty and is the one stored, and a quota is there; budgets are not negative, the
    -- volume has one row at most, and the new total fits `int64`.
    pub handle_resize_volume-keeps_budget :
        (name : Text)
        → count (is_volume env name) db.volumes ≤ 1
        → Fits64 (usage env p.username name db.volumes +ℤ size_mb)
        → usage env p.username []
            (handle_resize_volume p env name (some size_mb) (answering db)).1.volumes
          ≤ℤ quota
    unfolding handle_resize_volume set_volume_size statement
    handle_resize_volume-keeps_budget name key fits =
        let new = budget env name p.username size_mb in
        let used = usage env p.username name db.volumes in
        rw member (
          rw named (
            ground (
              arith,
              enforce_volume_quota-IsChecked name,
              usage-put_volume_self env p.username new db.volumes refl,
              +ℤ_parts used size_mb,
            )))

    -- Creating a volume, whatever the daemon answers, keeps the budgets that the member's volumes
    -- have on the environment within the storage quota there. The database answers, the member's
    -- name is not empty and is the one stored, and a quota is there; budgets are not negative and
    -- the new total fits `int64`.
    pub handle_create_volume-keeps_budget :
        (client : Option VolumeDaemon) (name driver : Text) (labels : Labels)
        → Fits64 (usage env p.username [] db.volumes +ℤ size_mb)
        → usage env p.username []
            (handle_create_volume p env client
              (some (record { name = name; driver = driver; labels = labels; size_mb = size_mb }))
              (answering db)).1.volumes
          ≤ℤ quota
    unfolding handle_create_volume set_volume_size statement
    handle_create_volume-keeps_budget none name driver labels fits = within
    handle_create_volume-keeps_budget (some d) name driver labels fits =
        let owner = p.username in
        let created = create_volume d name driver (set_label label_owner owner labels) in
        rw member (
          rw named (
            ground (
              arith,
              enforce_volume_quota-IsChecked [],
              record_volume-le env owner size_mb created (answering db),
              +ℤ_parts (usage env owner [] db.volumes) size_mb,
            )))
