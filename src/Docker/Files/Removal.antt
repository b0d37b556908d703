-- ===== src/Docker/Files/Removal.antt =====
-- What `delete_in_volume` asks of the daemon.
use easy_deploy.Prelude.{
  ◌≡◌, ◌≢◌, refl, ◌∙◌, ap, arith, Bool, true, false, Bool-cases, inl, inr, List, [], ◌∷◌, ◌++◌,
  Text, codes, text_eq, text_eq_complete, All, Option, none, some,
}
use easy_deploy.Docker.Paths.{safe_path, vol_mount, spelled}
use easy_deploy.Docker.Paths.Containment.{IsInside, safe_path-IsInside}
use easy_deploy.Docker.Helpers.{
  EngineCall, remove, exec, Engine, Client, find_helper, drop_helper, take_over, cached_helper,
  is_running, helper_name, start_helper, volume_helper,
}
use easy_deploy.Docker.Files.{rm_command, delete_in_volume}

-- The command removes something below the mount of the volume, and not the mount.
pub record IsRemoval (cmd : List Text) : Type 0 where
  pub target : Text
  pub spells : cmd ≡ codes "rm" ∷ codes "-rf" ∷ target ∷ []
  pub inside : IsInside target
  pub below : inside.elements ≢ []

-- The daemon is asked to run removals only.
abbrev pub Removes : EngineCall → Type 0
Removes (exec id cmd) = IsRemoval cmd
Removes c = Unit

module _ (e : Engine) (name : Text) where
  start_helper-Removes :
      (w : Client) → All Removes w.calls → All Removes (start_helper e name w).1.calls
  unfolding start_helper
  start_helper-Removes w h = ground arith

  take_over-Removes :
      (found : Option (Text × Bool)) (w : Client)
      → All Removes w.calls
      → All Removes (take_over e name found w).1.calls
  take_over-Removes none w h = start_helper-Removes w h
  take_over-Removes (some (id, true)) w h = h
  take_over-Removes (some (id, false)) w h =
      start_helper-Removes (record w { calls = remove id ∷ w.calls }) (tt, h)

  cached_helper-Removes :
      (found : Option Text) (w : Client)
      → All Removes w.calls
      → All Removes (cached_helper e name found w).1.calls
  cached_helper-Removes none w h = take_over-Removes (e.inspect (helper_name name)) w h
  cached_helper-Removes (some id) w h = elim (Bool-cases (is_running (e.inspect id))) [
    | inl there ↦ rw there h
    | inr gone ↦ rw gone (
        take_over-Removes (e.inspect (helper_name name))
          (record w { vol_helpers = drop_helper name w.vol_helpers }) h)
  ]

  volume_helper-Removes :
      (w : Client) → All Removes w.calls → All Removes (volume_helper e name w).1.calls
  unfolding volume_helper
  volume_helper-Removes w h = cached_helper-Removes (find_helper name w.vol_helpers) w h

  removal :
      (sub : Text)
      → text_eq (safe_path sub) vol_mount ≡ false
      → IsRemoval (rm_command e (safe_path sub))
  unfolding spelled
  removal sub away =
      let at : IsInside (safe_path sub) = safe_path-IsInside sub in
      record {
        target = safe_path sub;
        spells = refl;
        inside = at;
        below = λ root.
            let here : safe_path sub ≡ vol_mount =
              at.leads ∙ ap (λ es. vol_mount ++ spelled es) root in
            cc (text_eq_complete (safe_path sub) vol_mount here);
      }

  -- Whatever path a user gives, nothing is removed but what stands below the mount of the volume: no
  -- command is run, or `rm -rf` with a path below it, in which no element is empty, `.` or `..`.
  pub delete_in_volume-Removes :
      (sub : Text) (w : Client)
      → All Removes w.calls
      → All Removes (delete_in_volume e name sub w).1.calls
  unfolding delete_in_volume
  delete_in_volume-Removes sub w h = elim (Bool-cases (text_eq (safe_path sub) vol_mount)) [
    | inl root ↦ rw root h
    | inr away ↦ rw away (ground (arith, volume_helper-Removes w h, removal sub away))
  ]
