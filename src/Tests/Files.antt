-- ===== src/Tests/Files.antt =====
-- A volume's files: a path that tries to leave the volume, and the listing of a directory.
use easy_deploy.Prelude.{◌≡◌, refl, arith, true, none, some, [], ◌∷◌, List, codes, All}
use easy_deploy.Prelude.Int.{pos}
use easy_deploy.Prelude.Trim.{trailing, is_space}
use easy_deploy.Docker.Helpers.{Engine, Client, created}
use easy_deploy.Docker.Files.{delete_in_volume}
use easy_deploy.Docker.Files.Removal.{Removes, delete_in_volume-Removes}
use easy_deploy.Docker.Listing.{parse_vol_listing}
use easy_deploy.Docker.Listing.Printed.{
  Entry, folder, file, listing, shown_all, parse_vol_listing-listing,
}

abbrev engine : Engine
engine = record {
  inspect = λ id. none;
  create = λ pulled name volume. created (codes "h1");
  starts = λ id. true;
  exec = λ id cmd. some ([], [], pos 0);
  copies = λ id dir name content. true;
  archive = λ id path. none;
  removes = λ name force. true;
  helpers = none;
}

abbrev fresh : Client
fresh = record { vol_helpers = []; calls = [] }

delete_in_volume-Removes_example :
    All Removes (delete_in_volume engine (codes "data") (codes "../../etc") fresh).1.calls
delete_in_volume-Removes_example =
    delete_in_volume-Removes engine (codes "data") (codes "../../etc") fresh tt

abbrev directory : List Entry
directory = folder (codes "src") ∷ file 12 (codes "a|b") ∷ []

parse_vol_listing-listing_example : parse_vol_listing (listing directory) ≡ shown_all directory
unfolding trailing is_space
parse_vol_listing-listing_example = parse_vol_listing-listing directory (
  record { one_line = (refl, (refl, (refl, tt))); ends_well = refl; small = tt },
  (record { one_line = (refl, (refl, (refl, tt))); ends_well = refl; small = omega arith }, tt),
)
