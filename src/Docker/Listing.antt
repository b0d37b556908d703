-- ===== src/Docker/Listing.antt =====
-- server/internal/docker/volumes.go: the entries of a directory, and how `parseVolListing` reads what
-- the script of `BrowseVolume` prints.
pub mod Printed
use easy_deploy.Prelude.{
  Bool, Option, none, some, List, [], ◌∷◌, Text, codes, text_eq, is_empty, if◌then◌else◌,
}
use easy_deploy.Prelude.Int.{ℤ}
use easy_deploy.Prelude.Decimal.{parse_int, parsed_value}
use easy_deploy.Prelude.Trim.{trim_space}
use easy_deploy.Prelude.Split.{cut, split_on}

pub record VolFile : Type 0 where
  pub name : Text
  pub dir : Bool
  pub size : ℤ

abbrev pub rest_of : Text → Option (Text × Text) → Option (Text × Text × Text)
rest_of a none = none
rest_of a (some (b, c)) = some (a, b, c)

abbrev pub then_cut : Option (Text × Text) → Option (Text × Text × Text)
then_cut none = none
then_cut (some (a, more)) = rest_of a (cut b'|' more)

-- `strings.SplitN(line, "|", 3)`, where it gives three parts
unfoldable pub three_parts : Text → Option (Text × Text × Text)
three_parts line = then_cut (cut b'|' line)

abbrev pub with_entry : Option (Text × Text × Text) → List VolFile → List VolFile
with_entry none files = files
with_entry (some (kind, size, name)) files =
    record { name = name; dir = text_eq kind (codes "d"); size = parsed_value (parse_int size) }
    ∷ files

-- The loop over the lines. A size that is no number is 0.
unfoldable pub parse_lines : List Text → List VolFile
unfolding three_parts
parse_lines [] = []
parse_lines (given ∷ lines) =
    let files = parse_lines lines in
    let line = trim_space given in
    if is_empty line then files else with_entry (three_parts line) files

unfoldable pub parse_vol_listing : Text → List VolFile
unfolding parse_lines
parse_vol_listing out = parse_lines (split_on b'\n' out)
