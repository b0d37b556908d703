-- ===== src/Docker/Listing/Printed.antt =====
-- What the script prints for a directory, and that it is read back.
use easy_deploy.Prelude.{
  ℕ, ◌≡◌, refl, ap, ◌∙◌, ◌<◌, ◌^◌, true, false, ◌==◌, some, List, [], ◌∷◌, ◌++◌, Text, codes,
  text_eq, All,
}
use easy_deploy.Prelude.Int.{pos}
use easy_deploy.Prelude.Decimal.{itoa_ℕ, itoa_ℕ-Lacks, parse_int, parsed_value-itoa_ℕ}
use easy_deploy.Prelude.Trim.{trim_space, is_space, trailing, trailing-append, trim_ends}
use easy_deploy.Prelude.Split.{Lacks, Lacks-append, cut-append, split_on, split_on-append}
use easy_deploy.Docker.Listing.{
  VolFile, rest_of, then_cut, with_entry, three_parts, parse_lines, parse_vol_listing,
}

-- An entry as the directory has it: a directory, or a file of so many bytes.
pub data Entry : Type 0 where
  folder : Text → Entry
  file : ℕ → Text → Entry

abbrev name_of : Entry → Text
name_of (folder n) = n
name_of (file k n) = n

-- what `echo` prints, without the newline
abbrev printed : Entry → Text
printed (folder n) = codes "d|0|" ++ n
printed (file k n) = codes "f|" ++ (itoa_ℕ k ++ b'|' ∷ n)

abbrev shown : Entry → VolFile
shown (folder n) = record { name = n; dir = true; size = pos 0 }
shown (file k n) = record { name = n; dir = false; size = pos k }

unfoldable pub listing : List Entry → Text
listing [] = []
listing (e ∷ es) = printed e ++ b'\n' ∷ listing es

unfoldable pub shown_all : List Entry → List VolFile
shown_all [] = []
shown_all (e ∷ es) = shown e ∷ shown_all es

abbrev Fits : Entry → Type 0
Fits (folder n) = Unit
Fits (file k n) = k < 2 ^ 63

-- A name without a newline that does not end in white space, and a size that fits `int64`.
pub record IsPlain (e : Entry) : Type 0 where
  pub one_line : Lacks b'\n' (name_of e)
  pub ends_well : trailing is_space false (name_of e) ≡ false
  pub small : Fits e

three_parts_lem :
    (a b c : Text)
    → Lacks b'|' a
    → Lacks b'|' b
    → three_parts (a ++ b'|' ∷ (b ++ b'|' ∷ c)) ≡ some (a, b, c)
unfolding three_parts
three_parts_lem a b c ha hb =
    ap then_cut (cut-append b'|' a (b ++ b'|' ∷ c) ha) ∙ ap (rest_of a) (cut-append b'|' b c hb)

-- A line whose first character stays, and whose last is not white space, is read as its parts.
line_lem :
    (k : ℕ) (b c : Text) (lines : List Text)
    → is_space k ≡ false
    → (k == b'|') ≡ false
    → Lacks b'|' b
    → trailing is_space false c ≡ false
    → parse_lines ((k ∷ b'|' ∷ (b ++ b'|' ∷ c)) ∷ lines)
      ≡ with_entry (some (k ∷ [], b, c)) (parse_lines lines)
unfolding parse_lines trim_space trailing is_space
line_lem k b c lines start apart hb last =
    rw
      (trim_ends is_space k (b'|' ∷ (b ++ b'|' ∷ c)) start
        (trailing-append is_space false b c b'|' ∙ last))
      (rw (three_parts_lem (k ∷ []) b c (apart, tt) hb) refl)

line-back :
    (e : Entry) (lines : List Text)
    → IsPlain e
    → parse_lines (printed e ∷ lines) ≡ shown e ∷ parse_lines lines
unfolding text_eq parse_int is_space
line-back (folder n) lines h = line_lem b'd' (codes "0") n lines refl refl (refl, tt) h.ends_well
line-back (file k n) lines h =
    line_lem b'f' (itoa_ℕ k) n lines refl refl (itoa_ℕ-Lacks b'|' k refl) h.ends_well
    ∙ ap (λ z. record { name = n; dir = false; size = z } ∷ parse_lines lines)
        (parsed_value-itoa_ℕ k h.small)

printed-Lacks : (e : Entry) → IsPlain e → Lacks b'\n' (printed e)
printed-Lacks (folder n) h = (refl, (refl, (refl, (refl, h.one_line))))
printed-Lacks (file k n) h = (
  refl,
  (refl, Lacks-append b'\n' (itoa_ℕ k) (b'|' ∷ n) (itoa_ℕ-Lacks b'\n' k refl) (refl, h.one_line)),
)

-- The listing of a directory is read back entry by entry, if no name holds a newline or ends in white
-- space, and every size fits `int64`.
pub parse_vol_listing-listing :
    (es : List Entry) → All IsPlain es → parse_vol_listing (listing es) ≡ shown_all es
unfolding parse_vol_listing listing shown_all split_on parse_lines trim_space
parse_vol_listing-listing [] h = refl
parse_vol_listing-listing (e ∷ es) h =
    rw (split_on-append b'\n' (printed e) (listing es) (printed-Lacks e h.0)) (
      line-back e (split_on b'\n' (listing es)) h.0
      ∙ ap (λ fs. shown e ∷ fs) (parse_vol_listing-listing es h.1))
