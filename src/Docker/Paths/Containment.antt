-- ===== src/Docker/Paths/Containment.antt =====
-- Where `safe_path` leads.
use easy_deploy.Prelude.{
  ◌≡◌, refl, ap, arith, false, ◌||◌, List, [], ◌∷◌, ◌++◌, Text, codes, text_eq, is_empty, All,
  Bool-cases, inl, inr,
}
use easy_deploy.Prelude.Split.{Lacks, split_on, split_on-Lacks}
use easy_deploy.Prelude.Trim.{trim_space}
use easy_deploy.Docker.Paths.{without_last, resolve, spelled, clean_rooted, safe_path, vol_mount}

-- An element that names something in its directory: not empty, not `.`, not `..`, and no slash.
pub record IsName (e : Text) : Type 0 where
  pub not_empty : is_empty e ≡ false
  pub not_dot : text_eq e (codes ".") ≡ false
  pub not_up : text_eq e (codes "..") ≡ false
  pub no_slash : Lacks b'/' e

-- The path is the mount, or stands below it.
pub record IsInside (p : Text) : Type 0 where
  pub elements : List Text
  pub leads : p ≡ vol_mount ++ spelled elements
  pub names : All IsName elements

without_last-names : (stack : List Text) → All IsName stack → All IsName (without_last stack)
without_last-names [] h = tt
without_last-names (e ∷ stack) h = h.1

resolve-names :
    (stack es : List Text) → All IsName stack → All (Lacks b'/') es → All IsName (resolve stack es)
unfolding resolve
resolve-names stack [] hs he = hs
resolve-names stack (e ∷ es) hs he = elim (Bool-cases (is_empty e || text_eq e (codes "."))) [
  | inl dropped ↦ rw dropped (resolve-names stack es hs he.1)
  | inr kept ↦ rw kept (elim (Bool-cases (text_eq e (codes ".."))) [
    | inl up ↦ rw up (resolve-names (without_last stack) es (without_last-names stack hs) he.1)
    | inr down ↦ rw down (resolve-names (e ∷ stack) es (name_of e kept down he.0, hs) he.1)
  ])
]
  where
    name_of :
        (e : Text)
        → (is_empty e || text_eq e (codes ".")) ≡ false
        → text_eq e (codes "..") ≡ false
        → Lacks b'/' e
        → IsName e
    name_of e kept down lacks = record {
      not_empty = ground arith;
      not_dot = ground arith;
      not_up = down;
      no_slash = lacks;
    }

abbrev elements_of : Text → List Text
elements_of sub = resolve [] (split_on b'/' (b'/' ∷ trim_space sub))

elements_of-names : (sub : Text) → All IsName (elements_of sub)
elements_of-names sub =
    resolve-names [] (split_on b'/' (b'/' ∷ trim_space sub)) tt
      (split_on-Lacks b'/' (b'/' ∷ trim_space sub))

clean_below :
    (sub : Text)
    → text_eq (clean_rooted (b'/' ∷ trim_space sub)) (codes "/") ≡ false
    → clean_rooted (b'/' ∷ trim_space sub) ≡ spelled (elements_of sub)
unfolding clean_rooted text_eq
clean_below sub below = elim (Bool-cases (is_empty (spelled (elements_of sub)))) [
  | inl nothing ↦ absurd (ground (arith, nothing))
  | inr something ↦ rw something refl
]

pub safe_path-IsInside : (sub : Text) → IsInside (safe_path sub)
unfolding safe_path
safe_path-IsInside sub =
    let out = spelled (elements_of sub) in
    elim (Bool-cases (text_eq (clean_rooted (b'/' ∷ trim_space sub)) (codes "/"))) [
      | inl root ↦ rw root (record { elements = []; leads = refl; names = tt })
      | inr below ↦ rw below (record {
        elements = elements_of sub;
        leads = ap (λ t. vol_mount ++ t) (clean_below sub below);
        names = elements_of-names sub;
      })
    ]
