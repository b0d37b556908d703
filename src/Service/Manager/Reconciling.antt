-- ===== src/Service/Manager/Reconciling.antt =====
-- What `reconcile` asks of the daemon.
use easy_deploy.Prelude.{
  ℕ, zero, suc, ◌+◌, ◌≤◌, Bool, false, not, ◌||◌, ◌≡◌, Option, none, some, List, [], ◌∷◌, ◌++◌, map,
  Text, if◌then◌else◌,
}
use easy_deploy.Prelude.Int.{ℤ, pos, int_eq, leb_ℤ, ltb_ℤ}
use easy_deploy.Prelude.Rows.{exists}
use easy_deploy.Prelude.Decimal.{atoi}
use easy_deploy.Store.{Service}
use easy_deploy.Docker.Spec.{DeploySpec}
use easy_deploy.Service.Manager.{
  Replica, Call, start, deploy, remove, has_index, drop_index, by_index, starts, container_ids,
}

-- The indices from `i` on, `n` of them, that the map lacks.
unfoldable pub missing : ℕ → ℕ → List (ℤ × Text) → List ℕ
missing i zero m = []
missing i (suc n) m =
    let rest = missing (i + 1) n (drop_index (pos i) m) in
    if has_index (pos i) m then rest else i ∷ rest

-- What the map holds besides those indices.
unfoldable pub leftover : ℕ → ℕ → List (ℤ × Text) → List (ℤ × Text)
leftover i zero m = m
leftover i (suc n) m = leftover (i + 1) n (drop_index (pos i) m)

-- The container is labelled with that index.
abbrev pub has_label : ℤ → Replica → Bool
has_label k c = elim (atoi c.index_label) [ none ↦ false | some j ↦ int_eq j k ]

-- No two containers are labelled with one index.
abbrev IsOnly : Option ℤ → List Replica → Type 0
IsOnly none cs = Unit
IsOnly (some k) cs = exists (has_label k) cs ≡ false

abbrev pub AreApart : List Replica → Type 0
AreApart [] = Unit
AreApart (c ∷ cs) = IsOnly (atoi c.index_label) cs × AreApart cs

-- The replicas from `i` on, `n` of them, that no container is labelled with.
unfoldable pub wanted : ℕ → ℕ → List Replica → List ℕ
wanted i zero cs = []
wanted i (suc n) cs =
    let rest = wanted (i + 1) n cs in if exists (has_label (pos i)) cs then rest else i ∷ rest

-- The containers that are labelled with an index which is not one of the first `n`.
abbrev outside : ℕ → ℕ → ℤ → Bool
outside i n k = ltb_ℤ k (pos i) || leb_ℤ (pos (i + n)) k

abbrev is_surplus : ℕ → Option ℤ → Bool
is_surplus n none = false
is_surplus n (some k) = ltb_ℤ k (pos 0) || leb_ℤ (pos n) k

unfoldable pub surplus : ℕ → List Replica → List Text
surplus n [] = []
surplus n (c ∷ cs) = if is_surplus n (atoi c.index_label) then c.id ∷ surplus n cs else surplus n cs

-- The map and the containers agree on the indices from `i` on.
abbrev Agree : ℕ → List (ℤ × Text) → List Replica → Type 0
Agree i m cs = (k : ℕ) → i ≤ k → has_index (pos k) m ≡ exists (has_label (pos k)) cs

abbrev outside_at : ℕ → ℕ → ℤ × Text → Bool
outside_at i n e = outside i n e.0

-- The indices and ids of the containers that have an index.
abbrev entry : Option ℤ → Text → List (ℤ × Text)
entry none id = []
entry (some k) id = (k, id) ∷ []

labelled : List Replica → List (ℤ × Text)
labelled [] = []
labelled (c ∷ cs) = entry (atoi c.index_label) c.id ++ labelled cs

-- The map lacks the indices of the containers.
abbrev IsNew : Option ℤ → List (ℤ × Text) → Type 0
IsNew none m = Unit
IsNew (some k) m = has_index k m ≡ false

abbrev AreNew : List Replica → List (ℤ × Text) → Type 0
AreNew [] m = Unit
AreNew (c ∷ cs) m = IsNew (atoi c.index_label) m × AreNew cs m

-- The containers that have an index and do not run.
abbrev is_stopped : Option ℤ → Bool → Bool
is_stopped none running = false
is_stopped (some k) running = not running

unfoldable pub stopped : List Replica → List Text
stopped [] = []
stopped (c ∷ cs) =
    if is_stopped (atoi c.index_label) c.running then c.id ∷ stopped cs else stopped cs

-- What the host is asked for: starts, deployments of replicas, removals.
abbrev pub calls_of : (List Text → List Text) → ℕ → (ℕ → DeploySpec) → List Replica → List Call
calls_of order n s existing =
    map start (stopped existing)
    ++ map (λ k. deploy (s k)) (wanted 0 n existing)
    ++ map remove (order (surplus n existing))

abbrev calls_made : (List Text → List Text) → ℕ → (ℕ → DeploySpec) → List Replica → List Call
calls_made order n s existing =
    starts existing
    ++ map (λ k. deploy (s k)) (missing 0 n (by_index existing []))
    ++ map remove (order (container_ids (leftover 0 n (by_index existing []))))
