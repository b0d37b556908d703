-- ===== src/Tunnel/Tracking.antt =====
-- Which listeners can still be closed.
use easy_deploy.Prelude.{
  ◌≡◌, ◌≢◌, ◌⊎◌, refl, subst, ◌∙◌, arith, Bool, true, false, ◌==◌, Bool-cases, inl, inr,
  Option-cases, none, some, List, [], ◌∷◌, ℕ, All,
}
use easy_deploy.Prelude.Int.{ℤ, int_eq, int_eq_iff}
use easy_deploy.Prelude.Rows.{exists, delete}
use easy_deploy.Effect.{ok}
use easy_deploy.Store.{Tunnel}
use easy_deploy.Tunnel.{Tunnels, listener_at, drop_listener, check_start, listen, register, stop}
use easy_deploy.Tunnel.System.{
  Start, System, Step, begin, open_remote, finish, give_up, halt, initial, Reach, here, later, same,
  is_start, remove_one, with_listener, listener_at-drop_listener, Waits, Waits-drop, Waits-register,
  Waits-remove_one, Waits-with_listener, removed_once, not_running,
}

-- The start has opened that listener.
abbrev pub holds : ℕ → Start → Bool
holds c e = same (some c) e.listener

-- The listener is that of a tunnel in the map, so that `Stop` can close it, or of a start that is
-- about to put it there.
abbrev pub IsTracked : List (ℤ × ℕ) → List Start → ℕ → Type 0
IsTracked m es c = ((id : ℤ) × (listener_at id m ≡ some c)) ⊎ (exists (holds c) es ≡ true)

held-remove_one :
    (id : ℤ) (c d : ℕ) (es : List Start)
    → (d == c) ≡ false
    → exists (holds d) es ≡ true
    → exists (holds d) (remove_one id (some c) es) ≡ true
unfolding exists remove_one
held-remove_one id c d [] apart h = h
held-remove_one id c d (e ∷ es) apart h = ground (arith, held-remove_one id c d es apart)

held-give_up :
    (id : ℤ) (d : ℕ) (es : List Start)
    → exists (holds d) es ≡ true
    → exists (holds d) (remove_one id none es) ≡ true
unfolding exists remove_one
held-give_up id d [] h = h
held-give_up id d (e ∷ es) h = ground (arith, held-give_up id d es)

held-with_listener :
    (id : ℤ) (c d : ℕ) (es : List Start)
    → exists (holds d) es ≡ true
    → exists (holds d) (with_listener id c es) ≡ true
unfolding exists with_listener
held-with_listener id c d [] h = h
held-with_listener id c d (e ∷ es) h = ground (arith, held-with_listener id c d es)

opened-with_listener :
    (id : ℤ) (c : ℕ) (es : List Start)
    → exists (is_start id none) es ≡ true
    → exists (holds c) (with_listener id c es) ≡ true
unfolding exists with_listener
opened-with_listener id c [] h = h
opened-with_listener id c (e ∷ es) h = ground (arith, opened-with_listener id c es)

listener_at-register :
    (id j : ℤ) (c d : ℕ) (m : List (ℤ × ℕ))
    → listener_at id m ≡ none
    → listener_at j m ≡ some d
    → listener_at j ((id, c) ∷ drop_listener id m) ≡ some d
unfolding listener_at
listener_at-register id j c d m absent at = elim (Bool-cases (int_eq id j)) [
  | inl e ↦ absurd (ground (arith, int_eq_iff id j))
  | inr other ↦ rw other (listener_at-drop_listener j id m ∙ (rw other at))
]

IsTracked-register :
    (id : ℤ) (c d : ℕ) (m : List (ℤ × ℕ)) (es : List Start)
    → listener_at id m ≡ none
    → IsTracked m es d
    → IsTracked ((id, c) ∷ drop_listener id m) (remove_one id (some c) es) d
unfolding listener_at
IsTracked-register id c d m es absent (inl (j, at)) =
    inl (j, listener_at-register id j c d m absent at)
IsTracked-register id c d m es absent (inr held) = elim (Bool-cases (d == c)) [
  | inl e ↦ inl (id, ground (arith, int_eq_iff id id))
  | inr apart ↦ inr (held-remove_one id c d es apart held)
]

IsTracked-drop :
    (id : ℤ) (c d : ℕ) (m : List (ℤ × ℕ)) (es : List Start)
    → listener_at id m ≡ some c
    → (d == c) ≡ false
    → IsTracked m es d
    → IsTracked (drop_listener id m) es d
IsTracked-drop id c d m es there apart (inl (j, at)) =
    inl (j, ground (arith, listener_at-drop_listener j id m, int_eq_iff id j))
IsTracked-drop id c d m es there apart (inr held) = inr held

IsTracked-give_up :
    (id : ℤ) (d : ℕ) (m : List (ℤ × ℕ)) (es : List Start)
    → IsTracked m es d
    → IsTracked m (remove_one id none es) d
IsTracked-give_up id d m es (inl at) = inl at
IsTracked-give_up id d m es (inr held) = inr (held-give_up id d es held)

IsTracked-with_listener :
    (id : ℤ) (c d : ℕ) (m : List (ℤ × ℕ)) (es : List Start)
    → IsTracked m es d
    → IsTracked m (with_listener id c es) d
IsTracked-with_listener id c d m es (inl at) = inl at
IsTracked-with_listener id c d m es (inr held) = inr (held-with_listener id c d es held)

-- What holds of each listener holds of each after a step that keeps it.
All-map : {P Q : ℕ → Type 0} (step : (d : ℕ) → P d → Q d) (ds : List ℕ) → All P ds → All Q ds
All-map step [] h = tt
All-map step (d ∷ ds) h = (step d h.0, All-map step ds h.1)

All-delete :
    {P Q : ℕ → Type 0} (c : ℕ) (step : (d : ℕ) → (d == c) ≡ false → P d → Q d) (ds : List ℕ)
    → All P ds
    → All Q (delete (λ d. d == c) ds)
unfolding delete
All-delete c step [] h = tt
All-delete c step (d ∷ ds) h = elim (Bool-cases (d == c)) [
  | inl e ↦ rw e (All-delete c step ds h.1)
  | inr other ↦ rw other (step d other h.0, All-delete c step ds h.1)
]

record IsSound (s : System) : Type 0 where
  tracked : All (IsTracked s.tunnels.running s.pending) s.tunnels.opened
  waits : Waits s.tunnels.running s.pending

stop-IsSound :
    (id : ℤ) (s : System) → IsSound s → IsSound (record s { tunnels = stop id s.tunnels })
unfolding stop
stop-IsSound id s h =
    let m = s.tunnels.running in
    elim (Option-cases (listener_at id m)) [
      | inl absent ↦ rw absent h
      | inr (c, there) ↦ rw there (record {
        tracked =
            All-delete c (λ d. IsTracked-drop id c d m s.pending there) s.tunnels.opened h.tracked;
        waits = Waits-drop id m s.pending h.waits;
      })
    ]

check_start-absent :
    (t : Tunnel) (w : Tunnels) → (check_start t w).0 ≡ ok tt → listener_at t.id w.running ≡ none
unfolding check_start
check_start-absent t w h = ground arith

begin-IsTracked :
    (e : Start) (d : ℕ) (m : List (ℤ × ℕ)) (es : List Start)
    → IsTracked m es d
    → IsTracked m (e ∷ es) d
unfolding exists
begin-IsTracked e d m es (inl at) = inl at
begin-IsTracked e d m es (inr held) = inr (ground arith)

Step-IsSound : {s t : System} → Step true s t → IsSound s → IsSound t
unfolding listen register
Step-IsSound {s} (begin t checked calm) h = record {
  tracked =
      All-map
        (λ d. begin-IsTracked (record { id = t.id; listener = none }) d s.tunnels.running s.pending)
        s.tunnels.opened h.tracked;
  waits = (check_start-absent t s.tunnels checked, calm, h.waits);
}
Step-IsSound {s} (open_remote id there) h =
    let m = s.tunnels.running in
    let c = s.tunnels.next in
    record {
      tracked = (
        inr (opened-with_listener id c s.pending there),
        All-map (λ d. IsTracked-with_listener id c d m s.pending) s.tunnels.opened h.tracked,
      );
      waits = Waits-with_listener id c m s.pending h.waits;
    }
Step-IsSound {s} (finish id c there) h =
    let m = s.tunnels.running in
    let absent = not_running id (some c) m s.pending there h.waits in
    record {
      tracked =
          All-map (λ d. IsTracked-register id c d m s.pending absent) s.tunnels.opened h.tracked;
      waits =
          Waits-register id c m (remove_one id (some c) s.pending)
            (removed_once id (some c) m s.pending there h.waits)
            (Waits-remove_one id (some c) m s.pending h.waits);
    }
Step-IsSound {s} (give_up id) h = record {
  tracked =
      All-map (λ d. IsTracked-give_up id d s.tunnels.running s.pending) s.tunnels.opened h.tracked;
  waits = Waits-remove_one id none s.tunnels.running s.pending h.waits;
}
Step-IsSound {s} (halt id) h = stop-IsSound id s h

Reach-IsSound : {s : System} → Reach true s → IsSound s
Reach-IsSound here = record { tracked = tt; waits = tt }
Reach-IsSound (later r st) = Step-IsSound st (Reach-IsSound r)

-- Where no two starts of one tunnel overlap, every remote listener that is open belongs to a tunnel
-- in the map, or to a start under way that has opened it and is about to put it there, in whatever
-- order starts begin, open their listener, register or fail, and tunnels are stopped.
pub Reach-IsTracked :
    (s : System) → Reach true s → All (IsTracked s.tunnels.running s.pending) s.tunnels.opened
Reach-IsTracked s r = (Reach-IsSound r).tracked

-- A stop of a tunnel whose start has opened its listener and has not registered it is lost, where no
-- two starts of one tunnel overlap: it changes nothing, and after the registration the tunnel runs
-- with that listener.
pub halt-lost :
    (s : System) (id : ℤ) (c : ℕ)
    → Reach true s
    → exists (is_start id (some c)) s.pending ≡ true
    → (stop id s.tunnels ≡ s.tunnels)
      × (listener_at id (register id c (stop id s.tunnels)).running ≡ some c)
unfolding stop register listener_at
halt-lost s id c r there =
    let absent =
      not_running id (some c) s.tunnels.running s.pending there (Reach-IsSound r).waits in
    rw absent (refl, ground (arith, int_eq_iff id id))

-- What two starts of one tunnel leave.
abbrev pub twice : Tunnel → System
twice t = record {
  tunnels = register t.id 1 (register t.id 0 (listen (listen initial.tunnels).1).1);
  pending = [];
}

abbrev bare : ℤ → Start
bare id = record { id = id; listener = none }

abbrev opening : ℤ → ℕ → Start
opening id c = record { id = id; listener = some c }

at_pending :
    {calm : Bool} (w : Tunnels) {es ds : List Start}
    → es ≡ ds
    → Reach calm (record { tunnels = w; pending = es })
    → Reach calm (record { tunnels = w; pending = ds })
at_pending {calm} w e r = subst (λ es. Reach calm (record { tunnels = w; pending = es })) e r

module _ (t : Tunnel) (checked : (check_start t initial.tunnels).0 ≡ ok tt) where
  abbrev one : Tunnels
  one = (listen initial.tunnels).1

  abbrev two : Tunnels
  two = (listen one).1

  both_open : Reach false (record { tunnels = two; pending = opening t.id 0 ∷ opening t.id 1 ∷ [] })
  unfolding exists listen with_listener
  both_open =
      let id = t.id in
      let begun : Reach false
          (record { tunnels = initial.tunnels; pending = bare id ∷ bare id ∷ [] }) =
        later (later here (begin t checked refl)) (begin t checked refl) in
      let first : Reach false (record { tunnels = one; pending = opening id 0 ∷ bare id ∷ [] }) =
        at_pending one (ground (arith, int_eq_iff id id))
          (later begun (open_remote id (ground (arith, int_eq_iff id id)))) in
      at_pending two (ground (arith, int_eq_iff id id))
        (later first (open_remote id (ground (arith, int_eq_iff id id))))

  begin_twice : Reach false (twice t)
  unfolding exists remove_one
  begin_twice =
      let id = t.id in
      let first : Reach false
          (record { tunnels = register id 0 two; pending = opening id 1 ∷ [] }) =
        at_pending (register id 0 two) (ground (arith, int_eq_iff id id))
          (later both_open (finish id 0 (ground (arith, int_eq_iff id id)))) in
      at_pending (register id 1 (register id 0 two)) (ground (arith, int_eq_iff id id))
        (later first (finish id 1 (ground (arith, int_eq_iff id id))))

  untracked : (id : ℤ) → listener_at id (twice t).tunnels.running ≢ some 0
  unfolding listen register listener_at drop_listener
  untracked id h = ground (arith, int_eq_iff t.id id)

  -- Two starts of one tunnel that overlap can end with a listener open that no tunnel in the map
  -- has.
  pub overlapping_starts-leak :
      Reach false (twice t)
      × (exists (λ c. c == 0) (twice t).tunnels.opened ≡ true)
      × ¬ (IsTracked (twice t).tunnels.running [] 0)
  unfolding exists register listen
  overlapping_starts-leak =
      (begin_twice, refl, λ h. elim h [ inl (id, at) ↦ untracked id at | inr e ↦ cc e ])
