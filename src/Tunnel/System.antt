-- ===== src/Tunnel/System.antt =====
-- Starts that overlap, and stops, in any order: what the parts of the calls do to the manager, and the
-- starts that are under way.
use easy_deploy.Prelude.{
  ◌≡◌, refl, arith, Bool, true, false, ◌&&◌, ◌==◌, Option, none, some, List, [], ◌∷◌, ℕ,
  if◌then◌else◌,
}
use easy_deploy.Prelude.Int.{ℤ, int_eq, int_eq_iff}
use easy_deploy.Prelude.Rows.{exists}
use easy_deploy.Effect.{ok}
use easy_deploy.Store.{Tunnel}
use easy_deploy.Tunnel.{Tunnels, listener_at, drop_listener, check_start, listen, register, stop}

-- A start that is past its check and not yet registered, with the listener that it has opened.
pub record Start : Type 0 where
  pub id : ℤ
  pub listener : Option ℕ

-- The manager, and the starts that are under way.
pub record System : Type 0 where
  pub tunnels : Tunnels
  pub pending : List Start

abbrev pub same : Option ℕ → Option ℕ → Bool
same none none = true
same none (some d) = false
same (some c) none = false
same (some c) (some d) = c == d

abbrev pub of_id : ℤ → Start → Bool
of_id id e = int_eq id e.id

abbrev pub is_start : ℤ → Option ℕ → Start → Bool
is_start id l e = int_eq id e.id && same l e.listener

unfoldable pub remove_one : ℤ → Option ℕ → List Start → List Start
remove_one id l [] = []
remove_one id l (e ∷ es) = if is_start id l e then es else e ∷ remove_one id l es

unfoldable pub with_listener : ℤ → ℕ → List Start → List Start
with_listener id c [] = []
with_listener id c (e ∷ es) =
    if is_start id none e then record e { listener = some c } ∷ es else e ∷ with_listener id c es

-- What one part of a call does. Where `calm` holds, no start of a tunnel begins while another start
-- of it is under way.
pub data Step (calm : Bool) (s : System) : System → Type 0 where
  begin :
      (t : Tunnel)
      → (check_start t s.tunnels).0 ≡ ok tt
      → (calm && exists (of_id t.id) s.pending) ≡ false
      → Step calm s (record s { pending = record { id = t.id; listener = none } ∷ s.pending })
  open_remote :
      (id : ℤ)
      → exists (is_start id none) s.pending ≡ true
      → Step calm s (record {
        tunnels = (listen s.tunnels).1;
        pending = with_listener id s.tunnels.next s.pending;
      })
  finish :
      (id : ℤ) (c : ℕ)
      → exists (is_start id (some c)) s.pending ≡ true
      → Step calm s
          (record { tunnels = register id c s.tunnels; pending = remove_one id (some c) s.pending })
  give_up : (id : ℤ) → Step calm s (record s { pending = remove_one id none s.pending })
  halt : (id : ℤ) → Step calm s (record s { tunnels = stop id s.tunnels })

abbrev pub initial : System
initial = record { tunnels = record { running = []; opened = []; next = 0 }; pending = [] }

pub data Reach (calm : Bool) : System → Type 0 where
  here : Reach calm initial
  later : {s t : System} → Reach calm s → Step calm s t → Reach calm t

pub listener_at-drop_listener :
    (j id : ℤ) (m : List (ℤ × ℕ))
    → listener_at j (drop_listener id m) ≡ (if int_eq id j then none else listener_at j m)
unfolding listener_at drop_listener
listener_at-drop_listener j id [] = ground arith
listener_at-drop_listener j id ((i, c) ∷ m) =
    ground
      (arith, listener_at-drop_listener j id m, int_eq_iff i id, int_eq_iff i j, int_eq_iff id j)

-- The tunnels of the starts do not run, and no two starts are of one tunnel.
abbrev pub Waits : List (ℤ × ℕ) → List Start → Type 0
Waits m [] = Unit
Waits m (e ∷ es) = (listener_at e.id m ≡ none) × (exists (of_id e.id) es ≡ false) × Waits m es

pub Waits-drop :
    (id : ℤ) (m : List (ℤ × ℕ)) (es : List Start) → Waits m es → Waits (drop_listener id m) es
Waits-drop id m [] h = tt
Waits-drop id m (e ∷ es) h =
    (ground (arith, listener_at-drop_listener e.id id m), h.1, Waits-drop id m es h.2)

pub Waits-register :
    (id : ℤ) (c : ℕ) (m : List (ℤ × ℕ)) (es : List Start)
    → exists (of_id id) es ≡ false
    → Waits m es
    → Waits ((id, c) ∷ drop_listener id m) es
unfolding listener_at exists
Waits-register id c m [] absent h = tt
Waits-register id c m (e ∷ es) absent h = (
  ground (arith, listener_at-drop_listener e.id id m),
  h.1,
  Waits-register id c m es (ground arith) h.2,
)

exists-remove_one :
    (k id : ℤ) (l : Option ℕ) (es : List Start)
    → exists (of_id k) es ≡ false
    → exists (of_id k) (remove_one id l es) ≡ false
unfolding exists remove_one
exists-remove_one k id l [] h = refl
exists-remove_one k id l (e ∷ es) h = ground (arith, exists-remove_one k id l es)

pub Waits-remove_one :
    (id : ℤ) (l : Option ℕ) (m : List (ℤ × ℕ)) (es : List Start)
    → Waits m es
    → Waits m (remove_one id l es)
unfolding remove_one
Waits-remove_one id l m [] h = tt
Waits-remove_one id l m (e ∷ es) h =
    ground (arith, Waits-remove_one id l m es h.2, exists-remove_one e.id id l es h.1)

exists-with_listener :
    (k id : ℤ) (c : ℕ) (es : List Start)
    → exists (of_id k) (with_listener id c es) ≡ exists (of_id k) es
unfolding exists with_listener
exists-with_listener k id c [] = refl
exists-with_listener k id c (e ∷ es) = ground (arith, exists-with_listener k id c es)

pub Waits-with_listener :
    (id : ℤ) (c : ℕ) (m : List (ℤ × ℕ)) (es : List Start)
    → Waits m es
    → Waits m (with_listener id c es)
unfolding with_listener
Waits-with_listener id c m [] h = tt
Waits-with_listener id c m (e ∷ es) h =
    ground (arith, Waits-with_listener id c m es h.2, exists-with_listener e.id id c es)

start_of_id :
    (id : ℤ) (l : Option ℕ) (es : List Start)
    → exists (is_start id l) es ≡ true
    → exists (of_id id) es ≡ true
unfolding exists
start_of_id id l [] h = h
start_of_id id l (e ∷ es) h = ground (arith, start_of_id id l es)

pub removed_once :
    (id : ℤ) (l : Option ℕ) (m : List (ℤ × ℕ)) (es : List Start)
    → exists (is_start id l) es ≡ true
    → Waits m es
    → exists (of_id id) (remove_one id l es) ≡ false
unfolding exists remove_one
removed_once id l m [] there h = refl
removed_once id l m (e ∷ es) there h =
    ground (arith, removed_once id l m es, start_of_id id l es, int_eq_iff id e.id)

pub not_running :
    (id : ℤ) (l : Option ℕ) (m : List (ℤ × ℕ)) (es : List Start)
    → exists (is_start id l) es ≡ true
    → Waits m es
    → listener_at id m ≡ none
unfolding exists
not_running id l m [] there h = cc
not_running id l m (e ∷ es) there h = ground (arith, not_running id l m es, int_eq_iff id e.id)
