-- ===== src/Router/Keeps.antt =====
-- Steps that leave the gauges and the semaphores as they found them, and how they compose.
pub mod Words
pub mod Steps
use go_feather_route.Prelude.{
  ℕ, ◌^◌, ◌<◌, ◌≡◌, refl, ap, ◌∙◌, Bool, true, false, Option, none, some, if◌then◌else◌,
}
use go_feather_route.Contract.Problems.{Checked, good, bad}
use go_feather_route.Router.Server.{State, Gauges}
use go_feather_route.Router.Handling.{
  Reply, Exit, stop, go, Handler, ◌>>=◌, pure, return, modify, check, bracket, continue, map_state,
  on_gauges,
}

abbrev pub exit_state {ℓ} : {A : Type ℓ} → Exit A → State
exit_state (stop r s) = s
exit_state (go a s) = s

-- Every gauge is a uint64, or the bit pattern of an int64.
pub record IsWord (g : Gauges) : Type 0 where
  pub active : g.active < 2 ^ 64
  pub active_chat : g.active_chat < 2 ^ 64
  pub active_embeddings : g.active_embeddings < 2 ^ 64
  pub active_streams : g.active_streams < 2 ^ 64
  pub semaphore : g.semaphore < 2 ^ 64
  pub embedding_semaphore : g.embedding_semaphore < 2 ^ 64
  pub stream_semaphore : g.stream_semaphore < 2 ^ 64

-- A step that leaves the gauges as it found them, however it ends.
pub record Keeps {ℓ} {A : Type ℓ} (m : Handler A) : Type ℓ where
  pub at : (s : State) → IsWord s.gauges → (exit_state (m s)).gauges ≡ s.gauges

module _ {ℓ} {A : Type ℓ} where
  pub Keeps-pure : (a : A) → Keeps (pure a)
  Keeps-pure a = record { at = λ s w. refl }

  pub Keeps-return : (r : Reply) → Keeps (return {A = A} r)
  Keeps-return r = record { at = λ s w. refl }

  pub Keeps-if : (b : Bool) (m n : Handler A) → Keeps m → Keeps n → Keeps (if b then m else n)
  Keeps-if true m n km kn = km
  Keeps-if false m n km kn = kn

  pub Keeps-check : (status : ℕ) (c : Checked A) → Keeps (check status c)
  Keeps-check status (good a) = record { at = λ s w. refl }
  Keeps-check status (bad p) = record { at = λ s w. refl }

pub Keeps-modify : (f : State → State) → ((s : State) → (f s).gauges ≡ s.gauges) → Keeps (modify f)
Keeps-modify f h = record { at = λ s w. h s }

module _ {ℓ κ} {A : Type ℓ} {B : Type κ} where
  continue-Keeps :
      (e : Exit A) (f : A → Handler B) (g : Gauges)
      → (exit_state e).gauges ≡ g
      → IsWord g
      → ((a : A) → Keeps (f a))
      → (exit_state (continue e f)).gauges ≡ g
  continue-Keeps (stop r s) f g h w k = h
  continue-Keeps (go a s) f g h w k = (k a).at s (rw h w) ∙ h

  pub Keeps-bind :
      (m : Handler A) (f : A → Handler B) → Keeps m → ((a : A) → Keeps (f a)) → Keeps (m >>= f)
  Keeps-bind m f km kf = record { at = λ s w. continue-Keeps (m s) f s.gauges (km.at s w) w kf }

map_state_gauges {ℓ} :
    {A : Type ℓ} (leave : Gauges → Gauges) (e : Exit A)
    → (exit_state (map_state (on_gauges leave) e)).gauges ≡ leave (exit_state e).gauges
map_state_gauges leave (stop r s) = refl
map_state_gauges leave (go a s) = refl

pub Keeps-bracket {ℓ} :
    {A : Type ℓ} (enter leave : Gauges → Gauges) (m : Handler A)
    → ((g : Gauges) → IsWord g → IsWord (enter g) × (leave (enter g) ≡ g))
    → Keeps m
    → Keeps (bracket enter leave m)
unfolding bracket
Keeps-bracket enter leave m h km = record {
  at = λ s w.
      map_state_gauges leave (m (on_gauges enter s))
      ∙ ap leave (km.at (on_gauges enter s) (h s.gauges w).0)
      ∙ (h s.gauges w).1;
}

pub Keeps-elim {ℓ κ} :
    {A : Type ℓ} {B : Type κ} (o : Option A) (m : Handler B) (f : A → Handler B)
    → Keeps m
    → ((a : A) → Keeps (f a))
    → Keeps (elim o [ none ↦ m | some a ↦ f a ])
Keeps-elim none m f km kf = km
Keeps-elim (some a) m f km kf = kf a
