-- ===== src/Router/Sound.antt =====
-- Invariants of the maps of metrics over the handlers: steps that keep one, and how they compose.
pub mod Steps
pub mod Handlers
pub mod Whole
use go_feather_route.Prelude.{ℕ, ◌≡◌, refl, Bool, true, false, Option, none, some, if◌then◌else◌}
use go_feather_route.Contract.Problems.{Checked, good, bad}
use go_feather_route.Router.Server.{State, Gauges}
use go_feather_route.Router.Handling.{
  Reply, Exit, stop, go, Handler, ◌>>=◌, pure, return, modify, check, bracket, continue, map_state,
  on_gauges,
}

-- The exit's state has the property, and so has the value to go on with.
abbrev pub Ends {ℓ} : {A : Type ℓ} → (State → Type 0) → (A → Type 0) → Exit A → Type 0
Ends I Q (stop r s) = I s
Ends I Q (go a s) = I s × Q a

pub record Sound {ℓ} {A : Type ℓ} (I : State → Type 0) (Q : A → Type 0) (m : Handler A)
    : Type ℓ where
  pub at : (s : State) → I s → Ends I Q (m s)

-- What a property of the two maps says does not depend on the rest of the state.
abbrev pub Framed : (State → Type 0) → Type 0
Framed I =
    (s t : State) → t.retry_reasons ≡ s.retry_reasons → t.route_stats ≡ s.route_stats → I s → I t

abbrev pub Anything {ℓ} : {A : Type ℓ} → A → Type 0
Anything a = Unit

module _ (I : State → Type 0) where
  module _ {ℓ} {A : Type ℓ} (Q : A → Type 0) where
    pub Sound-pure : (a : A) → Q a → Sound I Q (pure a)
    Sound-pure a q = record { at = λ s i. (i, q) }

    pub Sound-return : (r : Reply) → Sound I Q (return r)
    Sound-return r = record { at = λ s i. i }

    pub Sound-if :
        (b : Bool) (m n : Handler A) → Sound I Q m → Sound I Q n → Sound I Q (if b then m else n)
    Sound-if true m n km kn = km
    Sound-if false m n km kn = kn

  pub Sound-check {ℓ} :
      {A : Type ℓ} (status : ℕ) (c : Checked A) → Sound I Anything (check status c)
  Sound-check status (good a) = record { at = λ s i. (i, tt) }
  Sound-check status (bad p) = record { at = λ s i. i }

  pub Sound-modify :
      (f : State → State) → ((s : State) → I s → I (f s)) → Sound I Anything (modify f)
  Sound-modify f h = record { at = λ s i. (h s i, tt) }

  module _ {ℓ κ} {A : Type ℓ} {B : Type κ} (Q : A → Type 0) (R : B → Type 0) where
    continue-Sound :
        (e : Exit A) (f : A → Handler B)
        → Ends I Q e
        → ((a : A) → Q a → Sound I R (f a))
        → Ends I R (continue e f)
    continue-Sound (stop r s) f i k = i
    continue-Sound (go a s) f (i, q) k = (k a q).at s i

    pub Sound-bind :
        (m : Handler A) (f : A → Handler B)
        → Sound I Q m
        → ((a : A) → Q a → Sound I R (f a))
        → Sound I R (m >>= f)
    Sound-bind m f km kf = record { at = λ s i. continue-Sound (m s) f (km.at s i) kf }

  module _ {ℓ} {A : Type ℓ} (Q : A → Type 0) (frame : Framed I) where
    left :
        (leave : Gauges → Gauges) (e : Exit A)
        → Ends I Q e
        → Ends I Q (map_state (on_gauges leave) e)
    left leave (stop r s) i = frame s _ refl refl i
    left leave (go a s) (i, q) = (frame s _ refl refl i, q)

    pub Sound-bracket :
        (enter leave : Gauges → Gauges) (m : Handler A)
        → Sound I Q m
        → Sound I Q (bracket enter leave m)
    unfolding bracket
    Sound-bracket enter leave m km = record {
      at = λ s i. left leave (m (on_gauges enter s)) (km.at _ (frame s _ refl refl i));
    }
