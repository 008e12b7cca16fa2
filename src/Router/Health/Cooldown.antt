-- ===== src/Router/Health/Cooldown.antt =====
-- When a provider is skipped.
use go_feather_route.Prelude.{
  ℕ, ◌+◌, ◌≡◌, ◌≢◌, refl, ap, ◌∙◌, true, ◌||◌, List, [], ◌∷◌, ◌++◌, All, Bytes, str_eq, str_eq_iff,
  leb, ltb, ◌==◌, if◌then◌else◌, arith,
}
use go_feather_route.Prelude.Dict.{lookup, get_or, bytes_eq, lookup-insert, lookup-delete}
use go_feather_route.Router.Health.{
  Health, provider_available, mark_provider_failure, mark_provider_success,
}

pub data Event : Type 0 where
  failure : ℕ → Bytes → Event
  success : Bytes → Event

unfoldable pub apply : Event → Health → Health
apply (failure now name) h = mark_provider_failure now name h
apply (success name) h = mark_provider_success name h

unfoldable pub run : Health → List Event → Health
unfolding apply
run h [] = h
run h (e ∷ es) = run (apply e h) es

-- What the two maps say of one provider: the end of its cooldown, 0 for none, and its failures.
pub record Standing : Type 0 where
  pub until : ℕ
  pub failures : ℕ

pub standing : Bytes → Health → Standing
standing name h = record {
  until = get_or (lookup name h.provider_cooldown) 0;
  failures = get_or (lookup name h.provider_failures) 0;
}

-- The rule for one provider: the second failure in a row starts a cooldown and counts from 0 again;
-- a success forgets both.
pub next_standing : Bytes → Event → Standing → Standing
next_standing name (failure now other) s =
    if str_eq other name
    then (if leb 1 s.failures
        then record { until = now + 5000000000; failures = 0 }
        else record s { failures = 1 })
    else s
next_standing name (success other) s =
    if str_eq other name then record { until = 0; failures = 0 } else s

pub standings : Bytes → Standing → List Event → Standing
standings name s [] = s
standings name s (e ∷ es) = standings name (next_standing name e s) es

standing-apply :
    (name : Bytes) (e : Event) (h : Health)
    → standing name (apply e h) ≡ next_standing name e (standing name h)
unfolding standing apply next_standing mark_provider_failure mark_provider_success get_or
standing-apply name (success other) h = ground (
  arith,
  lookup-delete other name h.provider_cooldown,
  lookup-delete other name h.provider_failures,
)
standing-apply name (failure now other) h = ground (
  arith,
  str_eq_iff other name,
  lookup-insert other name (now + 5000000000) h.provider_cooldown,
  lookup-insert other name 0 h.provider_failures,
  lookup-insert other name (get_or (lookup other h.provider_failures) 0 + 1) h.provider_failures,
)

-- After any history of failures and successes of all providers, what the maps hold of one provider
-- is what the rule for that provider alone makes of the history, so no other provider's events
-- touch it.
pub standing-run :
    (name : Bytes) (h : Health) (es : List Event)
    → standing name (run h es) ≡ standings name (standing name h) es
unfolding run standings
standing-run name h [] = refl
standing-run name h (e ∷ es) =
    standing-run name (apply e h) es ∙ ap (λ s. standings name s es) (standing-apply name e h)

provider_available-standing :
    (now : ℕ) (name : Bytes) (h : Health)
    → provider_available now name h
      ≡ (((standing name h).until == 0) || ltb (standing name h).until now)
unfolding provider_available standing
provider_available-standing now name h = refl

abbrev pub event_name : Event → Bytes
event_name (failure _ name) = name
event_name (success name) = name

-- Events of other providers.
abbrev pub Others : Bytes → List Event → Type 0
Others name = All (λ e. event_name e ≢ name)

standings-Others :
    (name : Bytes) (s : Standing) (es : List Event) → Others name es → standings name s es ≡ s
unfolding standings next_standing
standings-Others name s [] h = refl
standings-Others name s (failure now other ∷ es) (p, h) =
    ground (arith, str_eq_iff other name, standings-Others name s es h)
standings-Others name s (success other ∷ es) (p, h) =
    ground (arith, str_eq_iff other name, standings-Others name s es h)

standings-append :
    (name : Bytes) (s : Standing) (es es' : List Event)
    → standings name s (es ++ es') ≡ standings name (standings name s es) es'
unfolding standings
standings-append name s [] es' = refl
standings-append name s (e ∷ es) es' = standings-append name (next_standing name e s) es es'

abbrev fresh : Standing
fresh = record { until = 0; failures = 0 }

-- Events that forget what a provider did before, then others', then a tail.
standings_after :
    (name : Bytes) (s : Standing) (e : Event) (es es' : List Event)
    → Others name es
    → standings name s (e ∷ es ++ es') ≡ standings name (next_standing name e s) es'
unfolding standings
standings_after name s e es es' h =
    standings-append name (next_standing name e s) es es'
    ∙ ap (λ t. standings name t es') (standings-Others name (next_standing name e s) es h)

success_standing : (name : Bytes) (s : Standing) → next_standing name (success name) s ≡ fresh
unfolding next_standing
success_standing name s = rw ((str_eq_iff name name).1 refl)

failure_standing :
    (name : Bytes) (now : ℕ) (s : Standing)
    → next_standing name (failure now name) s ≡ (
        if leb 1 s.failures
        then record { until = now + 5000000000; failures = 0 }
        else record s { failures = 1 })
unfolding next_standing
failure_standing name now s = rw ((str_eq_iff name name).1 refl)

module _ (name : Bytes) (h : Health) (t1 now : ℕ) (es1 es2 : List Event) (others1 : Others name es1)
    (others2 : Others name es2) where
  one_failure_standing :
      (tail : List Event)
      → standing name (run h (success name ∷ es1 ++ (failure t1 name ∷ es2 ++ tail)))
        ≡ standings name (record { until = 0; failures = 1 }) tail
  one_failure_standing tail =
      standing-run name h (success name ∷ es1 ++ (failure t1 name ∷ es2 ++ tail))
      ∙ standings_after name (standing name h) (success name) es1 (failure t1 name ∷ es2 ++ tail)
          others1
      ∙ ap (λ s. standings name s (failure t1 name ∷ es2 ++ tail))
          (success_standing name (standing name h))
      ∙ standings_after name fresh (failure t1 name) es2 tail others2
      ∙ ap (λ s. standings name s tail) (failure_standing name t1 fresh)

  -- One failure after a success leaves a provider available, from any state and whatever
  -- other providers did meanwhile.
  pub one_failure_available :
      provider_available now name (run h (success name ∷ es1 ++ (failure t1 name ∷ es2 ++ [])))
      ≡ true
  one_failure_available =
      rw (provider_available-standing now name _, one_failure_standing [])
        (unfold standings in refl)

  -- After a success and two failures of a provider, whatever others do between and after, it is skipped up
  -- to five seconds after the second failure and available after that.
  pub two_failures_cool :
      (t2 : ℕ) (es3 : List Event)
      → Others name es3
      → provider_available now name
          (run h (success name ∷ es1 ++ (failure t1 name ∷ es2 ++ (failure t2 name ∷ es3 ++ []))))
        ≡ ltb (t2 + 5000000000) now
  two_failures_cool t2 es3 others3 =
      rw
        (
          provider_available-standing now name _,
          one_failure_standing (failure t2 name ∷ es3 ++ []),
          standings_after name (record { until = 0; failures = 1 }) (failure t2 name) es3 []
              others3,
          failure_standing name t2 (record { until = 0; failures = 1 }),
        )
        (unfold standings in ground arith)
