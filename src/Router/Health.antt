-- ===== src/Router/Health.antt =====
-- Provider failures and cooldowns: `providerAvailable`, `markProviderFailure` and
-- `markProviderSuccess`. A time is a number of nanoseconds; 0 is Go's zero time.
pub mod Cooldown
use go_feather_route.Prelude.{
  ℕ, ◌+◌, ◌*◌, Bool, true, false, ◌||◌, Option, none, some, [], Bytes, leb, ltb, ◌==◌,
  if◌then◌else◌,
}
use go_feather_route.Prelude.Dict.{Dict, lookup, insert, delete, get_or, bytes_eq}

pub record Health : Type 0 where
  pub provider_cooldown : Dict Bytes ℕ
  pub provider_failures : Dict Bytes ℕ

abbrev pub new_health : Health
new_health = record { provider_cooldown = []; provider_failures = [] }

abbrev pub cooldown_duration : ℕ
cooldown_duration = 5 * 1000000000

unfoldable pub provider_available : ℕ → Bytes → Health → Bool
unfolding get_or
provider_available now name h =
    let until = get_or (lookup name h.provider_cooldown) 0 in (until == 0) || ltb until now

unfoldable pub mark_provider_failure : ℕ → Bytes → Health → Health
unfolding get_or
mark_provider_failure now name h =
    let failures = get_or (lookup name h.provider_failures) 0 + 1 in
    if leb 2 failures
    then record {
      provider_cooldown = insert name (now + cooldown_duration) h.provider_cooldown;
      provider_failures = insert name 0 h.provider_failures;
    }
    else record h { provider_failures = insert name failures h.provider_failures }

unfoldable pub mark_provider_success : Bytes → Health → Health
mark_provider_success name h = record {
  provider_cooldown = delete name h.provider_cooldown;
  provider_failures = delete name h.provider_failures;
}
