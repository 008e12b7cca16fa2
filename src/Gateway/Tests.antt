-- ===== src/Gateway/Tests.antt =====
-- The routing table on a table of two aliases and three rules.
use go_feather_route.Prelude.{
  ◌≡◌, refl, [], ◌∷◌, codes, some, cut, str_eq, strip_suffix?, has_prefix,
}
use go_feather_route.Prelude.Dict.{lookup, bytes_eq}
use go_feather_route.Gateway.{Routes, provider_for, exact}
use go_feather_route.Gateway.Lookup.{provider_for-FirstMatch, FirstMatch}

abbrev table : Routes
table = record {
  by_model = (codes "fast", codes "openai") ∷ (codes "chat", codes "local") ∷ [];
  rules =
      record { match = codes "gpt-*"; provider = codes "openai" }
      ∷ record { match = codes "local/*"; provider = codes "ollama" }
      ∷ record { match = codes "*"; provider = codes "local" }
      ∷ [];
}

exact_alias : provider_for table (codes "fast") ≡ some (codes "openai")
unfolding provider_for lookup str_eq
exact_alias = refl

qualified_name : provider_for table (codes "local/llama") ≡ some (codes "ollama")
unfolding provider_for lookup str_eq cut
qualified_name = refl

first_rule : provider_for table (codes "gpt-4o") ≡ some (codes "openai")
unfolding provider_for lookup str_eq cut strip_suffix? has_prefix
first_rule = refl

provider_for-FirstMatch_example :
    FirstMatch (codes "gpt-4o") table.rules (provider_for table (codes "gpt-4o"))
unfolding exact lookup str_eq cut
provider_for-FirstMatch_example = provider_for-FirstMatch table (codes "gpt-4o") refl refl
