-- ===== src/Gateway.antt =====
-- internal/gateway/routes.go: the routing table and its lookups.
pub mod Lookup
pub mod Models
mod Tests
use Prim.Native.Nat.{compare, Ordering}
use go_feather_route.Prelude.{
  ℕ, Bool, true, false, Option, none, some, List, [], ◌∷◌, ◌++◌, ◌&&◌, Bytes, codes, str_eq,
  is_empty, has_prefix, strip_suffix?, cut, if◌then◌else◌,
}
use go_feather_route.Prelude.Dict.{Dict, lookup, bytes_eq}

pub record Rule : Type 0 where
  pub match : Bytes
  pub provider : Bytes

pub record Routes : Type 0 where
  pub by_model : Dict Bytes Bytes
  pub rules : List Rule

-- Values are copied as they are: a model has no aliasing to cut.
unfoldable pub new_routes_with_rules : Dict Bytes Bytes → List Rule → Routes
new_routes_with_rules routes rules = record { by_model = routes; rules = rules }

unfoldable pub new_routes : Dict Bytes Bytes → Routes
unfolding new_routes_with_rules
new_routes routes = new_routes_with_rules routes []

-- `if provider, ok := r.byModel[model]; ok && provider != ""`
unfoldable pub exact : Routes → Bytes → Option Bytes
exact r model = elim (lookup model r.by_model) [
  | none ↦ none
  | some provider ↦ if is_empty provider then none else some provider
]

-- The first rule whose pattern is the provider's name and "/*".
unfoldable pub qualified_rule : Bytes → List Rule → Option Bytes
qualified_rule provider [] = none
qualified_rule provider (rule ∷ rules) =
    if str_eq rule.match (provider ++ codes "/*")
    then some rule.provider
    else qualified_rule provider rules

-- Some model is routed to the provider of that name.
unfoldable pub is_configured : Bytes → Dict Bytes Bytes → Bool
is_configured provider [] = false
is_configured provider ((model, configured) ∷ m) =
    if str_eq configured provider then true else is_configured provider m

abbrev pub or_else : Option Bytes → Option Bytes → Option Bytes
or_else none b = b
or_else (some p) b = some p

-- Without rules, the provider's name itself, if some model is routed to it.
unfoldable pub configured_name : Bytes → List Rule → Dict Bytes Bytes → Option Bytes
unfolding is_configured
configured_name provider [] m = if is_configured provider m then some provider else none
configured_name provider (_ ∷ _) m = none

unfoldable pub qualified_by : Bytes → Routes → Option Bytes
unfolding qualified_rule configured_name
qualified_by provider r =
    if is_empty provider
    then none
    else or_else (qualified_rule provider r.rules) (configured_name provider r.rules r.by_model)

-- The branch of `ProviderFor` on the part of the model name before its first slash.
unfoldable pub qualified : Routes → Bytes → Option Bytes
unfolding qualified_by
qualified r model = elim (cut b'/' model) [
  | none ↦ none
  | some (provider, _) ↦ qualified_by provider r
]

-- strings.HasSuffix(match, "*") && strings.HasPrefix(model, strings.TrimSuffix(match, "*"))
unfoldable pub rule_matches : Rule → Bytes → Bool
rule_matches rule model = elim (strip_suffix? (codes "*") rule.match) [
  | none ↦ false
  | some prefix ↦ has_prefix prefix model
]

-- The last loop of `ProviderFor`.
unfoldable pub wildcard : List Rule → Bytes → Option Bytes
unfolding rule_matches
wildcard [] model = none
wildcard (rule ∷ rules) model =
    if rule_matches rule model then some rule.provider else wildcard rules model

unfoldable pub provider_for : Routes → Bytes → Option Bytes
unfolding exact qualified wildcard
provider_for r model =
    or_else (exact r model) (or_else (qualified r model) (wildcard r.rules model))

unfoldable pub provider_for_model : Routes → Bytes → Option Bytes
unfolding provider_for
provider_for_model r model = or_else (exact r model) (provider_for r model)

-- a <= b, byte by byte
unfoldable pub str_le : Bytes → Bytes → Bool
str_le [] t = true
str_le (a ∷ s) [] = false
str_le (a ∷ s) (b ∷ t) = elim (compare a b) [
  | Ordering.lt ↦ true
  | Ordering.eq ↦ str_le s t
  | Ordering.gt ↦ false
]

unfoldable pub sort_insert : Bytes → List Bytes → List Bytes
sort_insert x [] = x ∷ []
sort_insert x (y ∷ l) = if str_le x y then x ∷ y ∷ l else y ∷ sort_insert x l

-- sort.Strings, by insertion.
unfoldable pub sort_strings : List Bytes → List Bytes
sort_strings [] = []
sort_strings (x ∷ l) = sort_insert x (sort_strings l)

unfoldable pub keys : Dict Bytes Bytes → List Bytes
keys [] = []
keys ((model, _) ∷ m) = model ∷ keys m

unfoldable pub models : Routes → List Bytes
unfolding sort_strings sort_insert str_le keys
models r = sort_strings (keys r.by_model)
