-- ===== src/Gateway/Lookup.antt =====
-- What `ProviderFor` answers.
use go_feather_route.Prelude.{
  append-strip_suffix?, strip_suffix?-append, ◌≡◌, ◌≢◌, ◌↔◌, refl, sym, true, Option, none, some,
  List, [], ◌∷◌, ◌++◌, Bytes, codes, str_eq, str_eq_iff, has_prefix_iff, strip_suffix?, cut, All,
  Bool-cases, Option-cases, inl, inr, arith,
}
use go_feather_route.Prelude.Dict.{Dict, lookup, bytes_eq}
use go_feather_route.Gateway.{
  Rule, Routes, exact, qualified_rule, is_configured, configured_name, qualified_by, qualified,
  rule_matches, wildcard, or_else, provider_for, provider_for_model,
}

-- `ProviderForModel` gives the answer of `ProviderFor` on every table and every model: its own
-- lookup of the exact alias decides nothing.
pub provider_for_model-eq-provider_for :
    (r : Routes) (model : Bytes) → provider_for_model r model ≡ provider_for r model
unfolding provider_for_model
provider_for_model-eq-provider_for r model = elim (Option-cases (exact r model)) [
  | inl missing ↦ rw (missing)
  | inr (p, found) ↦ rw (found)
]

module _ (P : Bytes → Type 0) where
  lookup-All :
      (m : Dict Bytes Bytes) (model : Bytes) {p : Bytes}
      → All (λ entry. P entry.1) m
      → lookup model m ≡ some p
      → P p
  unfolding lookup
  lookup-All [] model h e = cc
  lookup-All ((k, v) ∷ m) model {p} (hv, h) e = elim (Bool-cases (str_eq k model)) [
    | inl same ↦ let e' : v ≡ p = ground arith in rw (← e') hv
    | inr other ↦ lookup-All m model h (ground arith)
  ]

  is_configured-All :
      (provider : Bytes) (m : Dict Bytes Bytes)
      → All (λ entry. P entry.1) m
      → is_configured provider m ≡ true
      → P provider
  unfolding is_configured
  is_configured-All provider [] h e = cc
  is_configured-All provider ((k, v) ∷ m) (hv, h) e = elim (Bool-cases (str_eq v provider)) [
    | inl same ↦ rw (← (str_eq_iff v provider).0 same) hv
    | inr other ↦ is_configured-All provider m h (ground arith)
  ]

  qualified_rule-All :
      (provider : Bytes) (rules : List Rule) {p : Bytes}
      → All (λ rule. P rule.provider) rules
      → qualified_rule provider rules ≡ some p
      → P p
  unfolding qualified_rule
  qualified_rule-All provider [] h e = cc
  qualified_rule-All provider (rule ∷ rules) {p} (hr, h) e =
      elim (Bool-cases (str_eq rule.match (provider ++ codes "/*"))) [
        | inl same ↦ let e' : rule.provider ≡ p = ground arith in rw (← e') hr
        | inr other ↦ qualified_rule-All provider rules h (ground arith)
      ]

  wildcard-All :
      (rules : List Rule) (model : Bytes) {p : Bytes}
      → All (λ rule. P rule.provider) rules
      → wildcard rules model ≡ some p
      → P p
  unfolding wildcard
  wildcard-All [] model h e = cc
  wildcard-All (rule ∷ rules) model {p} (hr, h) e = elim (Bool-cases (rule_matches rule model)) [
    | inl same ↦ let e' : rule.provider ≡ p = ground arith in rw (← e') hr
    | inr other ↦ wildcard-All rules model h (ground arith)
  ]

  exact-All :
      (r : Routes) (model : Bytes) {p : Bytes}
      → All (λ entry. P entry.1) r.by_model
      → exact r model ≡ some p
      → P p
  unfolding exact
  exact-All r model {p} h e = elim (Option-cases (lookup model r.by_model)) [
    | inl missing ↦ absurd (ground arith)
    | inr (q, found) ↦
        let e' : q ≡ p = ground arith in rw (← e') (lookup-All r.by_model model h found)
  ]

  or_else-All :
      (a b : Option Bytes) {p : Bytes}
      → ((q : Bytes) → a ≡ some q → P q)
      → ((q : Bytes) → b ≡ some q → P q)
      → or_else a b ≡ some p
      → P p
  or_else-All none b {p} ha hb e = hb p e
  or_else-All (some q) b {p} ha hb e = ha p e

  configured_name-All :
      (provider : Bytes) (rules : List Rule) (m : Dict Bytes Bytes) {p : Bytes}
      → All (λ entry. P entry.1) m
      → configured_name provider rules m ≡ some p
      → P p
  unfolding configured_name
  configured_name-All provider [] m {p} h e = elim (Bool-cases (is_configured provider m)) [
    | inl listed ↦
        let e' : provider ≡ p = ground arith in rw (← e') (is_configured-All provider m h listed)
    | inr missing ↦ absurd (ground arith)
  ]
  configured_name-All provider (_ ∷ _) m h e = cc

  qualified_by-All :
      (provider : Bytes) (r : Routes) {p : Bytes}
      → All (λ entry. P entry.1) r.by_model
      → All (λ rule. P rule.provider) r.rules
      → qualified_by provider r ≡ some p
      → P p
  unfolding qualified_by
  qualified_by-All [] r h k e = cc
  qualified_by-All (c ∷ cs) r h k e =
      or_else-All (qualified_rule (c ∷ cs) r.rules) (configured_name (c ∷ cs) r.rules r.by_model)
        (λ q. qualified_rule-All (c ∷ cs) r.rules k)
        (λ q. configured_name-All (c ∷ cs) r.rules r.by_model h) e

  qualified-All :
      (r : Routes) (model : Bytes) {p : Bytes}
      → All (λ entry. P entry.1) r.by_model
      → All (λ rule. P rule.provider) r.rules
      → qualified r model ≡ some p
      → P p
  unfolding qualified
  qualified-All r model {p} h k e = elim (Option-cases (cut b'/' model)) [
    | inl missing ↦ absurd (ground arith)
    | inr (parts, found) ↦ qualified_by-All parts.0 r h k (ground arith)
  ]

  -- Every answer of `ProviderFor` is a name that the table holds: what is true of the provider of
  -- every alias and of every rule is true of the provider that is answered.
  pub provider_for-All :
      (r : Routes) (model : Bytes) {p : Bytes}
      → All (λ entry. P entry.1) r.by_model
      → All (λ rule. P rule.provider) r.rules
      → provider_for r model ≡ some p
      → P p
  unfolding provider_for
  provider_for-All r model h k e =
      or_else-All (exact r model) (or_else (qualified r model) (wildcard r.rules model))
        (λ q. exact-All r model h)
        (λ q.
          or_else-All (qualified r model) (wildcard r.rules model) (λ q'. qualified-All r model h k)
            (λ q'. wildcard-All r.rules model k))
        e

-- A rule of the form prefix and "*" whose prefix begins the model's name.
abbrev pub Matches : Rule → Bytes → Type 0
Matches rule model =
    (prefix : Bytes) × (rest : Bytes) × (rule.match ≡ prefix ++ codes "*")
    × (model ≡ prefix ++ rest)

rule_matches_iff :
    (rule : Rule) (model : Bytes) → (rule_matches rule model ≡ true) ↔ Matches rule model
unfolding rule_matches
rule_matches_iff rule model = (
  λ h. elim (Option-cases (strip_suffix? (codes "*") rule.match)) [
    | inl missing ↦ absurd (ground arith)
    | inr (prefix, found) ↦
        let (rest, e) = (has_prefix_iff prefix model).0 (ground arith) in
        (prefix, rest, sym (append-strip_suffix? (codes "*") rule.match found), sym e)
  ],
  λ (prefix, rest, e, e').
      rw (e, strip_suffix?-append (codes "*") prefix, rule_matches)
        ((has_prefix_iff prefix model).1 (rest, sym e')),
)

-- The answer that the first matching rule of a list gives, and no answer where no rule matches.
pub data FirstMatch (model : Bytes) : List Rule → Option Bytes → Type 0 where
  nobody : FirstMatch model [] none
  here :
      (rule : Rule) (rules : List Rule)
      → Matches rule model
      → FirstMatch model (rule ∷ rules) (some rule.provider)
  later :
      (rule : Rule) {rules : List Rule} {answer : Option Bytes}
      → ¬ Matches rule model
      → FirstMatch model rules answer
      → FirstMatch model (rule ∷ rules) answer

wildcard-FirstMatch :
    (rules : List Rule) (model : Bytes) → FirstMatch model rules (wildcard rules model)
unfolding wildcard
wildcard-FirstMatch [] model = nobody
wildcard-FirstMatch (rule ∷ rules) model = elim (Bool-cases (rule_matches rule model)) [
  | inl fits ↦ rw fits (here rule rules ((rule_matches_iff rule model).0 fits))
  | inr other ↦
      rw other
        (later rule (λ m. cc ((rule_matches_iff rule model).1 m)) (wildcard-FirstMatch rules model))
]

-- A model that is no exact alias and whose name has no slash goes to the provider of the first rule
-- that matches it, and to none exactly where no rule matches.
pub provider_for-FirstMatch :
    (r : Routes) (model : Bytes)
    → exact r model ≡ none
    → cut b'/' model ≡ none
    → FirstMatch model r.rules (provider_for r model)
unfolding provider_for qualified
provider_for-FirstMatch r model missing plain =
    rw (missing, plain, qualified) (wildcard-FirstMatch r.rules model)

-- An exact alias with a provider wins over every rule.
pub provider_for-exact :
    (r : Routes) (model p : Bytes)
    → lookup model r.by_model ≡ some p
    → p ≢ []
    → provider_for r model ≡ some p
unfolding provider_for exact
provider_for-exact r model [] found some_name = absurd (some_name refl)
provider_for-exact r model (c ∷ p) found some_name = rw (found, provider_for, exact)
