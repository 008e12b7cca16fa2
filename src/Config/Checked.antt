-- ===== src/Config/Checked.antt =====
-- What a configuration has that `validate` accepts, and what `applyEnvironment` leaves as it is.
use go_feather_route.Prelude.{
  ◌≡◌, refl, sym, ap, inl, inr, Bool, true, false, not, ◌||◌, Option, none, some, List, [], ◌∷◌,
  Bytes, codes, All, is_empty, Bool-cases, Option-cases, arith,
}
use go_feather_route.Prelude.Int.{ℤ, not_positive}
use go_feather_route.Prelude.Float64.{is_below_zero}
use go_feather_route.Prelude.Dict.{Dict, lookup, bytes_eq}
use go_feather_route.Config.{ModelRoute, ServerConfig, ProviderConfig, Config}
use go_feather_route.Config.Load.{
  Invalid, empty_address, not_positive_limit, incomplete_route, unknown_provider, negative_cost,
  bad_log_level, nil_environment, Loaded, loaded, invalid, ◌>>=◌, ◌>>◌, require, Parsers,
  Environment, server_environment, apply_environment,
}
use go_feather_route.Config.Validate.{
  is_known, is_log_level, check_providers, check_rules, positive_duration, check_limits,
  check_fallbacks, check_route, check_model_list, validate, with_durations,
}

pub >>=-loaded {ℓ κ} :
    {A : Type ℓ} {B : Type κ} (m : Loaded A) (f : A → Loaded B) {b : B}
    → (m >>= f) ≡ loaded b
    → (a : A) × (m ≡ loaded a) × (f a ≡ loaded b)
>>=-loaded (loaded a) f h = (a, refl, h)
>>=-loaded (invalid e) f h = cc

-- A requirement that was met.
met {ℓ} :
    {B : Type ℓ} (b : Bool) (e : Invalid) (n : Loaded B) {r : B}
    → (require b e >> n) ≡ loaded r
    → (b ≡ true) × (n ≡ loaded r)
met true e n h = (refl, h)
met false e n h = cc

required : (b : Bool) (e : Invalid) → require b e ≡ loaded tt → b ≡ true
required true e h = refl
required false e h = cc

pub loaded-injective {ℓ} : {A : Type ℓ} {a b : A} → loaded a ≡ loaded b → a ≡ b
loaded-injective p = cc

-- An entry of the model list whose names are given, whose provider is configured, and whose costs are
-- not below zero.
pub record IsServed (providers : Dict Bytes ProviderConfig) (route : ModelRoute) : Type 0 where
  pub complete : (is_empty route.model_name || is_empty route.provider) ≡ false
  pub provider : ProviderConfig
  pub known : lookup route.provider providers ≡ some provider
  pub input_plus : is_below_zero route.input_cost ≡ false
  pub output_plus : is_below_zero route.output_cost ≡ false

not-true : (b : Bool) → not b ≡ true → b ≡ false
not-true b h = ground arith

known-some {ℓ} : {A : Type ℓ} (o : Option A) → is_known o ≡ true → (a : A) × (o ≡ some a)
known-some none h = cc
known-some (some a) h = (a, refl)

check_route-IsServed :
    (providers : Dict Bytes ProviderConfig) (route : ModelRoute)
    → check_route providers route ≡ loaded tt
    → IsServed providers route
unfolding check_route
check_route-IsServed providers route h =
    let (named, more) =
      met (not (is_empty route.model_name || is_empty route.provider)) incomplete_route _ h in
    let (known, more') =
      met (is_known (lookup route.provider providers))
        (unknown_provider route.model_name route.provider) _ more in
    let (provider, found) = known-some (lookup route.provider providers) known in
    let (_, _, last) =
      >>=-loaded (check_fallbacks providers route.model_name route.fallbacks) _ more' in
    let costs = required _ (negative_cost route.model_name) last in
    record {
      complete = not-true _ named;
      provider = provider;
      known = found;
      input_plus = ground arith;
      output_plus = ground arith;
    }

pub check_model_list-IsServed :
    (providers : Dict Bytes ProviderConfig) (l : List ModelRoute)
    → check_model_list providers l ≡ loaded tt
    → All (IsServed providers) l
unfolding check_model_list
check_model_list-IsServed providers [] h = tt
check_model_list-IsServed providers (route ∷ l) h =
    let (_, one, rest) = >>=-loaded (check_route providers route) _ h in
    (check_route-IsServed providers route one, check_model_list-IsServed providers l rest)

-- The limits are positive.
pub record HasLimits (s : ServerConfig) : Type 0 where
  pub body : not_positive s.max_body_bytes ≡ false
  pub response : not_positive s.max_response_bytes ≡ false
  pub requests : not_positive s.max_concurrent_requests ≡ false
  pub embeddings : not_positive s.max_concurrent_embeddings ≡ false
  pub streams : not_positive s.max_concurrent_streams ≡ false

check_limits-HasLimits : (s : ServerConfig) → check_limits s ≡ loaded tt → HasLimits s
unfolding check_limits
check_limits-HasLimits s h =
    let (_, h1) = met (not (is_empty s.address)) empty_address _ h in
    let (body, h2) =
      met (not (not_positive s.max_body_bytes)) (not_positive_limit (codes "max_body_bytes")) _
        h1 in
    let (response, h3) =
      met (not (not_positive s.max_response_bytes))
        (not_positive_limit (codes "max_response_bytes")) _ h2 in
    let (requests, h4) =
      met (not (not_positive s.max_concurrent_requests))
        (not_positive_limit (codes "max_concurrent_requests")) _ h3 in
    let (embeddings, h5) =
      met (not (not_positive s.max_concurrent_embeddings))
        (not_positive_limit (codes "max_concurrent_embeddings")) _ h4 in
    let streams =
      required (not (not_positive s.max_concurrent_streams))
        (not_positive_limit (codes "max_concurrent_streams")) h5 in
    record {
      body = not-true _ body;
      response = not-true _ response;
      requests = not-true _ requests;
      embeddings = not-true _ embeddings;
      streams = not-true _ streams;
    }

positive_duration_bound :
    (parsers : Parsers) (field text : Bytes) (d : ℤ)
    → positive_duration parsers field text ≡ loaded d
    → not_positive d ≡ false
unfolding positive_duration
positive_duration_bound parsers field text d h = elim (Option-cases (parsers.parse_duration text)) [
  | inl missing ↦ absurd (ground arith)
  | inr (e, found) ↦ elim (Bool-cases (not_positive e)) [
    | inl small ↦ absurd (ground arith)
    | inr fine ↦ let same : e ≡ d = ground arith in rw (← same) fine
  ]
]

-- A configuration that `validate` accepts, and what it gives.
pub record IsValid (c c' : Config) : Type 0 where
  pub request : ℤ
  pub idle : ℤ
  pub timeout : ℤ
  pub same : c' ≡ with_durations request idle timeout c
  pub idle_positive : not_positive idle ≡ false
  pub limits : HasLimits c.server
  pub served : All (IsServed c.providers) c.model_list

pub validate-IsValid :
    (parsers : Parsers) (env : Environment) (c c' : Config)
    → validate parsers env c ≡ loaded c'
    → IsValid c c'
unfolding validate
validate-IsValid parsers env c c' h =
    let (_, limits, h1) = >>=-loaded (check_limits c.server) _ h in
    let (request, _, h2) = >>=-loaded (positive_duration parsers _ _) _ h1 in
    let (idle, timed, h3) = >>=-loaded (positive_duration parsers _ _) _ h2 in
    let (timeout, _, h4) = >>=-loaded (positive_duration parsers _ _) _ h3 in
    let (_, h5) = met (is_log_level c.server.log_level) bad_log_level _ h4 in
    let (_, _, h6) = >>=-loaded (check_providers parsers c.allow_insecure_http c.providers) _ h5 in
    let (_, models, h7) = >>=-loaded (check_model_list c.providers c.model_list) _ h6 in
    let (_, _, h8) = >>=-loaded (check_rules c.providers c.route_rules) _ h7 in
    let (_, h9) = met (is_known env) nil_environment _ h8 in
    record {
      request = request;
      idle = idle;
      timeout = timeout;
      same = sym (loaded-injective h9);
      idle_positive = positive_duration_bound parsers _ _ idle timed;
      limits = check_limits-HasLimits c.server limits;
      served = check_model_list-IsServed c.providers c.model_list models;
    }

pub apply_environment_same :
    (env : Environment) (c c' : Config)
    → apply_environment env c ≡ loaded c'
    → (c'.routes ≡ c.routes) × (c'.model_list ≡ c.model_list)
unfolding apply_environment
apply_environment_same env c c' h =
    let (server, _, made) = >>=-loaded (server_environment env c.server) _ h in
    (
      ap (λ x. x.routes) (sym (loaded-injective made)),
      ap (λ x. x.model_list) (sym (loaded-injective made)),
    )
