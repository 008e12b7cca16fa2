-- ===== src/Router/Costs/Priced.antt =====
-- What the estimated cost is, from the costs of the configuration.
use go_feather_route.Prelude.{
  ℕ, ◌≡◌, refl, sym, ap, subst, ◌∙◌, inl, inr, Bool, true, false, ◌||◌, Option, none, some, List,
  [], ◌∷◌, ◌++◌, ◌≢◌, codes, Bytes, All, str_eq, str_eq_iff, is_empty, Bool-cases,
}
use go_feather_route.Prelude.Int.{pos}
use go_feather_route.Prelude.Dict.{Dict}
use go_feather_route.Prelude.Float64.{Float64, finite, is_finite, is_below_zero, of_int}
use go_feather_route.Prelude.Float64.Laws.{
  count_plus, divide_plus, add_plus, add-is_finite, multiply-is_finite, divide-is_finite,
}
use go_feather_route.Config.{Config, ModelRoute, ProviderConfig, Overrides}
use go_feather_route.Config.Load.{
  Loaded, loaded, invalid, Invalid, ◌>>=◌, ◌>>◌, require, bad_log_level, nil_environment, Parsers,
  Environment,
}
use go_feather_route.Config.Validate.{
  check_route, check_model_list, check_rules, check_providers, check_limits, positive_duration,
  is_log_level, is_known, validate, load_with_overrides,
}
use go_feather_route.Config.Checked.{IsServed}
use go_feather_route.Provider.{Client, ClientApi, Response}
use go_feather_route.Usage.{Tokens, Event, Reporter, report}
use go_feather_route.Router.Costs.{model_cost, estimated_cost}
use go_feather_route.Router.Server.{Server, new_server}
use go_feather_route.Router.Served.Loading.{load_with_overrides-IsServed}
use go_feather_route.Router.Exchange.{Request, Env, usage_event}

estimated_plus :
    (a b : Float64) (tokens : Tokens) (i o : ℕ)
    → is_below_zero a ≡ false
    → is_below_zero b ≡ false
    → tokens.input ≡ pos i
    → tokens.output ≡ pos o
    → is_below_zero (estimated_cost (a, b) tokens) ≡ false
unfolding estimated_cost
estimated_plus a b tokens i o ha hb hi ho =
    rw (hi, ho)
      (add_plus _ _ (divide_plus _ 1000000 (count_plus i a ha))
        (divide_plus _ 1000000 (count_plus o b hb)))

-- An estimated cost is finite only where both costs are.
estimated-is_finite :
    (a b : Float64) (tokens : Tokens)
    → is_finite (estimated_cost (a, b) tokens) ≡ true
    → (is_finite a ≡ true) × (is_finite b ≡ true)
unfolding estimated_cost
estimated-is_finite a b tokens h =
    let (left, right) = add-is_finite _ _ h in
    (
      (multiply-is_finite (of_int tokens.input) a (divide-is_finite _ 1000000 left)).1,
      (multiply-is_finite (of_int tokens.output) b (divide-is_finite _ 1000000 right)).1,
    )

not_finite :
    (a b : Float64) (tokens : Tokens)
    → is_finite a ≡ false
    → is_finite (estimated_cost (a, b) tokens) ≡ false
not_finite a b tokens h = elim (Bool-cases (is_finite (estimated_cost (a, b) tokens))) [
  | inl fine ↦ absurd (cc (h, (estimated-is_finite a b tokens fine).0))
  | inr broken ↦ broken
]

model_cost_first :
    (route : ModelRoute) (before rest : List ModelRoute)
    → All (λ other. other.model_name ≢ route.model_name) before
    → model_cost (before ++ (route ∷ rest)) route.model_name ≡ (route.input_cost, route.output_cost)
unfolding model_cost
model_cost_first route [] rest h = rw ((str_eq_iff route.model_name route.model_name).1 refl) refl
model_cost_first route (other ∷ before) rest (ne, h) =
    elim (Bool-cases (str_eq other.model_name route.model_name)) [
      | inl same ↦ absurd (ne ((str_eq_iff other.model_name route.model_name).0 same))
      | inr differs ↦ rw differs (model_cost_first route before rest h)
    ]

model_cost_plus :
    (providers : Dict Bytes ProviderConfig) (l : List ModelRoute) (model : Bytes)
    → All (IsServed providers) l
    → (is_below_zero (model_cost l model).0 ≡ false)
      × (is_below_zero (model_cost l model).1 ≡ false)
unfolding model_cost
model_cost_plus providers [] model h = (refl, refl)
model_cost_plus providers (route ∷ l) model (served, h) =
    elim (Bool-cases (str_eq route.model_name model)) [
      | inl here ↦ rw here (served.input_plus, served.output_plus)
      | inr there ↦ rw there (model_cost_plus providers l model h)
    ]

-- With a configuration that was loaded, whatever the file, the environment and the command line
-- hold, the cost of a usage event whose token counts are not negative is not below zero.
pub usage_event_plus :
    (read : Bytes → Option Bytes) (unmarshal : Bytes → Config → Option Config) (parsers : Parsers)
    (path : Bytes) (environment : Environment) (overrides : Overrides) (c : Config)
    (api : Client → ClientApi) (env : Env) (request : Request) (name model : Bytes)
    (tokens : Tokens) (i o : ℕ) (r : Response) (index : ℕ)
    → load_with_overrides read unmarshal parsers path environment overrides ≡ loaded c
    → tokens.input ≡ pos i
    → tokens.output ≡ pos o
    → is_below_zero
        (usage_event (new_server api c) env request name model tokens r index).estimated_cost
      ≡ false
unfolding usage_event new_server
usage_event_plus read unmarshal parsers path environment overrides c api env request name model
      tokens i o r index h hi ho =
    let (a, b) =
      model_cost_plus c.providers c.model_list model
        (load_with_overrides-IsServed read unmarshal parsers path environment overrides c h) in
    estimated_plus _ _ tokens i o a b hi ho

report-unmarshalled :
    (marshal : Event → Option Bytes) (creates : Bytes → Bool) (reporter : Reporter) (e : Event)
    → marshal e ≡ none
    → report marshal creates reporter e ≡ none
unfolding report
report-unmarshalled marshal creates reporter e h =
    elim (Bool-cases
      (is_empty reporter.endpoint || is_empty reporter.api_key || is_empty e.request_id)) [
        | inl unset ↦ rw unset refl
        | inr set ↦ rw (set, h) refl
      ]

-- What is wrong with a configuration, if anything.
abbrev pub verdict : Loaded Config → Option Invalid
verdict (loaded c) = none
verdict (invalid e) = some e

verdict_after :
    {A : Type 0} (m : Loaded A) (f g : A → Loaded Config)
    → ((a : A) → verdict (f a) ≡ verdict (g a))
    → verdict (m >>= f) ≡ verdict (m >>= g)
verdict_after (loaded a) f g h = h a
verdict_after (invalid e) f g h = refl

check_model_list_same :
    (providers : Dict Bytes ProviderConfig) (before rest : List ModelRoute) (a b : ModelRoute)
    → check_route providers a ≡ check_route providers b
    → check_model_list providers (before ++ (a ∷ rest))
      ≡ check_model_list providers (before ++ (b ∷ rest))
unfolding check_model_list
check_model_list_same providers [] rest a b h = rw h refl
check_model_list_same providers (other ∷ before) rest a b h =
    ap (λ l. check_route providers other >> l) (check_model_list_same providers before rest a b h)

verdict-validate :
    (parsers : Parsers) (environment : Environment) (c : Config) (l l' : List ModelRoute)
    → check_model_list c.providers l ≡ check_model_list c.providers l'
    → verdict (validate parsers environment (record c { model_list = l }))
      ≡ verdict (validate parsers environment (record c { model_list = l' }))
unfolding validate
verdict-validate parsers environment c l l' h = verdict_after (check_limits c.server) _ _ (λ _.
    verdict_after
      (positive_duration parsers (codes "request_timeout") c.server.request_timeout_text) _ _
      (λ request.
        verdict_after
          (positive_duration parsers (codes "stream_idle_timeout")
            c.server.stream_idle_timeout_text)
          _ _
          (λ idle.
            verdict_after (positive_duration parsers (codes "usage.timeout") c.usage.timeout_text) _
              _
              (λ timeout.
                verdict_after (require (is_log_level c.server.log_level) bad_log_level) _ _ (λ _.
                  verdict_after (check_providers parsers c.allow_insecure_http c.providers) _ _
                    (λ _. rw h (
                      verdict_after (check_model_list c.providers l') _ _ (λ _.
                        verdict_after (check_rules c.providers c.route_rules) _ _ (λ _.
                          verdict_after (require (is_known environment) nil_environment) _ _
                            (λ _. refl))))))))))

module _ (marshal : Event → Option Bytes) (creates : Bytes → Bool)
    (refuses : (e : Event) → is_finite e.estimated_cost ≡ false → marshal e ≡ none) where
  -- Where json.Marshal refuses infinities and NaN, and the first entry of a model's name in the list of
  -- models, wherever it stands, has +Inf or NaN as its input cost: the validation of the configuration
  -- finds wrong what it would find if that cost were 0, so nothing if that is all right; and no usage event
  -- of the model is ever sent.
  pub validate-report :
      (parsers : Parsers) (environment : Environment) (c : Config) (server : Server)
      (route : ModelRoute) (before rest : List ModelRoute) (cost : Float64) (env : Env)
      (request : Request) (name : Bytes) (tokens : Tokens) (r : Response) (index : ℕ)
      → is_finite cost ≡ false
      → is_below_zero cost ≡ false
      → All (λ other. other.model_name ≢ route.model_name) before
      → server.config.model_list ≡ before ++ (record route { input_cost = cost } ∷ rest)
      → (verdict (
            validate parsers environment
              (record c { model_list = before ++ (record route { input_cost = cost } ∷ rest) }))
          ≡ verdict (
              validate parsers environment (record c {
                model_list = before ++ (record route { input_cost = finite false 0 } ∷ rest);
              })))
        × (report marshal creates server.usage_reporter
              (usage_event server env request name route.model_name tokens r index)
            ≡ none)
  unfolding check_route usage_event
  validate-report parsers environment c server route before rest cost env request name tokens r
        index h plus others l =
      let priced : model_cost server.config.model_list route.model_name
          ≡ (cost, route.output_cost) =
        ap (λ m. model_cost m route.model_name) l
        ∙ model_cost_first (record route { input_cost = cost }) before rest others in
      let broken =
        subst (λ p. is_finite (estimated_cost p tokens) ≡ false) (sym priced)
          (not_finite cost route.output_cost tokens h) in
      (
        verdict-validate parsers environment c _ _ (
            check_model_list_same c.providers before rest (record route { input_cost = cost })
              (record route { input_cost = finite false 0 }) (rw plus refl)),
        report-unmarshalled marshal creates server.usage_reporter _ (refuses _ broken),
      )
