-- ===== src/Router/Costs.antt =====
-- The estimated cost of a usage event: `modelCost` and the product in `reportUsage`.
pub mod Priced
use go_feather_route.Prelude.{List, [], ◌∷◌, Bytes, str_eq, if◌then◌else◌, false}
use go_feather_route.Prelude.Float64.{Float64, finite, of_int, multiply, divide, add}
use go_feather_route.Config.{ModelRoute}
use go_feather_route.Usage.{Tokens}

-- The costs of a million tokens of input and of output; 0 for an unlisted model.
unfoldable pub model_cost : List ModelRoute → Bytes → Float64 × Float64
model_cost [] model = (finite false 0, finite false 0)
model_cost (route ∷ routes) model =
    if str_eq route.model_name model
    then (route.input_cost, route.output_cost)
    else model_cost routes model

unfoldable pub estimated_cost : Float64 × Float64 → Tokens → Float64
estimated_cost (input_cost, output_cost) tokens =
    add (divide (multiply (of_int tokens.input) input_cost) 1000000)
      (divide (multiply (of_int tokens.output) output_cost) 1000000)
