-- ===== src/Config/Process.antt =====
-- internal/config/config.go: `Load` and `LoadFromEnvironmentWith`.
use go_feather_route.Prelude.{
  Bool, Option, none, some, List, [], ◌∷◌, Bytes, codes, is_empty, cut, if◌then◌else◌,
}
use go_feather_route.Prelude.Dict.{Dict, insert, bytes_eq}
use go_feather_route.Config.{Config, Overrides}
use go_feather_route.Config.Load.{Loaded, Parsers, Environment, variable}
use go_feather_route.Config.Validate.{load_with_overrides}

-- The variables among the items of os.Environ(); an item without "=" is dropped.
unfoldable pub add_item : Option (Bytes × Bytes) → Dict Bytes Bytes → Dict Bytes Bytes
add_item none env = env
add_item (some (key, value)) env = insert key value env

unfoldable pub read_items : List Bytes → Dict Bytes Bytes → Dict Bytes Bytes
unfolding add_item
read_items [] env = env
read_items (item ∷ items) env = read_items items (add_item (cut b'=' item) env)

abbrev pub candidates : List Bytes
candidates = codes "config/defaults.yaml" ∷ codes "/etc/go-feather-route/defaults.yaml" ∷ []

-- `exists` tells whether os.Stat finds a file.
unfoldable pub first_existing : (Bytes → Bool) → List Bytes → Bytes
first_existing exists [] = []
first_existing exists (path ∷ paths) = if exists path then path else first_existing exists paths

unfoldable pub config_path : (Bytes → Bool) → Environment → Overrides → Bytes
unfolding first_existing
config_path exists env overrides =
    if is_empty overrides.config_file
    then (let path = variable env (codes "GOFEATHERROUTE_CONFIG_FILE") in
        if is_empty path then first_existing exists candidates else path)
    else overrides.config_file

module _ (read : Bytes → Option Bytes) (unmarshal : Bytes → Config → Option Config)
    (exists : Bytes → Bool) (parsers : Parsers) where
  unfoldable pub load_from_environment_with : List Bytes → Overrides → Loaded Config
  unfolding read_items config_path
  load_from_environment_with items overrides =
      let env : Environment = some (read_items items []) in
      load_with_overrides read unmarshal parsers (config_path exists env overrides) env overrides

  unfoldable pub load_from_environment : List Bytes → Loaded Config
  load_from_environment items =
      load_from_environment_with items (record { config_file = []; address = [] })

  unfoldable pub load : Bytes → Environment → Loaded Config
  load path env =
      load_with_overrides read unmarshal parsers path env
        (record { config_file = []; address = [] })
