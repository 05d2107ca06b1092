-- ===== src/Auth/Config.antt =====
-- The configuration: web/src/hooks/useConfig.ts and web/src/queries/config.ts.
use safebucket.Prelude.{ℕ, Bool, ◌&&◌, Option, none, some, String, leb, ltb, if◌then◌else◌}
use safebucket.Auth.Platform.{Config, production, Response}
use Prim.Native.String

abbrev pub default_config : Config
default_config = record { api_url = "http://localhost:8080"; environment = production }

-- `response.ok`
abbrev pub is_ok : ℕ → Bool
is_ok status = leb 200 status && ltb status 300

-- The query function of `configQueryOptions`; `read` is the unchecked cast of the JSON body,
-- `none` where `response.json()` rejects.
unfoldable pub load_config : (Response → Option Config) → Option Response → Config
load_config read none = default_config
load_config read (some response) =
    if is_ok response.status
    then elim (read response) [ none ↦ default_config | some config ↦ config ]
    else default_config

-- `getConfigSync`, over the cache of the query client
abbrev pub get_config_sync : Option Config → Config
get_config_sync none = default_config
get_config_sync (some config) = config

-- `getApiUrl`
abbrev pub get_api_url : Option Config → String
get_api_url cached = String.◌++◌ (get_config_sync cached).api_url "/api/v1"
