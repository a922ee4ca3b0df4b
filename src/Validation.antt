-- ===== src/Validation.antt =====
-- internal/validation/dataplane/validation.go. A validation sees one content of the API server:
-- `client.Get` of a ConfigMap and of a Secret are the parameters `get_config_map` and `get_secret`,
-- from a namespace and a name. The decoders of `encoding/base64` are parameters too, as is the text
-- that `%s` prints for a `SecretEnvSource`. A byte slice is a text.
pub mod Literal
pub mod Sources
use text.Mathlib.Text.{starts_with}
use Prim.Native.String.{len, slice}
use apisix_operator.Prelude.{
  String, Bool, true, false, ◌&&◌, Option, none, some, List, [], ◌∷◌, if◌then◌else◌, ◌==◌, ◌!=◌,
  ◌<>◌, string_eq,
}
use apisix_operator.Prelude.Dict
use apisix_operator.Errors.{Result, ok, err, wrapped, message}
use apisix_operator.Errors.Results.{◌>>=◌}
use apisix_operator.Api.Env.{
  EnvVar, EnvVarSource, EnvFromSource, EnvSource, KeySelector, DeploymentOptions,
}
use apisix_operator.Api.Types.{DataPlane}

abbrev pub env_var_apisix_database : String
env_var_apisix_database = "APISIX_DATABASE"

-- `Data` of a ConfigMap or a Secret, which may be nil.
abbrev pub Contents : Type 0
Contents = Option (List (String × String))

-- The mode that was found last, and whether one was found.
abbrev pub Mode : Type 0
Mode = String × Bool

-- `data[key]`, "" where the key is missing.
unfoldable pub index : List (String × String) → String → String
unfolding Dict.lookup
index data_ key = elim (Dict.lookup key data_) [ none ↦ "" | some v ↦ v ]

unfoldable pub trim_prefix : String → String → String
trim_prefix s prefix = if starts_with s prefix then slice s (len prefix) (len s) else s

-- What the validator takes from outside.
pub record Cluster : Type 0 where
  pub get_config_map : String → String → Result Contents
  pub get_secret : String → String → Result Contents
  pub decode_std : String → Result String
  pub decode_raw_std : String → Result String
  pub print_secret_ref : EnvSource → String

module _ (c : Cluster) where
  open c use {get_config_map, get_secret, decode_std, decode_raw_std, print_secret_ref}

  wrap {ℓ} : {A : Type ℓ} → String → Result A → Result A
  wrap text (ok a) = ok a
  wrap text (err e) = err (wrapped text e)

  -- A value that does not decode counts as not found.
  if_decoded : Result String → Mode
  if_decoded (ok decoded) = (decoded, true)
  if_decoded (err e) = ("", false)

  value_in : Contents → String → Mode
  unfolding index
  value_in none key = ("", false)
  value_in (some m) key = if index m key != "" then (index m key, true) else ("", false)

  secret_value_in : Contents → String → Mode
  unfolding index if_decoded
  secret_value_in none key = ("", false)
  secret_value_in (some m) key =
      if index m key != "" then if_decoded (decode_std (index m key)) else ("", false)

  unfoldable pub get_value_from_config_map_key_ref : String → KeySelector → Result Mode
  unfolding wrap value_in
  get_value_from_config_map_key_ref namespace ref = do
    cm ←
        wrap ("failed to get configMap " <> ref.name <> " in configMapKeyRef: ")
          (get_config_map namespace ref.name)
    ok (value_in cm ref.key)

  unfoldable pub get_value_from_secret_ref : String → KeySelector → Result Mode
  unfolding wrap secret_value_in
  get_value_from_secret_ref namespace ref = do
    secret ←
        wrap ("failed to get secret " <> ref.name <> " in secretRef: ")
          (get_secret namespace ref.name)
    ok (secret_value_in secret ref.key)

  from_key_ref : (KeySelector → Result Mode) → Option KeySelector → Mode → Result Mode
  from_key_ref get none mode = ok mode
  from_key_ref get (some ref) mode = get ref

  from_source : String → Option EnvVarSource → Mode → Result Mode
  unfolding from_key_ref get_value_from_config_map_key_ref get_value_from_secret_ref
  from_source namespace none mode = ok mode
  from_source namespace (some src) mode = do
    mode' ← from_key_ref (get_value_from_config_map_key_ref namespace) src.config_map_key_ref mode
    from_key_ref (get_value_from_secret_ref namespace) src.secret_key_ref mode'

  -- One round of the loop of `getDBModeFromEnv`.
  unfoldable pub env_round : String → EnvVar → Mode → Result Mode
  unfolding from_source
  env_round namespace v mode =
      if v.name == env_var_apisix_database
      then (if v.value != "" then ok (v.value, true) else from_source namespace v.value_from mode)
      else ok mode

  unfoldable pub env_loop : String → List EnvVar → Mode → Result Mode
  unfolding env_round
  env_loop namespace [] mode = ok mode
  env_loop namespace (v ∷ vs) mode = do
    mode' ← env_round namespace v mode
    env_loop namespace vs mode'

  unfoldable pub get_db_mode_from_env : String → List EnvVar → Result Mode
  unfolding env_loop
  get_db_mode_from_env namespace envs = env_loop namespace envs ("", false)

  entry_in : Contents → String → Mode
  unfolding Dict.lookup
  entry_in none suffix = ("", false)
  entry_in (some m) suffix = elim (Dict.lookup suffix m) [ none ↦ ("", false) | some v ↦ (v, true) ]

  secret_entry_in : Contents → String → Mode
  unfolding Dict.lookup if_decoded
  secret_entry_in none suffix = ("", false)
  secret_entry_in (some m) suffix = elim (Dict.lookup suffix m) [
    | none ↦ ("", false)
    | some v ↦ if_decoded (decode_raw_std v)
  ]

  unfoldable pub get_db_mode_from_config_map_ref : String → String → EnvSource → Result Mode
  unfolding wrap entry_in trim_prefix
  get_db_mode_from_config_map_ref namespace prefix ref = do
    cm ←
        wrap ("failed to get configMap " <> ref.name <> " in configMapRef: ")
          (get_config_map namespace ref.name)
    ok (entry_in cm (trim_prefix env_var_apisix_database prefix))

  unfoldable pub get_db_mode_from_secret_ref : String → String → EnvSource → Result Mode
  unfolding wrap secret_entry_in trim_prefix
  get_db_mode_from_secret_ref namespace prefix ref = do
    secret ←
        wrap ("failed to get secret " <> print_secret_ref ref <> " in secretRef: ")
          (get_secret namespace ref.name)
    ok (secret_entry_in secret (trim_prefix env_var_apisix_database prefix))

  from_env_ref : (EnvSource → Result Mode) → Option EnvSource → Mode → Result Mode
  from_env_ref get none mode = ok mode
  from_env_ref get (some ref) mode = get ref

  -- One round of the loop of `getDBModeFromEnvFrom`.
  env_from_round : String → EnvFromSource → Mode → Result Mode
  unfolding from_env_ref get_db_mode_from_config_map_ref get_db_mode_from_secret_ref
  env_from_round namespace src mode =
      if starts_with env_var_apisix_database src.prefix
      then (do
        mode' ←
            from_env_ref (get_db_mode_from_config_map_ref namespace src.prefix) src.config_map_ref
              mode
        from_env_ref (get_db_mode_from_secret_ref namespace src.prefix) src.secret_ref mode')
      else ok mode

  unfoldable pub env_from_loop : String → List EnvFromSource → Mode → Result Mode
  unfolding env_from_round
  env_from_loop namespace [] mode = ok mode
  env_from_loop namespace (src ∷ srcs) mode = do
    mode' ← env_from_round namespace src mode
    env_from_loop namespace srcs mode'

  unfoldable pub get_db_mode_from_env_from : String → List EnvFromSource → Result Mode
  unfolding env_from_loop
  get_db_mode_from_env_from namespace env_froms = env_from_loop namespace env_froms ("", false)

  -- The test at the end of `ValidateDeployOptions`.
  check_db_mode : String → Result (Unit {0})
  check_db_mode db_mode =
      if db_mode != "" && db_mode != "off"
      then err (message ("database backend " <> db_mode <> " of dataplane not supported currently"))
      else ok tt

  unfoldable pub validate_deploy_options : String → DeploymentOptions → Result (Unit {0})
  unfolding get_db_mode_from_env get_db_mode_from_env_from check_db_mode
  validate_deploy_options namespace opts = do
    found ← get_db_mode_from_env namespace opts.env
    mode ← (if found.1 then ok found else get_db_mode_from_env_from namespace opts.env_from)
    check_db_mode mode.0

  unfoldable pub validate : DataPlane → Result (Unit {0})
  unfolding validate_deploy_options
  validate dataplane =
      validate_deploy_options dataplane.meta.namespace dataplane.spec.deployment_options
