-- ===== src/Validation/Sources.antt =====
-- Values of APISIX_DATABASE that come from ConfigMaps and Secrets.
use text.Mathlib.Text.{starts_with}
use apisix_operator.Prelude.{
  String, ◌≡◌, ◌↔◌, ◌⊎◌, refl, sym, ap, fun_ext, ◌∙◌, Bool, true, false, ◌<>◌, is_some, none, some,
  List, [], ◌∷◌, ◌++◌, arith, string_eq,
}
use apisix_operator.Prelude.Dict
use apisix_operator.Errors.{Error, ok, err, wrapped}
use apisix_operator.Errors.Results.{◌>>=◌, >>=-assoc}
use apisix_operator.Api.Env.{EnvFromSource, EnvSource, DeploymentOptions}
use apisix_operator.Validation.{
  Cluster, Mode, env_var_apisix_database, index, trim_prefix, env_from_round, env_from_loop,
  from_env_ref, entry_in, wrap, get_db_mode_from_config_map_ref, check_db_mode,
  get_db_mode_from_env, get_db_mode_from_env_from, validate_deploy_options,
}
use apisix_operator.Validation.Literal.{IsSilent, env_loop-IsSilent}

module _ (c : Cluster) (namespace : String) where
  env_from_loop-append :
      (xs ys : List EnvFromSource) (mode : Mode)
      → env_from_loop c namespace (xs ++ ys) mode
        ≡ (env_from_loop c namespace xs mode >>= λ m. env_from_loop c namespace ys m)
  unfolding env_from_loop
  env_from_loop-append [] ys mode = refl
  env_from_loop-append (x ∷ xs) ys mode =
      ap (λ f. env_from_round c namespace x mode >>= f)
        (fun_ext (λ m. env_from_loop-append xs ys m))
      ∙ sym (>>=-assoc (env_from_round c namespace x mode) _ _)

  -- The mode that a source of a ConfigMap gives, whatever was found before it.
  env_from_round_map :
      (src : EnvFromSource) (ref : EnvSource) (m : List (String × String)) (mode : Mode)
      → starts_with env_var_apisix_database src.prefix ≡ true
      → src.config_map_ref ≡ some ref
      → src.secret_ref ≡ none
      → c.get_config_map namespace ref.name ≡ ok (some m)
      → (found : Bool) × (env_from_round c namespace src mode
          ≡ ok (index m (trim_prefix env_var_apisix_database src.prefix), found))
  unfolding env_from_round from_env_ref get_db_mode_from_config_map_ref wrap entry_in index
  env_from_round_map src ref m mode hp hm hs hg =
      (is_some (Dict.lookup (trim_prefix env_var_apisix_database src.prefix) m), ground arith)

  env_from_round_missing :
      (src : EnvFromSource) (ref : EnvSource) (mode : Mode) (e : Error)
      → starts_with env_var_apisix_database src.prefix ≡ true
      → src.config_map_ref ≡ some ref
      → c.get_config_map namespace ref.name ≡ err e
      → env_from_round c namespace src mode
        ≡ err (wrapped ("failed to get configMap " <> ref.name <> " in configMapRef: ") e)
  unfolding env_from_round from_env_ref get_db_mode_from_config_map_ref wrap
  env_from_round_missing src ref mode e hp hm hg = ground arith

  -- The sources up to one of them.
  env_from_upto :
      (before after : List EnvFromSource) (src : EnvFromSource) (mode : Mode)
      → get_db_mode_from_env_from c namespace before ≡ ok mode
      → get_db_mode_from_env_from c namespace (before ++ src ∷ after)
        ≡ (env_from_round c namespace src mode >>= λ m. env_from_loop c namespace after m)
  unfolding get_db_mode_from_env_from env_from_loop
  env_from_upto before after src mode first =
      env_from_loop-append before (src ∷ after) ("", false) ∙ rw first refl

  validate_silent :
      (opts : DeploymentOptions)
      → IsSilent opts.env
      → validate_deploy_options c namespace opts
        ≡ (get_db_mode_from_env_from c namespace opts.env_from >>= λ mode. check_db_mode c mode.0)
  unfolding validate_deploy_options get_db_mode_from_env
  validate_silent opts silent = rw (env_loop-IsSilent c namespace opts.env ("", false) silent)

  check_db_mode_lem : (v : String) → (check_db_mode c v ≡ ok tt) ↔ ((v ≡ "") ⊎ (v ≡ "off"))
  unfolding check_db_mode
  check_db_mode_lem v = ground arith

  -- If no variable of `Env` is APISIX_DATABASE, no reference of the earlier sources fails, and the
  -- last source of `EnvFrom` is an existing ConfigMap whose prefix fits, the options are valid
  -- exactly if that ConfigMap has no mode, an empty one or "off". The earlier sources do not count.
  pub validate_last_source :
      (opts : DeploymentOptions) (before : List EnvFromSource) (src : EnvFromSource)
      (ref : EnvSource) (m : List (String × String)) {mode : Mode}
      → IsSilent opts.env
      → opts.env_from ≡ before ++ src ∷ []
      → get_db_mode_from_env_from c namespace before ≡ ok mode
      → starts_with env_var_apisix_database src.prefix ≡ true
      → src.config_map_ref ≡ some ref
      → src.secret_ref ≡ none
      → c.get_config_map namespace ref.name ≡ ok (some m)
      → let value = index m (trim_prefix env_var_apisix_database src.prefix) in
        (validate_deploy_options c namespace opts ≡ ok tt) ↔ ((value ≡ "") ⊎ (value ≡ "off"))
  validate_last_source opts before src ref m {mode} silent e first hp hm hs hg =
      let value = index m (trim_prefix env_var_apisix_database src.prefix) in
      let round = env_from_round_map src ref m mode hp hm hs hg in
      rw (validate_silent opts silent, e, env_from_upto before [] src mode first, round.1)
        (unfold env_from_loop in check_db_mode_lem value)

  -- If no variable of `Env` is APISIX_DATABASE, and no source before it fails, a ConfigMap of
  -- `EnvFrom` whose prefix fits and that cannot be read fails the validation with an error that
  -- wraps the API server's.
  pub validate_missing_map :
      (opts : DeploymentOptions) (before after : List EnvFromSource) (src : EnvFromSource)
      (ref : EnvSource) {mode : Mode} {e : Error}
      → IsSilent opts.env
      → opts.env_from ≡ before ++ src ∷ after
      → get_db_mode_from_env_from c namespace before ≡ ok mode
      → starts_with env_var_apisix_database src.prefix ≡ true
      → src.config_map_ref ≡ some ref
      → c.get_config_map namespace ref.name ≡ err e
      → (text : String) × (validate_deploy_options c namespace opts ≡ err (wrapped text e))
  validate_missing_map opts before after src ref {mode} {e} silent eq first hp hm hg = (
    "failed to get configMap " <> ref.name <> " in configMapRef: ",
    rw (
      validate_silent opts silent,
      eq,
      env_from_upto before after src mode first,
      env_from_round_missing src ref mode e hp hm hg,
    ),
  )
