-- ===== src/Validation/Literal.antt =====
-- Values of APISIX_DATABASE that are written in `Env` itself.
use apisix_operator.Prelude.{
  some, ◌<>◌, ◌⊎◌, inl, inr, ==_refl, String, String-discrete, ◌≡◌, ◌≢◌, ◌↔◌, refl, sym, ap,
  fun_ext, ◌∙◌, true, false, none, List, [], ◌∷◌, ◌++◌, arith, string_eq,
}
use apisix_operator.Errors.{Error, Result, ok, err, wrapped}
use apisix_operator.Errors.Results.{◌>>=◌, >>=-assoc}
use apisix_operator.Api.Env.{EnvVar, EnvVarSource, KeySelector, DeploymentOptions}
use apisix_operator.Validation.{
  Cluster, Mode, Contents, from_key_ref, get_value_from_config_map_key_ref,
  get_value_from_secret_ref, wrap, env_var_apisix_database, env_round, env_loop, from_source,
  check_db_mode, get_db_mode_from_env, validate_deploy_options,
}

-- No variable of the list is APISIX_DATABASE.
abbrev pub IsSilent : List EnvVar → Type 0
IsSilent [] = Unit
IsSilent (v ∷ vs) = (v.name ≢ env_var_apisix_database) × IsSilent vs

abbrev pub blank : EnvVar
blank = record { name = env_var_apisix_database; value = ""; value_from = none }

module _ (c : Cluster) (namespace : String) where
  env_loop-append :
      (xs ys : List EnvVar) (mode : Mode)
      → env_loop c namespace (xs ++ ys) mode
        ≡ (env_loop c namespace xs mode >>= λ m. env_loop c namespace ys m)
  unfolding env_loop
  env_loop-append [] ys mode = refl
  env_loop-append (x ∷ xs) ys mode =
      ap (λ f. env_round c namespace x mode >>= f) (fun_ext (λ m. env_loop-append xs ys m))
      ∙ sym (>>=-assoc (env_round c namespace x mode) _ _)

  pub env_loop-IsSilent :
      (xs : List EnvVar) (mode : Mode) → IsSilent xs → env_loop c namespace xs mode ≡ ok mode
  unfolding env_loop env_round
  env_loop-IsSilent [] mode s = refl
  env_loop-IsSilent (x ∷ xs) mode (n, s) = ground (arith, env_loop-IsSilent xs mode s)

  env_round-literal :
      (v : EnvVar) (mode : Mode)
      → v.name ≡ env_var_apisix_database
      → v.value ≢ ""
      → env_round c namespace v mode ≡ ok (v.value, true)
  unfolding env_round
  env_round-literal v mode hn hv = ground arith

  env_round-source :
      (v : EnvVar) (src : EnvVarSource) (mode : Mode)
      → v.name ≡ env_var_apisix_database
      → v.value ≡ ""
      → v.value_from ≡ some src
      → env_round c namespace v mode ≡ from_source c namespace (some src) mode
  unfolding env_round
  env_round-source v src mode hn hv hs =
      rw (hn, hv, ==_refl env_var_apisix_database, ==_refl {A = String} "", hs) refl

  check_db_mode_lem : (v : String) → v ≢ "" → (check_db_mode c v ≡ ok tt) ↔ (v ≡ "off")
  unfolding check_db_mode
  check_db_mode_lem v h = ground arith

  last_literal :
      (before after : List EnvVar) (v : EnvVar) (mode : Mode)
      → get_db_mode_from_env c namespace before ≡ ok mode
      → v.name ≡ env_var_apisix_database
      → v.value ≢ ""
      → IsSilent after
      → get_db_mode_from_env c namespace (before ++ v ∷ after) ≡ ok (v.value, true)
  unfolding get_db_mode_from_env
  last_literal before after v mode first hn hv s =
      env_loop-append before (v ∷ after) ("", false)
      ∙ rw first (
          rw (env_loop, env_round-literal v mode hn hv) (env_loop-IsSilent after (v.value, true) s))

  -- If the last APISIX_DATABASE of `Env` has a literal value, and no reference before it fails,
  -- the options are valid exactly if that value is "off", whatever `EnvFrom` holds.
  pub validate_last_literal :
      (opts : DeploymentOptions) (before after : List EnvVar) (v : EnvVar) {mode : Mode}
      → opts.env ≡ before ++ v ∷ after
      → get_db_mode_from_env c namespace before ≡ ok mode
      → v.name ≡ env_var_apisix_database
      → v.value ≢ ""
      → IsSilent after
      → (validate_deploy_options c namespace opts ≡ ok tt) ↔ (v.value ≡ "off")
  validate_last_literal opts before after v {mode} e first hn hv s =
      let found = last_literal before after v mode first hn hv s in
      unfold validate_deploy_options in rw (e, found) (check_db_mode_lem v.value hv)

  -- There is no reference to a ConfigMap, or its ConfigMap can be fetched.
  abbrev pub HasConfigMap : EnvVarSource → Type 0
  HasConfigMap src =
      (src.config_map_key_ref ≡ none)
      ⊎ ((m : KeySelector) × (found : Contents) × (src.config_map_key_ref ≡ some m)
          × (c.get_config_map namespace m.name ≡ ok found))

  -- The source of a variable has a reference whose object cannot be fetched: the one to a
  -- ConfigMap, which is read first, or else the one to a Secret. The error is the one that the
  -- operator makes of the server's.
  abbrev pub CannotFetch : EnvVarSource → Error → Type 0
  CannotFetch src error =
      ((ref : KeySelector) × (e : Error) × (src.config_map_key_ref ≡ some ref)
        × (c.get_config_map namespace ref.name ≡ err e)
        × (error ≡ wrapped ("failed to get configMap " <> ref.name <> " in configMapKeyRef: ") e))
      ⊎ ((ref : KeySelector) × (e : Error) × HasConfigMap src
          × (src.secret_key_ref ≡ some ref)
          × (c.get_secret namespace ref.name ≡ err e)
          × (error ≡ wrapped ("failed to get secret " <> ref.name <> " in secretRef: ") e))

  from_source-CannotFetch :
      (src : EnvVarSource) (mode : Mode) {e : Error}
      → CannotFetch src e
      → from_source c namespace (some src) mode ≡ err e
  unfolding from_source from_key_ref get_value_from_config_map_key_ref get_value_from_secret_ref
      wrap
  from_source-CannotFetch src mode (inl (ref, e, has, failed, same)) = rw (has, failed, same) refl
  from_source-CannotFetch src mode (inr (ref, e, inl absent, has, failed, same)) =
      rw (absent, has, failed, same) refl
  from_source-CannotFetch src mode (inr (ref, e, inr (m, found, present, got), has, failed, same)) =
      rw (present, got, has, failed, same) refl

  -- If a variable APISIX_DATABASE of `Env` without a literal value refers to a ConfigMap or a
  -- Secret that the API server does not give, and no reference before it fails, the validation
  -- fails with the server's error, wrapped in a text that names the object, whatever stands after
  -- the variable and in `EnvFrom`.
  pub validate-CannotFetch :
      (opts : DeploymentOptions) (before after : List EnvVar) (v : EnvVar) (src : EnvVarSource)
      {mode : Mode} {e : Error}
      → opts.env ≡ before ++ v ∷ after
      → get_db_mode_from_env c namespace before ≡ ok mode
      → v.name ≡ env_var_apisix_database
      → v.value ≡ ""
      → v.value_from ≡ some src
      → CannotFetch src e
      → validate_deploy_options c namespace opts ≡ err e
  validate-CannotFetch opts before after v src {mode} {e} eq first hn hv hs failing =
      let round : env_round c namespace v mode ≡ err e =
        env_round-source v src mode hn hv hs ∙ from_source-CannotFetch src mode failing in
      let failed : get_db_mode_from_env c namespace (before ++ v ∷ after) ≡ err e =
        unfold get_db_mode_from_env in
        (env_loop-append before (v ∷ after) ("", false) ∙ rw first (rw (env_loop, round) refl)) in
      unfold validate_deploy_options in rw (eq, failed) refl

  blank_end : (r : Result Mode) → (r >>= λ m. env_loop c namespace (blank ∷ []) m) ≡ r
  unfolding env_loop env_round String-discrete from_source
  blank_end (ok m) = refl
  blank_end (err e) = refl

  -- A last APISIX_DATABASE without a value and without a source is not seen: the validation
  -- answers as if it were absent.
  pub validate_blank :
      (opts : DeploymentOptions)
      → validate_deploy_options c namespace (record opts { env = opts.env ++ blank ∷ [] })
        ≡ validate_deploy_options c namespace opts
  validate_blank opts =
      let same : get_db_mode_from_env c namespace (opts.env ++ blank ∷ [])
          ≡ get_db_mode_from_env c namespace opts.env =
        unfold get_db_mode_from_env in
        (env_loop-append opts.env (blank ∷ []) ("", false)
          ∙ blank_end (env_loop c namespace opts.env ("", false))) in
      unfold validate_deploy_options in rw same
