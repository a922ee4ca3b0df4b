-- ===== src/Env/Steps.antt =====
-- The steps of the defaults as data, and why a second run of them changes nothing.
use apisix_operator.Prelude.{
  String, ◌≡◌, refl, ◌∙◌, ap, Bool, true, false, Option, none, some, List, [], ◌∷◌, ◌++◌, find,
  keep, arith, if◌then◌else◌, ◌==◌, ◌!=◌, ==_refl, string_eq,
}
use apisix_operator.Api.Env.{EnvVar, EnvVarSource, env_var_source_eq}
use apisix_operator.Env.{
  value_of, source_of, env_value_by_name, env_var_source_by_name, set_source, set_value, update_env,
  update_env_source,
}

pub data Action : Type 0 where
  source : Option EnvVarSource → Action
  value : String → Action

-- A step: whether it is active, its variable, and what it does. An inactive one does nothing.
pub data Step : Type 0 where
  step : Bool → String → Action → Step

abbrev pub entry : String → Action → EnvVar
entry n (source s) = record { name = n; value = ""; value_from = s }
entry n (value v) = record { name = n; value = v; value_from = none }

-- Dropping a variable and adding it at the end.
unfoldable pub put : EnvVar → List EnvVar → List EnvVar
unfolding keep
put v env = keep (λ w. w.name != v.name) env ++ (v ∷ [])

pub find-put :
    (n : String) (v : EnvVar) (env : List EnvVar)
    → find (λ w. w.name == n) (keep (λ w. w.name != v.name) env ++ v ∷ [])
      ≡ (if v.name == n then some v else find (λ w. w.name == n) env)
unfolding find keep
find-put n v [] = ground arith
find-put n v (w ∷ env) = ground (arith, find-put n v env)

find-put_ne :
    (n : String) (v : EnvVar) (env : List EnvVar)
    → (v.name == n) ≡ false
    → find (λ w. w.name == n) (put v env) ≡ find (λ w. w.name == n) env
unfolding put
find-put_ne n v env h = find-put n v env ∙ rw h

unfoldable pub run_check : Step → Bool × List EnvVar → Bool × List EnvVar
run_check (step active n (source x)) s = if active then set_source n x s else s
run_check (step active n (value v)) s = if active then set_value n v s else s

unfoldable pub run_checks : List Step → Bool × List EnvVar → Bool × List EnvVar
unfolding run_check
run_checks [] s = s
run_checks (p ∷ ps) s = run_checks ps (run_check p s)

unfoldable pub run_write : Step → List EnvVar → List EnvVar
unfolding put
run_write (step active n a) env = if active then put (entry n a) env else env

unfoldable pub run_writes : List Step → List EnvVar → List EnvVar
unfolding run_write
run_writes [] env = env
run_writes (w ∷ ws) env = run_writes ws (run_write w env)

-- The variable has what an active step gives it.
abbrev pub IsSatisfied : Step → List EnvVar → Type 0
IsSatisfied (step active n (source x)) env = active ≡ true → env_var_source_by_name env n ≡ x
IsSatisfied (step active n (value v)) env = active ≡ true → env_value_by_name env n ≡ v

abbrev pub AllSatisfied : List Step → List EnvVar → Type 0
AllSatisfied [] env = Unit
AllSatisfied (p ∷ ps) env = IsSatisfied p env × AllSatisfied ps env

abbrev name_of : Step → String
name_of (step active n a) = n

-- No step of the list has the name.
abbrev pub IsAbsent : String → List Step → Type 0
IsAbsent n [] = Unit
IsAbsent n (p ∷ ps) = ((name_of p == n) ≡ false) × IsAbsent n ps

abbrev pub AreDistinct : List Step → Type 0
AreDistinct [] = Unit
AreDistinct (p ∷ ps) = IsAbsent (name_of p) ps × AreDistinct ps

run_check-IsSatisfied : (p : Step) (s : Bool × List EnvVar) → IsSatisfied p (run_check p s).1
unfolding run_check set_source set_value update_env update_env_source env_value_by_name
    env_var_source_by_name put
run_check-IsSatisfied (step active n (source x)) (changed, env) =
    λ h. ground (arith, find-put n (entry n (source x)) env, ==_refl n)
run_check-IsSatisfied (step active n (value v)) (changed, env) =
    λ h. ground (arith, find-put n (entry n (value v)) env, ==_refl n)

run_check-satisfied : (p : Step) (s : Bool × List EnvVar) → IsSatisfied p s.1 → run_check p s ≡ s
unfolding run_check set_source set_value
run_check-satisfied (step active n (source x)) (changed, env) h = ground arith
run_check-satisfied (step active n (value v)) (changed, env) h = ground arith

find-run_check :
    (n : String) (p : Step) (s : Bool × List EnvVar)
    → (name_of p == n) ≡ false
    → find (λ w. w.name == n) (run_check p s).1 ≡ find (λ w. w.name == n) s.1
unfolding run_check set_source set_value update_env update_env_source put
find-run_check n (step active m (source x)) (changed, env) h =
    ground (arith, find-put_ne n (entry m (source x)) env h)
find-run_check n (step active m (value x)) (changed, env) h =
    ground (arith, find-put_ne n (entry m (value x)) env h)

find-run_checks :
    (n : String) (ps : List Step) (s : Bool × List EnvVar)
    → IsAbsent n ps
    → find (λ w. w.name == n) (run_checks ps s).1 ≡ find (λ w. w.name == n) s.1
unfolding run_checks
find-run_checks n [] s a = refl
find-run_checks n (p ∷ ps) s (a, b) =
    find-run_checks n ps (run_check p s) b ∙ find-run_check n p s a

find-run_writes :
    (n : String) (ws : List Step) (env : List EnvVar)
    → IsAbsent n ws
    → find (λ w. w.name == n) (run_writes ws env) ≡ find (λ w. w.name == n) env
unfolding run_writes
find-run_writes n [] env a = refl
find-run_writes n (step true m (source x) ∷ ws) env (a, b) =
    find-run_writes n ws (run_write (step true m (source x)) env) b
    ∙ find-put_ne n (entry m (source x)) env a
find-run_writes n (step true m (value x) ∷ ws) env (a, b) =
    find-run_writes n ws (run_write (step true m (value x)) env) b
    ∙ find-put_ne n (entry m (value x)) env a
find-run_writes n (step false m x ∷ ws) env (a, b) = find-run_writes n ws env b

-- A step stays satisfied where its variable is found as before.
IsSatisfied-of_same :
    (p : Step) (env env' : List EnvVar)
    → find (λ w. w.name == name_of p) env' ≡ find (λ w. w.name == name_of p) env
    → IsSatisfied p env
    → IsSatisfied p env'
unfolding env_value_by_name env_var_source_by_name
IsSatisfied-of_same (step active n (source x)) env env' e h = λ a. ap source_of e ∙ h a
IsSatisfied-of_same (step active n (value v)) env env' e h = λ a. ap value_of e ∙ h a

-- After the steps every variable has what its step gives it.
pub run_checks-AllSatisfied :
    (ps : List Step) (s : Bool × List EnvVar) → AreDistinct ps → AllSatisfied ps (run_checks ps s).1
unfolding run_checks
run_checks-AllSatisfied [] s d = tt
run_checks-AllSatisfied (p ∷ ps) s (a, d) = (
  IsSatisfied-of_same p (run_check p s).1 _ (find-run_checks (name_of p) ps (run_check p s) a)
      (run_check-IsSatisfied p s),
  run_checks-AllSatisfied ps (run_check p s) d,
)

pub run_checks-satisfied :
    (ps : List Step) (s : Bool × List EnvVar) → AllSatisfied ps s.1 → run_checks ps s ≡ s
unfolding run_checks
run_checks-satisfied [] s h = refl
run_checks-satisfied (p ∷ ps) s (h, hs) =
    ap (run_checks ps) (run_check-satisfied p s h) ∙ run_checks-satisfied ps s hs

-- The steps of one list are not among those of another.
abbrev pub AllAbsent : List Step → List Step → Type 0
AllAbsent [] ws = Unit
AllAbsent (p ∷ ps) ws = IsAbsent (name_of p) ws × AllAbsent ps ws

pub run_writes-AllSatisfied :
    (ps ws : List Step) (env : List EnvVar)
    → AllAbsent ps ws
    → AllSatisfied ps env
    → AllSatisfied ps (run_writes ws env)
run_writes-AllSatisfied [] ws env a h = tt
run_writes-AllSatisfied (p ∷ ps) ws env (a, r) (h, hs) = (
  IsSatisfied-of_same p env _ (find-run_writes (name_of p) ws env a) h,
  run_writes-AllSatisfied ps ws env r hs,
)
