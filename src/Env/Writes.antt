-- ===== src/Env/Writes.antt =====
-- Writing the same variables twice, each to the end of the list, gives the list of the first time.
use mathlib.Core.List.{append_assoc, append-nil}
use apisix_operator.Prelude.{
  String, ◌≡◌, refl, ◌∙◌, ap, true, false, List, [], ◌∷◌, ◌++◌, keep, arith, ◌!=◌, ==_refl,
  string_eq, keep-append, keep-keep_comm, keep-keep_self,
}
use apisix_operator.Api.Env.{EnvVar}
use apisix_operator.Env.Steps.{
  Step, step, source, value, entry, put, run_writes, IsAbsent, AreDistinct,
}

-- The variables that the steps leave where they are.
rest : List Step → List EnvVar → List EnvVar
rest [] env = env
rest (step true n a ∷ ws) env = rest ws (keep (λ v. v.name != n) env)
rest (step false n a ∷ ws) env = rest ws env

-- The variables that the steps write.
written : List Step → List EnvVar
written [] = []
written (step true n a ∷ ws) = entry n a ∷ written ws
written (step false n a ∷ ws) = written ws

rest-append : (ws : List Step) (xs ys : List EnvVar) → rest ws (xs ++ ys) ≡ rest ws xs ++ rest ws ys
unfolding rest
rest-append [] xs ys = refl
rest-append (step true n a ∷ ws) xs ys =
    rw keep-append (rest-append ws (keep (λ v. v.name != n) xs) (keep (λ v. v.name != n) ys))
rest-append (step false n a ∷ ws) xs ys = rest-append ws xs ys

rest-nil : (ws : List Step) → rest ws [] ≡ []
unfolding rest keep
rest-nil [] = refl
rest-nil (step true n a ∷ ws) = rest-nil ws
rest-nil (step false n a ∷ ws) = rest-nil ws

rest-absent : (ws : List Step) (v : EnvVar) → IsAbsent v.name ws → rest ws (v ∷ []) ≡ v ∷ []
unfolding rest keep
rest-absent [] v a = refl
rest-absent (step true n x ∷ ws) v (a, b) = ground (arith, rest-absent ws v b)
rest-absent (step false n x ∷ ws) v (a, b) = rest-absent ws v b

rest-keep :
    (ws : List Step) (n : String) (env : List EnvVar)
    → rest ws (keep (λ v. v.name != n) env) ≡ keep (λ v. v.name != n) (rest ws env)
unfolding rest
rest-keep [] n env = refl
rest-keep (step true m a ∷ ws) n env =
    rw (keep-keep_comm (λ (v : EnvVar). v.name != m) (λ v. v.name != n) env)
      (rest-keep ws n (keep (λ v. v.name != m) env))
rest-keep (step false m a ∷ ws) n env = rest-keep ws n env

rest-rest : (ws : List Step) (env : List EnvVar) → rest ws (rest ws env) ≡ rest ws env
unfolding rest
rest-rest [] env = refl
rest-rest (step true n a ∷ ws) env =
    rw
      (
        ← rest-keep ws n (keep (λ v. v.name != n) env),
        keep-keep_self (λ (v : EnvVar). v.name != n) env,
      )
      (rest-rest ws (keep (λ v. v.name != n) env))
rest-rest (step false n a ∷ ws) env = rest-rest ws env

rest-cons :
    (ws : List Step) (v : EnvVar) (env : List EnvVar)
    → rest ws env ≡ []
    → rest ws (keep (λ w. w.name != v.name) (v ∷ env)) ≡ []
unfolding keep
rest-cons ws v env h = ground (
  arith,
  ==_refl v.name,
  rest-keep ws v.name env,
  h,
  ap (keep (λ (w : EnvVar). w.name != v.name)) h,
)

rest-written : (ws : List Step) → rest ws (written ws) ≡ []
unfolding rest written
rest-written [] = refl
rest-written (step true n (source x) ∷ ws) =
    rest-cons ws (entry n (source x)) (written ws) (rest-written ws)
rest-written (step true n (value x) ∷ ws) =
    rest-cons ws (entry n (value x)) (written ws) (rest-written ws)
rest-written (step false n a ∷ ws) = rest-written ws

rest-put :
    (ws : List Step) (v : EnvVar) (env : List EnvVar)
    → IsAbsent v.name ws
    → rest ws (put v env) ++ written ws
      ≡ rest ws (keep (λ w. w.name != v.name) env) ++ v ∷ written ws
unfolding put
rest-put ws v env a = rw (rest-append, rest-absent ws v a, append_assoc)

run_writes_lem :
    (ws : List Step) (env : List EnvVar)
    → AreDistinct ws
    → run_writes ws env ≡ rest ws env ++ written ws
unfolding run_writes rest written
run_writes_lem [] env d = rw append-nil
run_writes_lem (step true n (source x) ∷ ws) env (b, d) =
    let v = entry n (source x) in run_writes_lem ws (put v env) d ∙ rest-put ws v env b
run_writes_lem (step true n (value x) ∷ ws) env (b, d) =
    let v = entry n (value x) in run_writes_lem ws (put v env) d ∙ rest-put ws v env b
run_writes_lem (step false n a ∷ ws) env (b, d) = run_writes_lem ws env d

-- The second round of writes changes nothing.
pub run_writes-run_writes :
    (ws : List Step) (env : List EnvVar)
    → AreDistinct ws
    → run_writes ws (run_writes ws env) ≡ run_writes ws env
run_writes-run_writes ws env d =
    run_writes_lem ws (run_writes ws env) d
    ∙ rw (run_writes_lem ws env d) (rw (rest-append, rest-rest, rest-written, append-nil))
