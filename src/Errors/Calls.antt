-- ===== src/Errors/Calls.antt =====
-- The monad of code that calls the API server, whose state is `S`: a call may change the state
-- and fail.
use apisix_operator.Prelude.{
  ℕ, zero, suc, ◌≡◌, sym, ap, ◌∙◌, ◌⊎◌, inl, inr, arith, Bool, true, false, Bool-cases,
  if◌then◌else◌,
}
use apisix_operator.Errors.{Error, Result, ok, err}
use apisix_operator.Errors.Results.{Result-cases}

abbrev pub Exec {ℓ κ} : Type ℓ → Type κ → Type (ℓ ⊔ κ)
Exec S A = S → Result A × S

module _ {ℓ κ} {S : Type ℓ} {A : Type κ} where
  abbrev pub pure : A → Exec S A
  pure a s = (ok a, s)

  abbrev pub raise : Error → Exec S A
  raise e s = (err e, s)

  abbrev pub lift : Result A → Exec S A
  lift r s = (r, s)

  -- `err` as a value, for code that inspects it.
  abbrev pub attempt : Exec S A → Exec S (Result A)
  attempt m s = let (r, s') = m s in (ok r, s')

module _ {ℓ κ μ} {S : Type ℓ} {A : Type κ} {B : Type μ} where
  abbrev pub then_run : Result A → (A → Exec S B) → Exec S B
  then_run (ok a) f s = f a s
  then_run (err e) f s = (err e, s)

  infixl 5 ◌>>=◌
  abbrev pub ◌>>=◌ : Exec S A → (A → Exec S B) → Exec S B
  ◌>>=◌ m f s = let (r, s') = m s in then_run r f s'

-- A call that succeeds is followed by what its continuation does in the new state.
pub bind_ok {ℓ κ μ} :
    {S : Type ℓ} {A : Type κ} {B : Type μ} (m : Exec S A) (f : A → Exec S B) (s : S) {a : A}
    {s' : S}
    → m s ≡ (ok a, s')
    → (m >>= f) s ≡ f a s'
bind_ok m f s e = ap (λ x. then_run x.0 f x.1) e

-- What a call that succeeded did first.
pub bind_inv {ℓ κ μ} :
    {S : Type ℓ} {A : Type κ} {B : Type μ} (m : Exec S A) (f : A → Exec S B) (s : S) {b : B}
    {s' : S}
    → (m >>= f) s ≡ (ok b, s')
    → (a : A) × (t : S) × (m s ≡ (ok a, t)) × (f a t ≡ (ok b, s'))
bind_inv m f s h = elim (Result-cases (m s).0) [
  | inl (a, e) ↦ (a, (m s).1, ap (λ r. (r, (m s).1)) e, sym (ap (λ r. then_run r f (m s).1) e) ∙ h)
  | inr (x, e) ↦ ground (arith, sym (ap (λ r. then_run r f (m s).1) e) ∙ h)
]

-- What a call that tells whether it changed something did before the rest succeeded.
pub branch_inv :
    {S A B : Type 0} (m : Exec S (Bool × A)) (changed kept : A → Exec S B) (s : S) {b : B} {s' : S}
    → (m >>= λ p. if p.0 then changed p.1 else kept p.1) s ≡ (ok b, s')
    → ((a : A) × (t : S) × (m s ≡ (ok (true, a), t)) × (changed a t ≡ (ok b, s')))
      ⊎ ((a : A) × (t : S) × (m s ≡ (ok (false, a), t)) × (kept a t ≡ (ok b, s')))
branch_inv m changed kept s h =
    let (p, t, e, k) = bind_inv m (λ p. if p.0 then changed p.1 else kept p.1) s h in
    elim (Bool-cases p.0) [
      | inl x ↦ inl (p.1, t, e ∙ ap (λ y. (ok (y, p.1), t)) x, rw x at k)
      | inr x ↦ inr (p.1, t, e ∙ ap (λ y. (ok (y, p.1), t)) x, rw x at k)
    ]

-- The same call again and again, whatever it answers.
module _ {ℓ κ} {S : Type ℓ} {A : Type κ} (m : Exec S A) where
  unfoldable pub runs : ℕ → S → S
  runs zero s = s
  runs (suc n) s = runs n (m s).1

  pub runs-one : (s : S) {o : Result A} {t : S} → m s ≡ (o, t) → runs 1 s ≡ t
  unfolding runs
  runs-one s e = ap (λ (x : Result A × S). x.1) e

  pub runs-two_of_one : (s : S) {t : S} → runs 1 s ≡ t → runs 2 s ≡ runs 1 t
  unfolding runs
  runs-two_of_one s e = ap (λ x. runs 1 x) e

  pub runs-two :
      (s : S) {o o' : Result A} {t t' : S} → m s ≡ (o, t) → m t ≡ (o', t') → runs 2 s ≡ t'
  runs-two s {t = t} e f = runs-two_of_one s (runs-one s e) ∙ runs-one t f

  -- An answer that the first two runs and all later ones give is given by every run.
  pub runs-answer :
      (s : S) {o : Result A} {t t' : S} (n : ℕ)
      → m s ≡ (o, t)
      → m t ≡ (o, t')
      → ((k : ℕ) → (m (runs k t')).0 ≡ o)
      → (m (runs n s)).0 ≡ o
  unfolding runs
  runs-answer s zero e f h = ap (λ (x : Result A × S). x.0) e
  runs-answer s (suc zero) e f h = rw (runs-one s e) (ap (λ (x : Result A × S). x.0) f)
  runs-answer s (suc (suc n)) e f h = rw (e, f) (h n)
