-- ===== src/Actions.antt =====
-- Steps of a reconciliation: a step changes the state of the run, and returns, fails or panics. The
-- resource that is reconciled and the commands that are given are parameters.
pub mod Triples
use atlas_operator.Prelude.{List, ◌∷◌, ◌++◌}
use atlas_operator.Recorder.{RecordedEvent}
use atlas_operator.Errors.{Result, ok, err, GoError}

-- The state: the resource, the events recorded, in order, and the commands given, the last first.
pub record State (M : Type 0) (C : Type 0) : Type 0 where
  pub resource : M
  pub events : List RecordedEvent
  pub commands : List C

-- How a step ends.
pub data Flow {ℓ κ} (E : Type ℓ) (A : Type κ) : Type (ℓ ⊔ κ) where
  returns : A → Flow E A
  fails : E → Flow E A
  panics : Flow E A

abbrev pub Action {ℓ κ} : Type 0 → Type 0 → Type ℓ → Type κ → Type (ℓ ⊔ κ)
Action M C E A = State M C → State M C × Flow E A

abbrev pub flow_of {κ} : {A : Type κ} → Result A → Flow GoError A
flow_of (ok a) = returns a
flow_of (err e) = fails e

module _ {M : Type 0} {C : Type 0} where
  infixl 5 ◌>>=◌ ◌>>◌
  -- The rest of the steps, behind a step that returns.
  abbrev pub resume {ℓ κ ι} :
      {E : Type ℓ} {A : Type κ} {B : Type ι}
      → (A → Action M C E B)
      → State M C × Flow E A
      → State M C × Flow E B
  resume k (s, returns a) = k a s
  resume k (s, fails e) = (s, fails e)
  resume k (s, panics) = (s, panics)

  abbrev pub ◌>>=◌ {ℓ κ ι} :
      {E : Type ℓ} {A : Type κ} {B : Type ι}
      → Action M C E A
      → (A → Action M C E B)
      → Action M C E B
  (m >>= k) s = resume k (m s)

  abbrev pub ◌>>◌ {ℓ κ ι} :
      {E : Type ℓ} {A : Type κ} {B : Type ι} → Action M C E A → Action M C E B → Action M C E B
  (m >> k) s = resume (λ a. k) (m s)

  abbrev pub return {ℓ κ} : {E : Type ℓ} {A : Type κ} → A → Action M C E A
  return a s = (s, returns a)

  abbrev pub panic {ℓ κ} : {E : Type ℓ} {A : Type κ} → Action M C E A
  panic s = (s, panics)

  abbrev pub fail {ℓ κ} : {E : Type ℓ} {A : Type κ} → E → Action M C E A
  fail e s = (s, fails e)

  -- The result of a function that leaves the state alone.
  abbrev pub lift {κ} : {A : Type κ} → Result A → Action M C GoError A
  lift r s = (s, flow_of r)

  -- A command with its result.
  abbrev pub issue {κ} : {A : Type κ} → C → Result A → Action M C GoError A
  issue c r s = (record s { commands = c ∷ s.commands }, flow_of r)

  -- A change of the resource.
  abbrev pub change {ℓ} : {E : Type ℓ} → (M → M) → Action M C E (Unit {0})
  change f s = (record s { resource = f s.resource }, returns tt)

  abbrev pub record_all {ℓ} : {E : Type ℓ} → List RecordedEvent → Action M C E (Unit {0})
  record_all es s = (record s { events = s.events ++ es }, returns tt)

  -- An error of a step as the end of the run that it stands for.
  abbrev pub caught {ℓ κ} :
      {E : Type ℓ} {A : Type κ} → (GoError → E) → State M C × Flow GoError A → State M C × Flow E A
  caught f (s, returns a) = (s, returns a)
  caught f (s, fails e) = (s, fails (f e))
  caught f (s, panics) = (s, panics)

  abbrev pub catch {ℓ κ} :
      {E : Type ℓ} {A : Type κ} → (GoError → E) → Action M C GoError A → Action M C E A
  catch f m s = caught f (m s)
