-- ===== src/Actions/Triples.antt =====
-- What holds of the state where a step ends.
use atlas_operator.Errors.{GoError}
use atlas_operator.Actions.{State, Flow, returns, fails, panics, Action, resume, caught}

module _ {M : Type 0} {C : Type 0} where
  -- Q holds of the value and the state where the step returns, and R of the state where it does not.
  abbrev pub Ends :
      {E : Type 0} {A : Type 0}
      → (A → State M C → Type 0)
      → (State M C → Type 0)
      → State M C × Flow E A
      → Type 0
  Ends Q R (s, returns a) = Q a s
  Ends Q R (s, fails e) = R s
  Ends Q R (s, panics) = R s

  pub resume-Ends :
      {E : Type 0} {A : Type 0} {B : Type 0} (Q : A → State M C → Type 0)
      (Q' : B → State M C → Type 0) (R : State M C → Type 0) (k : A → Action M C E B)
      (x : State M C × Flow E A)
      → Ends Q R x
      → ((a : A) (s : State M C) → Q a s → Ends Q' R (k a s))
      → Ends Q' R (resume k x)
  resume-Ends Q Q' R k (s, returns a) h rest = rest a s h
  resume-Ends Q Q' R k (s, fails e) h rest = h
  resume-Ends Q Q' R k (s, panics) h rest = h

  pub caught-Ends :
      {E : Type 0} {A : Type 0} (Q : A → State M C → Type 0) (R : State M C → Type 0)
      (f : GoError → E) (x : State M C × Flow GoError A)
      → Ends Q R x
      → Ends Q R (caught f x)
  caught-Ends Q R f (s, returns a) h = h
  caught-Ends Q R f (s, fails e) h = h
  caught-Ends Q R f (s, panics) h = h
