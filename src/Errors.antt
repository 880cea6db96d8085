-- ===== src/Errors.antt =====
-- Go's errors as the controllers build and inspect them (internal/controller/common.go and the
-- error types of atlasmigration_controller.go and lint.go), and the results of a reconciliation.
-- A duration is a number of nanoseconds; one of the 64 bits of Go's int64 is its bit pattern.
pub mod Laws
use atlas_operator.Prelude.{
  ◌≡◌, refl, ◌⊎◌, inl, inr, ℕ, ◌*◌, ◌%◌, ◌^◌, Bool, true, false, String, List, [], ◌∷◌, Option,
  none, some, concat, if◌then◌else◌,
}

-- The errors of the program. The text of an error that other code returns is data. `ErrRequireLogin`
-- and the deadline of a context are known by their identity (`errors.Is`), with any text.
pub data GoError : Type 0 where
  plain : String → GoError
  -- fmt.Errorf with the verb %w behind the prefix
  wrapped : String → GoError → GoError
  transient_error : GoError → GoError
  permanent_error : String → GoError → GoError
  reasoned_error : GoError → String → GoError
  pending_error : String → String → GoError
  destructive_err : List String → GoError
  require_login : String → GoError
  deadline_exceeded : String → GoError
  -- errors of the API server that apierrors.IsNotFound and IsAlreadyExists recognise
  not_found : String → GoError
  already_exists : String → GoError
  err_requeue : GoError
  err_target_busy : GoError
  err_locked : GoError
  -- atlasexec.MigrateDriftError: its text, what it holds of stderr, the errors of its results
  migrate_drift_error : String → String → List String → GoError

abbrev clause_lines : List String → String
clause_lines [] = ""
clause_lines (c ∷ cs) = concat ("- " ∷ c ∷ "\n" ∷ clause_lines cs ∷ [])

-- The method Error of each.
unfoldable pub error_text : GoError → String
error_text (plain s) = s
error_text (wrapped p e) = concat (p ∷ error_text e ∷ [])
error_text (transient_error e) = error_text e
error_text (permanent_error r e) = error_text e
error_text (reasoned_error e r) = error_text e
error_text (pending_error r m) = m
error_text (destructive_err cs) = concat ("destructive changes detected:\n" ∷ clause_lines cs ∷ [])
error_text (require_login s) = s
error_text (deadline_exceeded s) = s
error_text (not_found s) = s
error_text (already_exists s) = s
error_text err_requeue = "requeue"
error_text err_target_busy = "migration apply in progress"
error_text err_locked = "acquiring database lock"
error_text (migrate_drift_error s stderr rs) = s

-- isTransient: `errors.As` finds a transientError down the chain of Unwrap.
unfoldable pub is_transient : GoError → Bool
is_transient (transient_error e) = true
is_transient (wrapped p e) = is_transient e
is_transient (permanent_error r e) = is_transient e
is_transient _ = false

-- `errors.AsType[*permanentError]`: the reason and the text of the one that is found.
unfoldable pub as_permanent : GoError → Option (String × String)
unfolding error_text
as_permanent (permanent_error r e) = some (r, error_text e)
as_permanent (wrapped p e) = as_permanent e
as_permanent (transient_error e) = as_permanent e
as_permanent _ = none

-- `errors.AsType[reasoner]`: the reason of the one that is found.
unfoldable pub as_reasoner : GoError → Option String
as_reasoner (reasoned_error e r) = some r
as_reasoner (wrapped p e) = as_reasoner e
as_reasoner (transient_error e) = as_reasoner e
as_reasoner (permanent_error r e) = as_reasoner e
as_reasoner _ = none

-- `errors.AsType[*pendingError]`: its reason and message.
unfoldable pub as_pending : GoError → Option (String × String)
as_pending (pending_error r m) = some (r, m)
as_pending (wrapped p e) = as_pending e
as_pending (transient_error e) = as_pending e
as_pending (permanent_error r e) = as_pending e
as_pending _ = none

-- `errors.As` for a destructiveErr: its clauses.
unfoldable pub as_destructive : GoError → Option (List String)
as_destructive (destructive_err cs) = some cs
as_destructive (wrapped p e) = as_destructive e
as_destructive (transient_error e) = as_destructive e
as_destructive (permanent_error r e) = as_destructive e
as_destructive _ = none

-- `errors.AsType[*atlasexec.MigrateDriftError]`: its stderr and the errors of its results.
unfoldable pub as_migrate_drift : GoError → Option (String × List String)
as_migrate_drift (migrate_drift_error s stderr rs) = some (stderr, rs)
as_migrate_drift (wrapped p e) = as_migrate_drift e
as_migrate_drift (transient_error e) = as_migrate_drift e
as_migrate_drift (permanent_error r e) = as_migrate_drift e
as_migrate_drift _ = none

-- `errors.Is` with the sentinel errors.
unfoldable pub is_require_login : GoError → Bool
is_require_login (require_login s) = true
is_require_login (wrapped p e) = is_require_login e
is_require_login (transient_error e) = is_require_login e
is_require_login (permanent_error r e) = is_require_login e
is_require_login _ = false

unfoldable pub is_deadline_exceeded : GoError → Bool
is_deadline_exceeded (deadline_exceeded s) = true
is_deadline_exceeded (wrapped p e) = is_deadline_exceeded e
is_deadline_exceeded (transient_error e) = is_deadline_exceeded e
is_deadline_exceeded (permanent_error r e) = is_deadline_exceeded e
is_deadline_exceeded _ = false

unfoldable pub is_requeue : GoError → Bool
is_requeue err_requeue = true
is_requeue (wrapped p e) = is_requeue e
is_requeue (transient_error e) = is_requeue e
is_requeue (permanent_error r e) = is_requeue e
is_requeue _ = false

unfoldable pub is_target_busy : GoError → Bool
is_target_busy err_target_busy = true
is_target_busy (wrapped p e) = is_target_busy e
is_target_busy (transient_error e) = is_target_busy e
is_target_busy (permanent_error r e) = is_target_busy e
is_target_busy _ = false

unfoldable pub is_locked : GoError → Bool
is_locked err_locked = true
is_locked (wrapped p e) = is_locked e
is_locked (transient_error e) = is_locked e
is_locked (permanent_error r e) = is_locked e
is_locked _ = false

-- apierrors.IsNotFound
unfoldable pub is_not_found : GoError → Bool
is_not_found (not_found s) = true
is_not_found (wrapped p e) = is_not_found e
is_not_found (transient_error e) = is_not_found e
is_not_found (permanent_error r e) = is_not_found e
is_not_found _ = false

-- apierrors.IsAlreadyExists
unfoldable pub is_already_exists : GoError → Bool
is_already_exists (already_exists s) = true
is_already_exists (wrapped p e) = is_already_exists e
is_already_exists (transient_error e) = is_already_exists e
is_already_exists (permanent_error r e) = is_already_exists e
is_already_exists _ = false

-- A value with an error, in the style of the program's functions.
pub data Result {ℓ} (V : Type ℓ) : Type ℓ where
  ok : V → Result V
  err : GoError → Result V

-- The error of a step, wrapped.
abbrev pub map_err {ℓ} : {V : Type ℓ} → (GoError → GoError) → Result V → Result V
map_err wrap (ok v) = ok v
map_err wrap (err e) = err (wrap e)

-- `if err != nil { return err }` behind a step.
abbrev pub ◌>>=◌ {ℓ κ} : {V : Type ℓ} {W : Type κ} → Result V → (V → Result W) → Result W
err e >>= next = err e
ok v >>= next = next v

-- A step without a value.
abbrev pub ◌>>◌ {κ} : {W : Type κ} → Result (Unit {0}) → Result W → Result W
err e >> next = err e
ok u >> next = next

infixl 5 ◌>>=◌ ◌>>◌
-- ctrl.Result
pub record CtrlResult : Type 0 where
  pub requeue : Bool
  pub requeue_after : ℕ

abbrev pub no_requeue : CtrlResult
no_requeue = record { requeue = false; requeue_after = 0 }

abbrev pub requeue_now : CtrlResult
requeue_now = record { requeue = true; requeue_after = 0 }

abbrev pub after : ℕ → CtrlResult
after d = record { requeue = false; requeue_after = d }

-- result: only a transient error asks for a retry, and no error is passed on.
unfoldable pub result : GoError → ℕ → CtrlResult
result e retry_after = if is_transient e then after retry_after else no_requeue

abbrev pub second : ℕ
second = 1_000_000_000

abbrev pub minute : ℕ
minute = 60 * second

-- 5 * time.Second
abbrev pub retry_duration : ℕ
retry_duration = 5 * second

-- backoffDelayAt, with the wrap-around of the 64 bits.
unfoldable pub backoff_delay_at : ℕ → ℕ
backoff_delay_at retry = retry * retry_duration % 2 ^ 64

-- To split on a computed result and keep the equation.
pub Result-cases {ℓ} :
    {A : Type ℓ} (r : Result A) → ((e : GoError) × (r ≡ err e)) ⊎ ((a : A) × (r ≡ ok a))
Result-cases (ok a) = inr (a, refl)
Result-cases (err e) = inl (e, refl)
