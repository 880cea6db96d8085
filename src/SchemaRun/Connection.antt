-- ===== src/SchemaRun/Connection.antt =====
-- What a reconciliation of a schema does where Atlas Cloud does not answer, and which plans the
-- tracker keeps (internal/controller/atlasschema_controller.go).
use atlas_operator.Prelude.{
  ℕ, ◌≡◌, ◌⊎◌, some, str_eq, eq_iff, Bool-cases, Option-cases, refl, true, false, none, inl, inr,
}
use atlas_operator.Conditions.{ConditionApi, Condition, ready_cond}
use atlas_operator.Errors.{Result, ok, err, is_not_found}
use atlas_operator.NameMap.{Name, lookup, lookup-delete_self}
use atlas_operator.Pending.{PendingTracker, reset}
use atlas_operator.Reason.{reason_approval_pending}
use atlas_operator.MigrationRun.{Watchers}
use atlas_operator.SchemaStatus.{AtlasSchema}
use atlas_operator.MigrationData.{Packages}
use atlas_operator.SchemaRun.{
  SchemaServices, SchemaResource, Tracked, tracked, name_of, Policy, review_always, SchemaOutcome,
  reconcile_request, visit,
}

-- The policy of a resource whose changes must always be reviewed, and are not linted.
abbrev pub always_reviewed_policy : Policy
always_reviewed_policy = record {
  lint = some (record { destructive = some false; review = review_always });
}

module _ (api : ConditionApi) where
  module _ (pkg : Packages) (srv : SchemaServices pkg) (now : ℕ) where
    -- The condition Ready says that a plan waits for approval.
    abbrev pub WaitsForApproval : AtlasSchema → Type 0
    WaitsForApproval sc =
        (c : Condition) × (api.find_status_condition sc.status.conditions ready_cond ≡ some c)
        × (c.reason ≡ reason_approval_pending)

    -- What the tracker holds behind a request, by the result of reading the resource.
    abbrev pub Forgets :
        Name
        → Result (SchemaResource pkg srv)
        → PendingTracker
        → SchemaOutcome api pkg srv now
        → Type 0
    Forgets n (ok res) t o =
        (sc : AtlasSchema) × (o.updated ≡ some sc)
        × ((lookup o.tracker (name_of sc) ≡ none) ⊎ WaitsForApproval sc)
    Forgets n (err e) t o =
        ((is_not_found e ≡ true) × (lookup o.tracker n ≡ none))
        ⊎ ((is_not_found e ≡ false) × (o.tracker ≡ t))

    tracked-Forgets :
        (t : Tracked)
        → (lookup (tracked api pkg srv now t) (name_of t.schema) ≡ none) ⊎ WaitsForApproval t.schema
    unfolding tracked reset
    tracked-Forgets t =
        elim (Option-cases (api.find_status_condition t.schema.status.conditions ready_cond)) [
          | inl e ↦ inl (rw e (lookup-delete_self t.pending (name_of t.schema)))
          | inr (c, e) ↦ elim (Bool-cases (str_eq c.reason reason_approval_pending)) [
            | inl w ↦ inr (c, e, (eq_iff c.reason reason_approval_pending).0 w)
            | inr w ↦ inl (rw (e, w) (lookup-delete_self t.pending (name_of t.schema)))
          ]
        ]

    -- Behind a reconciliation the tracker has an entry for the resource only where the condition Ready
    -- that is stored says that a plan waits for approval. Where the resource is gone its entry is
    -- dropped, and where it cannot be read for another reason the tracker stays as it is.
    pub reconcile_request-Forgets :
        (n : Name) (r : Result (SchemaResource pkg srv)) (t : PendingTracker) (w : Watchers)
        → Forgets n r t (reconcile_request api pkg srv now n r t w)
    unfolding reconcile_request reset
    reconcile_request-Forgets n (ok res) t w =
        (_, refl, tracked-Forgets (visit api pkg srv now res t).0.resource)
    reconcile_request-Forgets n (err e) t w = elim (Bool-cases (is_not_found e)) [
      | inl h ↦ inl (h, rw h (lookup-delete_self t n))
      | inr h ↦ inr (h, rw h refl)
    ]
