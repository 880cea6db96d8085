-- ===== src/MigrationRun/Dependents.antt =====
-- Which migrations a change of a Secret or a ConfigMap asks to reconcile
-- (internal/controller/atlasmigration_controller.go with internal/controller/watch/watch.go).
use atlas_operator.Prelude.{
  ◌≡◌, refl, sym, ap, ◌∙◌, Bool, false, ◌&&◌, ◌||◌, String, List, [], ◌∷◌, ◌++◌, Option, none, some,
  str_eq, arith, if◌then◌else◌,
}
use atlas_operator.Cluster.{KeyRef}
use atlas_operator.NameMap.{Name, name_eq}
use atlas_operator.Conditions.{ConditionApi}
use atlas_operator.Watch.{ResourceWatcher, watch, new, handle, Event}
use atlas_operator.Watch.Requests.{count, object_of, watch_all, requested, count-handle}
use atlas_operator.MigrationData.{Packages}
use atlas_operator.MigrationRun.{
  MigrationServices, MigrationResource, Watchers, watch_ref, watch_key, watch_refs, dependent_name,
}

-- A reference, if there is one, is to the object.
abbrev pub is_ref : String → Option String → Name → Bool
is_ref ns none a = false
is_ref ns (some ref) a = str_eq ref a.name && str_eq ns a.namespace

abbrev pub ref_of : Option KeyRef → Option String
ref_of none = none
ref_of (some key) = some key.ref_name

abbrev ref_call : String → Option String → Name → List (Name × Name) → List (Name × Name)
ref_call ns none d calls = calls
ref_call ns (some ref) d calls = (record { namespace = ns; name = ref }, d) ∷ calls

watch_all-append :
    (w : ResourceWatcher) (xs ys : List (Name × Name))
    → watch_all w (xs ++ ys) ≡ watch_all (watch_all w xs) ys
watch_all-append w [] ys = refl
watch_all-append w ((a, d) ∷ xs) ys = watch_all-append (watch w a d) xs ys

watch_all-ref_call :
    (w : ResourceWatcher) (ns : String) (ref : Option String) (d : Name)
    (calls : List (Name × Name))
    → watch_all w (ref_call ns ref d calls) ≡ watch_all (watch_ref ns ref d w) calls
unfolding watch_ref
watch_all-ref_call w ns none d calls = refl
watch_all-ref_call w ns (some ref) d calls = refl

watch_key-watch_ref :
    (w : ResourceWatcher) (ns : String) (key : Option KeyRef) (d : Name)
    → watch_key ns key d w ≡ watch_ref ns (ref_of key) d w
unfolding watch_key watch_ref
watch_key-watch_ref w ns none d = refl
watch_key-watch_ref w ns (some key) d = refl

requested-append :
    (xs ys : List (Name × Name)) (a d : Name)
    → requested (xs ++ ys) a d ≡ (requested xs a d || requested ys a d)
requested-append [] ys a d = refl
requested-append ((x, y) ∷ xs) ys a d = ground (arith, requested-append xs ys a d)

requested-ref_call :
    (ns : String) (ref : Option String) (e d a : Name) (calls : List (Name × Name))
    → requested (ref_call ns ref e calls) a d
      ≡ ((is_ref ns ref a && name_eq e d) || requested calls a d)
requested-ref_call ns none e d a calls = refl
requested-ref_call ns (some ref) e d a calls = ground arith

module _ (api : ConditionApi) (pkg : Packages) (srv : MigrationServices pkg) where
  -- The migration refers to the Secret, for its token, its URL or its password.
  abbrev pub uses_secret : MigrationResource pkg srv → Name → Bool
  uses_secret res a =
      is_ref res.stored.namespace (ref_of res.spec.cloud.token_from) a
      || (is_ref res.stored.namespace (ref_of res.spec.target.url_from) a
          || is_ref res.stored.namespace (ref_of res.spec.target.credentials.password_from) a)

  -- The migration refers to the ConfigMap, for its directory.
  abbrev pub uses_config_map : MigrationResource pkg srv → Name → Bool
  uses_config_map res a = is_ref res.stored.namespace res.spec.dir.config_map_ref a

  abbrev secret_calls : MigrationResource pkg srv → List (Name × Name)
  secret_calls res =
      let ns = res.stored.namespace in
      let d = dependent_name api pkg srv res in
      ref_call ns (ref_of res.spec.cloud.token_from) d (
        ref_call ns (ref_of res.spec.target.url_from) d
          (ref_call ns (ref_of res.spec.target.credentials.password_from) d []))

  abbrev config_map_calls : MigrationResource pkg srv → List (Name × Name)
  config_map_calls res =
      ref_call res.stored.namespace res.spec.dir.config_map_ref (dependent_name api pkg srv res) []

  -- The ends of reconciliations, one after another.
  abbrev pub watch_each : Watchers → List (MigrationResource pkg srv) → Watchers
  watch_each w [] = w
  watch_each w (res ∷ rest) = watch_each (watch_refs api pkg srv res w) rest

  abbrev calls_of :
      (MigrationResource pkg srv → List (Name × Name))
      → List (MigrationResource pkg srv)
      → List (Name × Name)
  calls_of f [] = []
  calls_of f (res ∷ rest) = f res ++ calls_of f rest

  watch_refs-calls :
      (res : MigrationResource pkg srv) (w : Watchers)
      → ((watch_refs api pkg srv res w).secrets ≡ watch_all w.secrets (secret_calls res))
        × ((watch_refs api pkg srv res w).config_maps
            ≡ watch_all w.config_maps (config_map_calls res))
  unfolding watch_refs
  watch_refs-calls res w = (simp (watch_key-watch_ref, watch_all-ref_call), simp watch_all-ref_call)

  watch_each-calls :
      (w : Watchers) (rs : List (MigrationResource pkg srv))
      → ((watch_each w rs).secrets ≡ watch_all w.secrets (calls_of secret_calls rs))
        × ((watch_each w rs).config_maps ≡ watch_all w.config_maps (calls_of config_map_calls rs))
  watch_each-calls w [] = (refl, refl)
  watch_each-calls w (res ∷ rest) =
      let (s, c) = watch_each-calls (watch_refs api pkg srv res w) rest in
      let (s', c') = watch_refs-calls res w in
      (
        s
            ∙ ap (λ v. watch_all v (calls_of secret_calls rest)) s'
            ∙ sym (watch_all-append w.secrets (secret_calls res) (calls_of secret_calls rest)),
        c
            ∙ ap (λ v. watch_all v (calls_of config_map_calls rest)) c'
            ∙ sym (
                watch_all-append w.config_maps (config_map_calls res)
                  (calls_of config_map_calls rest)),
      )

  -- One of the migrations has the name and uses the object.
  abbrev pub depends :
      (MigrationResource pkg srv → Name → Bool)
      → List (MigrationResource pkg srv)
      → Name
      → Name
      → Bool
  depends uses [] a d = false
  depends uses (res ∷ rest) a d =
      (uses res a && name_eq (dependent_name api pkg srv res) d) || depends uses rest a d

  secret_calls-requested :
      (res : MigrationResource pkg srv) (a d : Name)
      → requested (secret_calls res) a d
        ≡ (uses_secret res a && name_eq (dependent_name api pkg srv res) d)
  secret_calls-requested res a d =
      let ns = res.stored.namespace in
      let n = dependent_name api pkg srv res in
      let password = ref_call ns (ref_of res.spec.target.credentials.password_from) n [] in
      let url = ref_call ns (ref_of res.spec.target.url_from) n password in
      ground (
        arith,
        requested-ref_call ns (ref_of res.spec.cloud.token_from) n d a url,
        requested-ref_call ns (ref_of res.spec.target.url_from) n d a password,
        requested-ref_call ns (ref_of res.spec.target.credentials.password_from) n d a [],
      )

  config_map_calls-requested :
      (res : MigrationResource pkg srv) (a d : Name)
      → requested (config_map_calls res) a d
        ≡ (uses_config_map res a && name_eq (dependent_name api pkg srv res) d)
  config_map_calls-requested res a d = ground (
    arith,
    requested-ref_call res.stored.namespace res.spec.dir.config_map_ref
        (dependent_name api pkg srv res) d a [],
  )

  requested-calls :
      (rs : List (MigrationResource pkg srv)) (a d : Name)
      → (requested (calls_of secret_calls rs) a d ≡ depends uses_secret rs a d)
        × (requested (calls_of config_map_calls rs) a d ≡ depends uses_config_map rs a d)
  requested-calls [] a d = (refl, refl)
  requested-calls (res ∷ rest) a d =
      let (s, c) = requested-calls rest a d in
      (
        rw
            (
              requested-append (secret_calls res) (calls_of secret_calls rest) a d,
              secret_calls-requested res a d,
              s,
            )
            refl,
        rw
            (
              requested-append (config_map_calls res) (calls_of config_map_calls rest) a d,
              config_map_calls-requested res a d,
              c,
            )
            refl,
      )

  abbrev pub no_watchers : Watchers
  no_watchers = record { config_maps = new; secrets = new }

  -- After reconciliations of any migrations, a change of a Secret asks for each name exactly once if a
  -- migration of that name refers to the Secret, in its own namespace, for its cloud token, its URL or
  -- its password, and otherwise not at all: no other reference counts, such as the one of its dev URL.
  -- A change of a ConfigMap does so for the migrations that have their directory in it.
  pub watch_refs-handle :
      (rs : List (MigrationResource pkg srv)) (e : Event) (d : Name)
      → (count d (handle (watch_each no_watchers rs).secrets e)
          ≡ (if depends uses_secret rs (object_of e) d then 1 else 0))
        × (count d (handle (watch_each no_watchers rs).config_maps e)
            ≡ (if depends uses_config_map rs (object_of e) d then 1 else 0))
  watch_refs-handle rs e d =
      let (s, c) = watch_each-calls no_watchers rs in
      let (s', c') = requested-calls rs (object_of e) d in
      (
        rw (s, ← s') (count-handle (calls_of secret_calls rs) e d),
        rw (c, ← c') (count-handle (calls_of config_map_calls rs) e d),
      )
