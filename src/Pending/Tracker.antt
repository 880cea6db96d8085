-- ===== src/Pending/Tracker.antt =====
-- The tracker over several calls (internal/controller/common.go).
use atlas_operator.Prelude.{
  ℕ, ◌-◌, ◌≡◌, refl, ap, true, false, String, List, [], ◌∷◌, Option, none, some, map, str_eq, inl,
  inr, Bool-cases, Option-cases, eq_refl,
}
use atlas_operator.Pending.{
  PendingEntry, PendingTracker, delay, delay_for, reset, current_entry, store_entry,
}
use atlas_operator.NameMap.{
  Name, name_eq, lookup, insert, lookup-insert_self, lookup-insert_ne, lookup-delete_self,
  lookup-delete_ne,
}

-- The resource does not wait on the key: it has no entry, or one with another key.
abbrev pub NotWaiting : PendingTracker → Name → String → Type 0
NotWaiting t n key = (e : PendingEntry) → lookup t n ≡ some e → str_eq e.key key ≡ false

-- The polls of one resource on one key, and the delays that they return.
abbrev pub polls : PendingTracker → Name → String → List ℕ → List ℕ
polls t n key [] = []
polls t n key (now ∷ later) = (delay t n key now).1 ∷ polls (delay t n key now).0 n key later

-- A call on a key that the resource waits on already keeps the entries and counts from the instant
-- that they hold.
delay_waiting :
    (t : PendingTracker) (n : Name) (key : String) (e : PendingEntry) (now : ℕ)
    → lookup t n ≡ some e
    → str_eq e.key key ≡ true
    → delay t n key now ≡ (t, delay_for (now - e.since))
unfolding delay current_entry store_entry
delay_waiting t n key e now found same = rw (found, same)

delay_starts :
    (t : PendingTracker) (n : Name) (key : String) (now : ℕ)
    → NotWaiting t n key
    → delay t n key now ≡ (insert t n (record { key = key; since = now }), delay_for (now - now))
unfolding delay current_entry store_entry
delay_starts t n key now h = elim (Option-cases (lookup t n)) [
  | inl e ↦ rw e
  | inr (f, e) ↦ rw (e, h f e)
]

polls_waiting :
    (t : PendingTracker) (n : Name) (key : String) (e : PendingEntry) (times : List ℕ)
    → lookup t n ≡ some e
    → str_eq e.key key ≡ true
    → polls t n key times ≡ map (λ now. delay_for (now - e.since)) times
polls_waiting t n key e [] found same = refl
polls_waiting t n key e (now ∷ later) found same =
    rw (delay_waiting t n key e now found same)
      (ap (λ ds. delay_for (now - e.since) ∷ ds) (polls_waiting t n key e later found same))

-- A resource that starts to wait on a key is polled with the delays of the time since its first
-- poll, whatever it waited on before and however often it is polled.
pub polls-map-delay_for :
    (t : PendingTracker) (n : Name) (key : String) (start : ℕ) (later : List ℕ)
    → NotWaiting t n key
    → polls t n key (start ∷ later) ≡ map (λ now. delay_for (now - start)) (start ∷ later)
polls-map-delay_for t n key start later h = rw (delay_starts t n key start h) (
    ap (λ ds. delay_for (start - start) ∷ ds)
      (polls_waiting _ n key (record { key = key; since = start }) later
        (lookup-insert_self t n (record { key = key; since = start })) (eq_refl key)))

-- A call for one resource, be it a poll or a reset, leaves the entries of the others as they are;
-- and a resource that was reset waits on nothing.
delay-reset-others :
    (t : PendingTracker) (n other : Name) (key : String) (now : ℕ)
    → name_eq n other ≡ false
    → (lookup (delay t n key now).0 other ≡ lookup t other)
      × (lookup (reset t n) other ≡ lookup t other)
      × (lookup (reset t n) n ≡ none)
unfolding delay reset store_entry
delay-reset-others t n other key now h =
    (stored (lookup t n), lookup-delete_ne t n other h, lookup-delete_self t n)
  where
    stored :
        (found : Option PendingEntry)
        → lookup (store_entry t n found key (current_entry found key now)) other ≡ lookup t other
    stored none = lookup-insert_ne t n other _ h
    stored (some f) = elim (Bool-cases (str_eq f.key key)) [
      | inl e ↦ rw e refl
      | inr e ↦ rw e (lookup-insert_ne t n other _ h)
    ]
