-- ===== src/ScanDue/Wake.antt =====
-- When the controller of security scans wakes (internal/controller/atlassecurityscan_controller.go).
use atlas_operator.Prelude.{
  ℕ, ◌+◌, ◌-◌, ◌≤◌, ◌<◌, ◌≡◌, refl, ◌∙◌, ◌⊎◌, inl, inr, true, List, [], ◌∷◌, ◌++◌, Option, none,
  some, arith, ltb, Bool-cases, Option-cases, if◌then◌else◌,
}
use atlas_operator.Errors.{CtrlResult, after, no_requeue, second}
use atlas_operator.ScanStatus.{AtlasSecurityScan, IgnoredVulnerability}
use atlas_operator.ScanDue.{
  Schedule, min_of, wake_at, wake, waits_of, slot_wait, expiry_waits, ignored,
}

-- A waiver of the list expires at the instant.
abbrev pub Expires : ℕ → List IgnoredVulnerability → Type 0
Expires t [] = ⊥
Expires t (w ∷ ws) = (w.expiration_time ≡ some t) ⊎ Expires t ws

-- The instants that a scan waits for: the next slot, the expiry of a waiver of the policy that has
-- not expired yet, and the retry where one is asked for.
abbrev pub Awaits : AtlasSecurityScan → Option Schedule → ℕ → ℕ → ℕ → Type 0
Awaits res sched now retry t =
    ((next : Schedule) × (sched ≡ some next) × (next now ≡ some t))
    ⊎ (((now < t) × Expires t (ignored res.spec.policy)) ⊎ ((0 < retry) × (t ≡ now + retry)))

abbrev IsIn : ℕ → List ℕ → Type 0
IsIn x [] = ⊥
IsIn x (y ∷ ys) = (x ≡ y) ⊎ IsIn x ys

IsIn-left : (x : ℕ) (xs ys : List ℕ) → IsIn x xs → IsIn x (xs ++ ys)
IsIn-left x [] ys h = absurd h
IsIn-left x (z ∷ zs) ys (inl e) = inl e
IsIn-left x (z ∷ zs) ys (inr h) = inr (IsIn-left x zs ys h)

IsIn-right : (x : ℕ) (xs ys : List ℕ) → IsIn x ys → IsIn x (xs ++ ys)
IsIn-right x [] ys h = h
IsIn-right x (z ∷ zs) ys h = inr (IsIn-right x zs ys h)

IsIn-append : (x : ℕ) (xs ys : List ℕ) → IsIn x (xs ++ ys) → IsIn x xs ⊎ IsIn x ys
IsIn-append x [] ys h = inr h
IsIn-append x (z ∷ zs) ys (inl e) = inl (inl e)
IsIn-append x (z ∷ zs) ys (inr h) = elim (IsIn-append x zs ys h) [
  | inl l ↦ inl (inr l)
  | inr r ↦ inr r
]

one_of : (a b : ℕ) → ((if ltb b a then b else a) ≡ a) ⊎ ((if ltb b a then b else a) ≡ b)
one_of a b = elim (Bool-cases (ltb b a)) [ inl e ↦ inr (rw e refl) | inr e ↦ inl (rw e refl) ]

-- The least element of a list is one of it and below all of them.
min_of-IsIn : (a : ℕ) (ws : List ℕ) → IsIn (min_of a ws) (a ∷ ws)
min_of-IsIn a [] = inl refl
min_of-IsIn a (b ∷ bs) = elim (min_of-IsIn (if ltb b a then b else a) bs) [
  | inr h ↦ inr (inr h)
  | inl q ↦ elim (one_of a b) [ inl p ↦ inl (q ∙ p) | inr p ↦ inr (inl (q ∙ p)) ]
]

min_of-below : (a : ℕ) (ws : List ℕ) (x : ℕ) → IsIn x (a ∷ ws) → min_of a ws ≤ x
min_of-below a [] x (inl e) = omega (arith, e)
min_of-below a [] x (inr h) = absurd h
min_of-below a (b ∷ bs) x h = elim (Bool-cases (ltb b a)) [
  | inl e ↦
      let low = min_of-below b bs in
      rw e
        (elim h [ inl q ↦ let l = low b (inl refl) in ground (arith, e, q, l) | inr q ↦ low x q ])
  | inr e ↦
      let low = min_of-below a bs in
      rw e (elim h [
        | inl q ↦ low x (inl q)
        | inr (inl q) ↦ let l = low a (inl refl) in ground (arith, e, q, l)
        | inr (inr q) ↦ low x (inr q)
      ])
]

-- The waits are the times to the awaited instants.
expiry_waits-IsIn :
    (ws : List IgnoredVulnerability) (now t : ℕ)
    → now < t
    → Expires t ws
    → IsIn (t - now) (expiry_waits ws now)
unfolding expiry_waits
expiry_waits-IsIn [] now t le h = absurd h
expiry_waits-IsIn (w ∷ ws) now t le (inl e) =
    rw e (let b : ltb now t ≡ true = ground arith in rw b (inl refl))
expiry_waits-IsIn (w ∷ ws) now t le (inr h) =
    let ih = expiry_waits-IsIn ws now t le h in
    elim (Option-cases w.expiration_time) [
      | inl e ↦ rw e ih
      | inr (u, e) ↦
          rw e (elim (Bool-cases (ltb now u)) [ inl b ↦ rw b (inr ih) | inr b ↦ rw b ih ])
    ]

expiry_waits-Expires :
    (ws : List IgnoredVulnerability) (now x : ℕ)
    → IsIn x (expiry_waits ws now)
    → (t : ℕ) × ((now < t) × Expires t ws) × (x ≡ t - now)
unfolding expiry_waits
expiry_waits-Expires [] now x h = absurd h
expiry_waits-Expires (w ∷ ws) now x h = elim (Option-cases w.expiration_time) [
  | inl e ↦ let (t, (le, i), q) = expiry_waits-Expires ws now x (rw e at h) in (t, (le, inr i), q)
  | inr (u, e) ↦ elim (Bool-cases (ltb now u)) [
    | inl b ↦ elim (rw (e, b) at h) [
      | inl q ↦ (u, (ground (arith, b), inl e), q)
      | inr i ↦ let (t, (le, j), q) = expiry_waits-Expires ws now x i in (t, (le, inr j), q)
    ]
    | inr b ↦
        let (t, (le, j), q) = expiry_waits-Expires ws now x (rw (e, b) at h) in (t, (le, inr j), q)
  ]
]

slot_wait-Awaits :
    (sched : Option Schedule) (now x : ℕ)
    → IsIn x (slot_wait sched now)
    → (t : ℕ) × ((next : Schedule) × (sched ≡ some next) × (next now ≡ some t)) × (x ≡ t - now)
unfolding slot_wait
slot_wait-Awaits none now x h = absurd h
slot_wait-Awaits (some next) now x h = elim (Option-cases (next now)) [
  | inl e ↦ absurd (rw e at h)
  | inr (t, e) ↦ elim (rw e at h) [ inl q ↦ (t, (next, refl, e), q) | inr i ↦ absurd i ]
]

waits_of-Awaits :
    (res : AtlasSecurityScan) (sched : Option Schedule) (now retry x : ℕ)
    → IsIn x (waits_of res sched now retry)
    → (t : ℕ) × Awaits res sched now retry t × (x ≡ t - now)
unfolding waits_of
waits_of-Awaits res sched now retry x h = elim (IsIn-append x (slot_wait sched now) _ h) [
  | inl s ↦ let (t, a, q) = slot_wait-Awaits sched now x s in (t, inl a, q)
  | inr r ↦ elim (IsIn-append x (expiry_waits (ignored res.spec.policy) now) _ r) [
    | inl e ↦
        let (t, a, q) = expiry_waits-Expires (ignored res.spec.policy) now x e in
        (t, inr (inl a), q)
    | inr i ↦ elim (Bool-cases (ltb 0 retry)) [
      | inl b ↦ elim (rw b at i) [
        | inl q ↦ (now + retry, inr (inr (ground (arith, b), refl)), omega (arith, q))
        | inr j ↦ absurd j
      ]
      | inr b ↦ absurd (rw b at i)
    ]
  ]
]

Awaits-waits_of :
    (res : AtlasSecurityScan) (sched : Option Schedule) (now retry t : ℕ)
    → Awaits res sched now retry t
    → IsIn (t - now) (waits_of res sched now retry)
unfolding waits_of slot_wait
Awaits-waits_of res sched now retry t (inl (next, e, i)) =
    IsIn-left (t - now) (slot_wait sched now) _ (rw (e, i) (inl refl))
Awaits-waits_of res sched now retry t (inr (inl (le, h))) =
    IsIn-right (t - now) (slot_wait sched now) _ (
      IsIn-left (t - now) (expiry_waits (ignored res.spec.policy) now) _
        (expiry_waits-IsIn (ignored res.spec.policy) now t le h))
Awaits-waits_of res sched now retry t (inr (inr (pos, e))) =
    IsIn-right (t - now) (slot_wait sched now) _ (
      IsIn-right (t - now) (expiry_waits (ignored res.spec.policy) now) _
        (let b : ltb 0 retry ≡ true = ground arith in rw b (inl (omega (arith, e)))))

-- The controller wakes for the first of the instants that it awaits, but not within a second.
abbrev pub WakesFor : (ℕ → Type 0) → ℕ → CtrlResult → Type 0
WakesFor awaits now r =
    ((r ≡ no_requeue) × ((t : ℕ) → awaits t → ⊥))
    ⊎ ((m t : ℕ) × ((r ≡ after m) × awaits t)
        × ((m ≡ t - now) ⊎ ((m ≡ second) × (t ≤ now + second)))
        × ((second ≤ m) × ((u : ℕ) → awaits u → (t - now) ≤ (u - now))))

wake_at-WakesFor :
    (awaits : ℕ → Type 0) (now : ℕ) (ws : List ℕ)
    → ((x : ℕ) → IsIn x ws → (t : ℕ) × awaits t × (x ≡ t - now))
    → ((t : ℕ) → awaits t → IsIn (t - now) ws)
    → WakesFor awaits now (wake_at ws)
wake_at-WakesFor awaits now [] to of = inl (refl, λ t a. of t a)
wake_at-WakesFor awaits now (w ∷ ws) to of =
    let (t, a, q) = to (min_of w ws) (min_of-IsIn w ws) in
    let least : (u : ℕ) → awaits u → (t - now) ≤ (u - now) =
      λ u b. let le = min_of-below w ws (u - now) (of u b) in omega (arith, le, q) in
    elim (Bool-cases (ltb (min_of w ws) second)) [
      | inl e ↦
          inr (second, t, (rw e refl, a), inr (refl, ground (arith, e, q)), (omega arith, least))
      | inr e ↦ inr (min_of w ws, t, (rw e refl, a), inl q, (ground (arith, e), least))
    ]

-- The controller asks to be woken exactly where it awaits an instant: the next slot of the schedule,
-- the expiry of a waiver that has not expired, or the end of the retry delay. Then the delay is the
-- time to the first of these, or a second where that is less than a second.
pub wake-WakesFor :
    (res : AtlasSecurityScan) (sched : Option Schedule) (now retry : ℕ)
    → WakesFor (Awaits res sched now retry) now (wake res sched now retry)
unfolding wake
wake-WakesFor res sched now retry =
    wake_at-WakesFor (Awaits res sched now retry) now (waits_of res sched now retry)
      (waits_of-Awaits res sched now retry) (Awaits-waits_of res sched now retry)
