-- ===== src/Pending/Delay.antt =====
-- The growing delay of the tracker (internal/controller/common.go).
use atlas_operator.Prelude.{
  ℕ, zero, suc, ◌*◌, ◌≤◌, ◌<◌, ◌≡◌, ◌⊎◌, inl, inr, ltb, leb, arith, Bool-cases, if◌then◌else◌,
}
use atlas_operator.Pending.{doubled, delay_for, max_pending_duration}
use atlas_operator.Errors.{retry_duration, second}

-- The loop `for d < elapsed && d < maxPendingDuration { d *= 2 }` from d ends with a value: each
-- round is a constructor, so that a loop that goes on forever has no end here.
pub data LoopEnds (elapsed : ℕ) : ℕ → ℕ → Type 0 where
  waited : {d : ℕ} → elapsed ≤ d → LoopEnds elapsed d d
  capped : {d : ℕ} → max_pending_duration ≤ d → LoopEnds elapsed d d
  goes_on :
      {d r : ℕ}
      → d < elapsed
      → d < max_pending_duration
      → LoopEnds elapsed (d * 2) r
      → LoopEnds elapsed d r

-- A delay behind some rounds.
abbrev grown : ℕ → ℕ → ℕ
grown zero d = d
grown (suc rounds) d = grown rounds (d * 2)

-- With fuel for as many doublings as lead to the maximum the loop comes to its end.
doubled-LoopEnds :
    (fuel elapsed d : ℕ)
    → max_pending_duration ≤ grown fuel d
    → LoopEnds elapsed d (doubled fuel elapsed d)
unfolding doubled
doubled-LoopEnds zero elapsed d h = capped h
doubled-LoopEnds (suc fuel) elapsed d h = elim (Bool-cases (ltb d elapsed)) [
  | inr e ↦ rw e (waited (ground (arith, e)))
  | inl e ↦ elim (Bool-cases (ltb d max_pending_duration)) [
    | inr i ↦ rw (e, i) (capped (ground (arith, i)))
    | inl i ↦
        rw (e, i)
          (goes_on (ground (arith, e)) (ground (arith, i))
            (doubled-LoopEnds fuel elapsed (d * 2) h))
  ]
]

-- The loop ends from five seconds, whatever time has passed, and within seven rounds: it ends with
-- the value that the rounds on fuel compute.
pub doubled-ends :
    (elapsed : ℕ) → LoopEnds elapsed retry_duration (doubled 7 elapsed retry_duration)
doubled-ends elapsed = doubled-LoopEnds 7 elapsed retry_duration (omega arith)

-- The steps of the delay: the first of 5, 10, 20, 40, 80 and 160 seconds that the elapsed time does
-- not pass, and five minutes behind these.
abbrev pub delay_steps : ℕ → ℕ
delay_steps elapsed =
    if leb elapsed (5 * second)
    then 5 * second
    else if leb elapsed (10 * second)
    then 10 * second
    else if leb elapsed (20 * second)
    then 20 * second
    else if leb elapsed (40 * second)
    then 40 * second
    else if leb elapsed (80 * second)
    then 80 * second
    else if leb elapsed (160 * second)
    then 160 * second
    else 300 * second

-- The delay, which the loop and the minimum behind it compute, is the step of the elapsed time: the
-- first of 5, 10, 20, 40, 80 and 160 seconds that it does not pass, or else five minutes.
pub delay_for-eq-delay_steps : (elapsed : ℕ) → delay_for elapsed ≡ delay_steps elapsed
unfolding delay_for
delay_for-eq-delay_steps elapsed = ground arith

-- The delay lies between five seconds and five minutes; it is at least the elapsed time or the
-- maximum; above five seconds it is less than twice the elapsed time; and it does not fall as the
-- elapsed time grows.
pub delay_for_bounds :
    (elapsed later : ℕ)
    → elapsed ≤ later
    → (retry_duration ≤ delay_for elapsed)
      × (delay_for elapsed ≤ max_pending_duration)
      × ((elapsed ≤ delay_for elapsed) ⊎ (delay_for elapsed ≡ max_pending_duration))
      × ((delay_for elapsed ≡ retry_duration) ⊎ (delay_for elapsed < elapsed * 2))
      × (delay_for elapsed ≤ delay_for later)
delay_for_bounds elapsed later h =
    ground (arith, delay_for-eq-delay_steps elapsed, delay_for-eq-delay_steps later)
