-- ===== src/ScanDue/Slots.antt =====
-- The search for the last slot of a schedule (internal/controller/atlassecurityscan_controller.go).
use atlas_operator.Prelude.{
  ℕ, zero, suc, ◌≤◌, ◌<◌, ◌≡◌, refl, ap, inl, inr, true, false, Option, none, some, arith, ltb,
  Bool-cases, Option-cases,
}
use atlas_operator.ScanDue.{Schedule, slot_loop, latest_slot_at_or_before, max_slot_steps, is_after}

-- A schedule goes forward.
abbrev pub Increasing : Schedule → Type 0
Increasing next = (t u : ℕ) → next t ≡ some u → t < u

-- Every time that is given is after the first.
abbrev pub Behind : ℕ → Option ℕ → Type 0
Behind from none = Unit
Behind from (some t) = from < t

-- No slot, or one behind the anchor and not after now.
abbrev pub Within : ℕ → ℕ → Option ℕ → Type 0
Within from now none = Unit
Within from now (some s) = (from < s) × (s ≤ now)

next-Behind : (next : Schedule) (from : ℕ) → Increasing next → Behind from (next from)
next-Behind next from h = elim (Option-cases (next from)) [
  | inl n ↦ rw n tt
  | inr (u, e) ↦ rw e (h from u e)
]

Behind-trans : (a b : ℕ) (o : Option ℕ) → a < b → Behind b o → Behind a o
Behind-trans a b none h k = tt
Behind-trans a b (some t) h k = omega (arith, h, k)

-- One turn of the loop, by its test.
slot_loop-stop :
    (k : ℕ) (next : Schedule) (now : ℕ) (last : Option ℕ) (t : ℕ)
    → ltb now t ≡ true
    → slot_loop k next now last (some t) ≡ last
unfolding slot_loop
slot_loop-stop zero next now last t e = rw e
slot_loop-stop (suc k) next now last t e =
    ap
      (λ b. elim b as (λ x. Option ℕ) [
        | true ↦ last
        | false ↦ slot_loop k next now (some t) (next t)
      ])
      e

slot_loop-go :
    (k : ℕ) (next : Schedule) (now : ℕ) (last : Option ℕ) (t : ℕ)
    → ltb now t ≡ false
    → slot_loop (suc k) next now last (some t) ≡ slot_loop k next now (some t) (next t)
unfolding slot_loop
slot_loop-go k next now last t e =
    ap
      (λ b. elim b as (λ x. Option ℕ) [
        | true ↦ last
        | false ↦ slot_loop k next now (some t) (next t)
      ])
      e

slot_loop-cap :
    (next : Schedule) (now : ℕ) (last : Option ℕ) (t : ℕ)
    → ltb now t ≡ false
    → slot_loop zero next now last (some t) ≡ some now
unfolding slot_loop
slot_loop-cap next now last t e = rw e

slot_loop-none :
    (k : ℕ) (next : Schedule) (now : ℕ) (last : Option ℕ) → slot_loop k next now last none ≡ last
unfolding slot_loop
slot_loop-none zero next now last = refl
slot_loop-none (suc k) next now last = refl

slot_loop-Within :
    (k : ℕ) (next : Schedule) (from now : ℕ) (last t : Option ℕ)
    → Increasing next
    → Within from now last
    → Behind from t
    → Within from now (slot_loop k next now last t)
slot_loop-Within k next from now last none h l b = rw (slot_loop-none k next now last) l
slot_loop-Within zero next from now last (some t) h l b = elim (Bool-cases (ltb now t)) [
  | inl e ↦ rw (slot_loop-stop zero next now last t e) l
  | inr e ↦ rw (slot_loop-cap next now last t e) (ground arith, ground arith)
]
slot_loop-Within (suc k) next from now last (some t) h l b = elim (Bool-cases (ltb now t)) [
  | inl e ↦ rw (slot_loop-stop (suc k) next now last t e) l
  | inr e ↦ rw (slot_loop-go k next now last t e) (
      slot_loop-Within k next from now (some t) (next t) h (b, ground arith)
        (Behind-trans from t (next t) b (next-Behind next t h)))
]

-- A slot that the search finds is behind the anchor and not after now, if the schedule goes forward.
pub latest_slot_at_or_before-Within :
    (next : Schedule) (from now : ℕ)
    → Increasing next
    → Within from now (latest_slot_at_or_before next from now)
unfolding latest_slot_at_or_before
latest_slot_at_or_before-Within next from now h =
    slot_loop-Within max_slot_steps next from now none (next from) h tt (next-Behind next from h)

-- The result of the loop is no earlier than the last slot, which is before the next one.
abbrev AtLeast : Option ℕ → Option ℕ → Type 0
AtLeast none o = Unit
AtLeast (some a) none = ⊥
AtLeast (some a) (some b) = a ≤ b

AtLeast-refl : (o : Option ℕ) → AtLeast o o
AtLeast-refl none = tt
AtLeast-refl (some a) = omega arith

AtLeast-trans : (a b : ℕ) (o : Option ℕ) → a ≤ b → AtLeast (some b) o → AtLeast (some a) o
AtLeast-trans a b none h k = k
AtLeast-trans a b (some c) h k = omega (arith, h, k)

slot_loop-from :
    (k : ℕ) (next : Schedule) (now l : ℕ) (t : Option ℕ)
    → Increasing next
    → Behind l t
    → AtLeast (some l) (slot_loop k next now (some l) t)
slot_loop-from k next now l none h b = rw (slot_loop-none k next now (some l)) (omega arith)
slot_loop-from zero next now l (some t) h b = elim (Bool-cases (ltb now t)) [
  | inl e ↦ rw (slot_loop-stop zero next now (some l) t e) (omega arith)
  | inr e ↦ rw (slot_loop-cap next now (some l) t e) (ground arith)
]
slot_loop-from (suc k) next now l (some t) h b = elim (Bool-cases (ltb now t)) [
  | inl e ↦ rw (slot_loop-stop (suc k) next now (some l) t e) (omega arith)
  | inr e ↦ rw (slot_loop-go k next now (some l) t e) (
      AtLeast-trans l t (slot_loop k next now (some t) (next t)) (omega (arith, b))
        (slot_loop-from k next now t (next t) h (next-Behind next t h)))
]

abbrev BehindLast : Option ℕ → Option ℕ → Type 0
BehindLast none t = Unit
BehindLast (some l) t = Behind l t

from_last :
    (k : ℕ) (next : Schedule) (now : ℕ) (last t : Option ℕ)
    → Increasing next
    → BehindLast last t
    → AtLeast last (slot_loop k next now last t)
from_last k next now none t h b = tt
from_last k next now (some l) t h b = slot_loop-from k next now l t h b

slot_loop_mono :
    (k : ℕ) (next : Schedule) (now later : ℕ) (last t : Option ℕ)
    → Increasing next
    → now ≤ later
    → BehindLast last t
    → AtLeast (slot_loop k next now last t) (slot_loop k next later last t)
slot_loop_mono k next now later last none h le b =
    rw (slot_loop-none k next now last, slot_loop-none k next later last) (AtLeast-refl last)
slot_loop_mono zero next now later last (some t) h le b = elim (Bool-cases (ltb now t)) [
  | inl e ↦ rw (slot_loop-stop zero next now last t e) (from_last zero next later last (some t) h b)
  | inr e ↦ rw (slot_loop-cap next now last t e, slot_loop-cap next later last t (ground arith)) le
]
slot_loop_mono (suc k) next now later last (some t) h le b = elim (Bool-cases (ltb now t)) [
  | inl e ↦
      rw (slot_loop-stop (suc k) next now last t e) (from_last (suc k) next later last (some t) h b)
  | inr e ↦
      rw (slot_loop-go k next now last t e, slot_loop-go k next later last t (ground arith))
        (slot_loop_mono k next now later (some t) (next t) h le (next-Behind next t h))
]

-- If the schedule goes forward, the last slot at or before an instant is not after the last slot at
-- or before a later instant, from the same anchor.
pub latest_slot_at_or_before_mono :
    (next : Schedule) (from now later : ℕ)
    → Increasing next
    → now ≤ later
    → is_after (latest_slot_at_or_before next from now) (latest_slot_at_or_before next from later)
      ≡ false
unfolding latest_slot_at_or_before
latest_slot_at_or_before_mono next from now later h le =
    not_after _ _ (slot_loop_mono max_slot_steps next now later none (next from) h le tt)
  where
    not_after : (a b : Option ℕ) → AtLeast a b → is_after a b ≡ false
    not_after none b h = refl
    not_after (some a) (some b) h = ground arith
    not_after (some a) none h = elim h [ ]
