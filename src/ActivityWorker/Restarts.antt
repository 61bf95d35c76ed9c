-- ===== src/ActivityWorker/Restarts.antt =====
-- The start of a worker whose provider may fail.
use employee_monitoring_app.Prelude.{
  ℕ, zero, suc, ◌+◌, ◌-◌, ◌≤◌, ◌≡◌, ◌⊎◌, inl, inr, refl, Bool, true, false, some, [], ◌∷◌, ◌++◌,
  min, ◌==◌, ap, ◌∙◌, not, ◌&&◌, Bool-cases, arith, if◌then◌else◌,
}
use employee_monitoring_app.ActivityWorker.{
  ActivityWorker, stop, delay_after, handle_failure, start,
}

delay_after-large : (n : ℕ) → 30 ≤ delay_after (suc (suc n))
delay_after-large zero = omega arith
delay_after-large (suc zero) = omega arith
delay_after-large (suc (suc zero)) = omega arith
delay_after-large (suc (suc (suc n))) =
    let e : min (suc (suc (suc (suc (suc n)))) - 1) 4 ≡ 4 = omega arith in rw e (omega arith)

abbrev called : ActivityWorker → ActivityWorker
called w = record w { hooked = true; calls = suc w.calls; attempt = suc w.attempt }

abbrev later : ActivityWorker → ActivityWorker
later w = record (called w) { delayed = w.delayed ++ delay_after (suc w.attempt) ∷ [] }

abbrev up : ActivityWorker → ActivityWorker
up w = record w {
  running = true;
  attempt = 0;
  timer = some true;
  fallback_timer = some true;
  hooked = true;
  calls = suc w.calls;
}

start-ok :
    (fuel : ℕ) (starts : ℕ → Bool) (w : ActivityWorker)
    → w.running ≡ false
    → starts w.calls ≡ true
    → start (suc fuel) starts w ≡ some (up w)
unfolding start
start-ok fuel starts w r e = ground arith

start-failed :
    (fuel : ℕ) (starts : ℕ → Bool) (w : ActivityWorker)
    → w.running ≡ false
    → starts w.calls ≡ false
    → start (suc fuel) starts w
      ≡ (if delay_after (suc w.attempt) == 0 then start fuel starts (called w) else some (later w))
unfolding start handle_failure stop
start-failed fuel starts w r e = ground arith

start-failed_first :
    (fuel : ℕ) (starts : ℕ → Bool) (w : ActivityWorker)
    → w.running ≡ false
    → starts w.calls ≡ false
    → w.attempt ≡ 0
    → start (suc fuel) starts w ≡ start fuel starts (called w)
start-failed_first fuel starts w r e a =
    start-failed fuel starts w r e
    ∙ ap (λ n. if delay_after (suc n) == 0 then start fuel starts (called w) else some (later w)) a

start-failed_again :
    (fuel : ℕ) (starts : ℕ → Bool) (w : ActivityWorker) (n : ℕ)
    → w.running ≡ false
    → starts w.calls ≡ false
    → w.attempt ≡ suc n
    → start (suc fuel) starts w ≡ some (later w)
start-failed_again fuel starts w n r e a =
    let d : (delay_after (suc (suc n)) == 0) ≡ false = ground (arith, delay_after-large n) in
    start-failed fuel starts w r e
    ∙ ap (λ m. if delay_after (suc m) == 0 then start fuel starts (called w) else some (later w)) a
    ∙ ap (λ b. if b then start fuel starts (called w) else some (later w)) d

-- What a start of worker `w` ends in, by what its last call of the provider's start did.
abbrev Ends : (ℕ → Bool) → ActivityWorker → ActivityWorker → Type 0
Ends starts w v =
    ((starts (v.calls - 1) ≡ true) × (v.running ≡ true) × (v.attempt ≡ 0) × (v.delayed ≡ w.delayed))
    ⊎ ((starts (v.calls - 1) ≡ false)
        × (v.running ≡ false)
        × (v.attempt ≡ w.attempt + (v.calls - w.calls))
        × (30 ≤ delay_after v.attempt)
        × (v.delayed ≡ w.delayed ++ delay_after v.attempt ∷ []))

-- The calls of the provider's start: a second one follows a first failure that is the first in a row.
abbrev pub calls_made : (ℕ → Bool) → ActivityWorker → ℕ
calls_made starts w = if not (starts w.calls) && (w.attempt == 0) then 2 else 1

abbrev Outcome : ℕ → (ℕ → Bool) → ActivityWorker → Type 0
Outcome fuel starts w =
    (v : ActivityWorker) × (start (suc (suc fuel)) starts w ≡ some v)
    × (start 2 starts w ≡ some v)
    × (v.calls ≡ w.calls + calls_made starts w)
    × Ends starts w v

last-call : (starts : ℕ → Bool) (n : ℕ) {b : Bool} → starts n ≡ b → starts (suc n - 1) ≡ b
last-call starts n e = let d : suc n - 1 ≡ n = omega arith in ap starts d ∙ e

-- A failure that is not the first in a row
again-Outcome :
    (fuel : ℕ) (starts : ℕ → Bool) (w : ActivityWorker) (n : ℕ)
    → w.running ≡ false
    → w.attempt ≡ suc n
    → Outcome fuel starts w
again-Outcome fuel starts w n r a = elim (Bool-cases (starts w.calls)) [
  | inl e ↦ (
    up w,
    start-ok (suc fuel) starts w r e,
    start-ok 1 starts w r e,
    ground arith,
    inl (last-call starts w.calls e, refl, refl, refl),
  )
  | inr e ↦ (
    later w,
    start-failed_again (suc fuel) starts w n r e a,
    start-failed_again 1 starts w n r e a,
    ground arith,
    inr (last-call starts w.calls e, r, omega arith, rw a (delay_after-large n), refl),
  )
]

-- The first call in a row
first-Outcome :
    (fuel : ℕ) (starts : ℕ → Bool) (w : ActivityWorker)
    → w.running ≡ false
    → w.attempt ≡ 0
    → Outcome fuel starts w
first-Outcome fuel starts w r a =
    let next = called w in
    let one : next.attempt ≡ 1 = ap (λ k. suc k) a in
    elim (Bool-cases (starts w.calls)) [
      | inl e ↦ (
        up w,
        start-ok (suc fuel) starts w r e,
        start-ok 1 starts w r e,
        ground arith,
        inl (last-call starts w.calls e, refl, refl, refl),
      )
      | inr e ↦ elim (Bool-cases (starts next.calls)) [
        | inl f ↦ (
          up next,
          start-failed_first (suc fuel) starts w r e a ∙ start-ok fuel starts next r f,
          start-failed_first 1 starts w r e a ∙ start-ok 0 starts next r f,
          ground arith,
          inl (last-call starts next.calls f, refl, refl, refl),
        )
        | inr f ↦ (
          later next,
          start-failed_first (suc fuel) starts w r e a
              ∙ start-failed_again fuel starts next 0 r f one,
          start-failed_first 1 starts w r e a ∙ start-failed_again 0 starts next 0 r f one,
          ground arith,
          inr (last-call starts next.calls f, r, omega arith, rw a (delay_after-large 0), refl),
        )
      ]
    ]

start_from :
    (fuel k : ℕ) (starts : ℕ → Bool) (w : ActivityWorker)
    → w.running ≡ false
    → w.attempt ≡ k
    → Outcome fuel starts w
start_from fuel zero starts w r a = first-Outcome fuel starts w r a
start_from fuel (suc n) starts w r a = again-Outcome fuel starts w n r a

-- A start of a worker that is not running terminates, whatever the provider does: with fuel for two
-- calls, and with any more, it returns one and the same worker. The provider's start is called twice
-- where the first call fails and no failure was counted before, and once otherwise. Where the last
-- call returned, the worker runs, with no failures counted; where it raised, the worker does not run,
-- each call counts as a failure, and one more single shot of `start` is under way, whose delay is that
-- of the table at the count of failures, 30 seconds at least.
pub start_ends :
    (fuel : ℕ) (starts : ℕ → Bool) (w : ActivityWorker)
    → w.running ≡ false
    → (v : ActivityWorker) × (start (suc (suc fuel)) starts w ≡ some v)
      × (start 2 starts w ≡ some v)
      × (v.calls ≡ w.calls + calls_made starts w)
      × (((starts (v.calls - 1) ≡ true)
            × (v.running ≡ true)
            × (v.attempt ≡ 0)
            × (v.delayed ≡ w.delayed))
          ⊎ ((starts (v.calls - 1) ≡ false)
              × (v.running ≡ false)
              × (v.attempt ≡ w.attempt + (v.calls - w.calls))
              × (30 ≤ delay_after v.attempt)
              × (v.delayed ≡ w.delayed ++ delay_after v.attempt ∷ [])))
start_ends fuel starts w r = start_from fuel w.attempt starts w r refl
