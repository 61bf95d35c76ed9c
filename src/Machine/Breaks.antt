-- ===== src/Machine/Breaks.antt =====
-- The breaks of a session in time: closed one after the other, the last one open or not.
use employee_monitoring_app.Prelude.{
  ◌+◌, ◌≤◌, ◌≡◌, refl, none, some, List, [], ◌∷◌, ◌++◌, arith, DateTime, seconds_between,
}
use employee_monitoring_app.Session.{Break, sum_durations, close}
use employee_monitoring_app.Machine.{close_open_break}

-- Every break lies between `lo` and `hi`, after those before it, and is closed at its duration.
pub data Closed (hi : DateTime) : DateTime → List Break → Type 0 where
  nil : {lo : DateTime} → lo ≤ hi → Closed hi lo []
  cons :
      {lo e : DateTime} {b : Break} {bs : List Break}
      → lo ≤ b.started_at
      → b.started_at ≤ e
      → b.ended_at ≡ some e
      → b.duration_seconds ≡ seconds_between b.started_at e
      → Closed hi e bs
      → Closed hi lo (b ∷ bs)

-- The same, but for the last break, which is open.
pub data OneOpen (hi : DateTime) : DateTime → List Break → Type 0 where
  last :
      {lo : DateTime} {b : Break}
      → lo ≤ b.started_at
      → b.started_at ≤ hi
      → b.ended_at ≡ none
      → b.duration_seconds ≡ 0
      → OneOpen hi lo (b ∷ [])
  cons :
      {lo e : DateTime} {b : Break} {bs : List Break}
      → lo ≤ b.started_at
      → b.started_at ≤ e
      → b.ended_at ≡ some e
      → b.duration_seconds ≡ seconds_between b.started_at e
      → OneOpen hi e bs
      → OneOpen hi lo (b ∷ bs)

pub Closed-le : {hi lo : DateTime} {bs : List Break} → Closed hi lo bs → lo ≤ hi
Closed-le (nil h) = h
Closed-le (cons p q e d c) = omega (arith, Closed-le c)

pub Closed-mono :
    {hi at lo : DateTime} {bs : List Break} → hi ≤ at → Closed hi lo bs → Closed at lo bs
Closed-mono h (nil p) = nil (omega arith)
Closed-mono h (cons p q e d c) = cons p q e d (Closed-mono h c)

pub OneOpen-mono :
    {hi at lo : DateTime} {bs : List Break} → hi ≤ at → OneOpen hi lo bs → OneOpen at lo bs
OneOpen-mono h (last p q e d) = last p (omega arith) e d
OneOpen-mono h (cons p q e d c) = cons p q e d (OneOpen-mono h c)

-- A break that starts now is the open one at the end.
pub OneOpen-append :
    {hi at lo : DateTime} {bs : List Break} (b : Break)
    → b.started_at ≡ at
    → b.ended_at ≡ none
    → b.duration_seconds ≡ 0
    → hi ≤ at
    → Closed hi lo bs
    → OneOpen at lo (bs ++ b ∷ [])
OneOpen-append b s e d h (nil p) = last (omega arith) (omega arith) e d
OneOpen-append b s e d h (cons p q f g c) = cons p q f g (OneOpen-append b s e d h c)

-- Closing the open break closes them all.
pub close_open_break-Closed :
    {hi at lo : DateTime} {bs : List Break}
    → hi ≤ at
    → OneOpen hi lo bs
    → Closed at lo (close_open_break bs at)
unfolding close_open_break close
close_open_break-Closed h (last p q e d) = rw e (cons p (omega arith) refl refl (nil (omega arith)))
close_open_break-Closed h (cons p q e d c) = simp e (cons p q e d (close_open_break-Closed h c))

-- Closed breaks last no longer than the time that they lie in.
pub sum_durations-Closed :
    {hi lo : DateTime} {bs : List Break}
    → Closed hi lo bs
    → sum_durations bs ≤ seconds_between lo hi
unfolding sum_durations
sum_durations-Closed (nil p) = omega arith
sum_durations-Closed (cons p q e d c) = omega (arith, sum_durations-Closed c, Closed-le c)

pub sum_durations-OneOpen :
    {hi lo : DateTime} {bs : List Break}
    → OneOpen hi lo bs
    → (lo ≤ hi) × (sum_durations bs ≤ seconds_between lo hi)
unfolding sum_durations
sum_durations-OneOpen (last p q e d) = (omega arith, omega (arith, d))
sum_durations-OneOpen (cons p q e d c) =
    let (l, h) = sum_durations-OneOpen c in (omega (arith, l), omega (arith, d, l, h))

pub sum_durations-append :
    (bs : List Break) (b : Break)
    → sum_durations (bs ++ b ∷ []) ≡ sum_durations bs + b.duration_seconds
unfolding sum_durations
sum_durations-append [] b = omega arith
sum_durations-append (c ∷ bs) b = omega (arith, sum_durations-append bs b)
