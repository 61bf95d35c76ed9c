-- ===== src/Lifecycle/Order.antt =====
-- The order of the hooks, over a start that fails or not and the shutdown after it.
use text.Mathlib.Text.{◌==◌ as str_eq}
use text.Mathlib.TextPositions.{eq_refl}
use mathlib.Core.List.{append-nil, append_assoc}
use employee_monitoring_app.Prelude.{
  ◌≡◌, refl, sym, ap, ◌∙◌, Bool, true, false, List, [], ◌∷◌, ◌++◌, String, map, not, arith, All,
  All-mono, All-append, if-case,
}
use employee_monitoring_app.Db.Table.{select}
use employee_monitoring_app.SyncService.Screenshots.{contains}
use employee_monitoring_app.Lifecycle.{
  Step, Call, Lifecycle, new_lifecycle, reversed, pending, names_of, hooks, shutdown, unwind,
  start_from, start,
}

abbrev pub starts_of : List Step → List Call
starts_of steps = map (λ (s : Step). Call.start_call s.name) steps

-- Steps that start are noted one after the other.
start_from-append :
    (pre rest : List Step) (l : Lifecycle)
    → All (λ (s : Step). s.starts ≡ true) pre
    → start_from (pre ++ rest) l
      ≡ start_from rest
          (record l { started = l.started ++ names_of pre; calls = l.calls ++ starts_of pre })
unfolding start_from
start_from-append [] rest l h = rw (append-nil l.started, append-nil l.calls) refl
start_from-append (s ∷ pre) rest l h =
    let next = record l {
      started = l.started ++ s.name ∷ [];
      calls = l.calls ++ Call.start_call s.name ∷ [];
    } in
    rw
      (
        h.0,
        start_from-append pre rest next h.1,
        append_assoc l.started (s.name ∷ []) (names_of pre),
        append_assoc l.calls (Call.start_call s.name ∷ []) (starts_of pre),
      )
      refl

select-append :
    (p : Step → Bool) (xs ys : List Step) → select p (xs ++ ys) ≡ select p xs ++ select p ys
select-append p [] ys = refl
select-append p (x ∷ xs) ys = ground (arith, select-append p xs ys)

select-none : (p : Step → Bool) (xs : List Step) → All (λ s. p s ≡ false) xs → select p xs ≡ []
select-none p [] h = refl
select-none p (x ∷ xs) h = rw (h.0, select-none p xs h.1) refl

select-kept : (p : Step → Bool) (xs : List Step) → All (λ s. p s ≡ true) xs → select p xs ≡ xs
select-kept p [] h = refl
select-kept p (x ∷ xs) h = rw (h.0, select-kept p xs h.1) refl

-- Every step of a list has its name among the names of the list.
named : (pre : List Step) → All (λ s. contains (names_of pre) s.name ≡ true) pre
named [] = tt
named (s ∷ pre) = (
  rw (eq_refl s.name) refl,
  All-mono pre (λ x h. if-case (λ b. b ≡ true) (str_eq s.name x.name) _ _ refl h) (named pre),
)

-- A name that no step has.
unnamed :
    (pre : List Step) (n : String)
    → contains (names_of pre) n ≡ false
    → All (λ s. not (str_eq s.name n) ≡ true) pre
unnamed [] n h = tt
unnamed (s ∷ pre) n h = (ground arith, unnamed pre n (ground arith))

All-reversed : (P : Step → Type 0) (xs : List Step) → All P xs → All P (reversed xs)
All-reversed P [] h = tt
All-reversed P (x ∷ xs) h = All-append P (reversed xs) (x ∷ []) (All-reversed P xs h.1) (h.0, tt)

-- No later step has the name of an earlier one.
abbrev pub Fresh : List Step → List Step → Type 0
Fresh pre rest = All (λ s. contains (names_of pre) s.name ≡ false) rest

pending-names :
    (pre rest : List Step)
    → Fresh pre rest
    → select (λ s. contains (names_of pre) s.name) (pre ++ rest) ≡ pre
pending-names pre rest h =
    let p : Step → Bool = λ s. contains (names_of pre) s.name in
    rw (select-append p pre rest, select-kept p pre (named pre), select-none p rest h)
      (append-nil pre)

shutdown-pending :
    (l : Lifecycle) (pre : List Step)
    → pending l ≡ pre
    → (shutdown l).calls ≡ l.calls ++ hooks (reversed pre)
unfolding shutdown
shutdown-pending l pre e = rw e refl

unwind-pending :
    (l : Lifecycle) (pre : List Step) (n : String)
    → pending l ≡ pre
    → contains (names_of pre) n ≡ false
    → unwind n l ≡ record l { calls = l.calls ++ hooks (reversed pre) }
unfolding unwind
unwind-pending l pre n e f =
    let kept = All-reversed (λ s. not (str_eq s.name n) ≡ true) pre (unnamed pre n f) in
    rw (e, select-kept (λ s. not (str_eq s.name n)) (reversed pre) kept) refl

abbrev started_with : List Step → List Step → List Call → Lifecycle
started_with steps pre calls = record { steps = steps; started = names_of pre; calls = calls }

start-whole :
    (pre : List Step)
    → All (λ s. s.starts ≡ true) pre
    → start (new_lifecycle pre) ≡ (started_with pre pre (starts_of pre), true)
unfolding start start_from
start-whole pre g =
    ap (λ q. start_from q (new_lifecycle pre)) (sym (append-nil pre))
    ∙ start_from-append pre [] (new_lifecycle pre) g

start_from-bad :
    (bad : Step) (post : List Step) (l : Lifecycle)
    → bad.starts ≡ false
    → start_from (bad ∷ post) l ≡ (unwind bad.name l, false)
unfolding start_from
start_from-bad bad post l b = rw b refl

start-failed :
    (pre post : List Step) (bad : Step)
    → All (λ s. s.starts ≡ true) pre
    → bad.starts ≡ false
    → Fresh pre (bad ∷ post)
    → let steps = pre ++ bad ∷ post in
      start (new_lifecycle steps)
      ≡ (started_with steps pre (starts_of pre ++ hooks (reversed pre)), false)
unfolding start
start-failed pre post bad g b f =
    let steps = pre ++ bad ∷ post in
    let l = started_with steps pre (starts_of pre) in
    start_from-append pre (bad ∷ post) (new_lifecycle steps) g
    ∙ start_from-bad bad post l b
    ∙ ap (λ (q : Lifecycle). (q, false))
        (unwind-pending l pre bad.name (pending-names pre (bad ∷ post) f) f.0)

-- What a start and a shutdown call, where no later step has the name of an earlier one. If every step
-- of `pre` starts, a start goes through, and the shutdown after it calls their hooks in reverse. If a
-- step after them fails, the start calls those hooks too, no step after the failed one starts, and a
-- shutdown after it calls each hook a second time.
pub start_then_shutdown :
    (pre post : List Step) (bad : Step)
    → All (λ s. s.starts ≡ true) pre
    → bad.starts ≡ false
    → Fresh pre (bad ∷ post)
    → let whole = start (new_lifecycle pre) in
      let failed = start (new_lifecycle (pre ++ bad ∷ post)) in
      (whole.1 ≡ true)
      × ((shutdown whole.0).calls ≡ starts_of pre ++ hooks (reversed pre))
      × (failed.1 ≡ false)
      × (failed.0.calls ≡ starts_of pre ++ hooks (reversed pre))
      × ((shutdown failed.0).calls ≡ starts_of pre ++ hooks (reversed pre) ++ hooks (reversed pre))
start_then_shutdown pre post bad g b f =
    let steps = pre ++ bad ∷ post in
    let down = starts_of pre ++ hooks (reversed pre) in
    let all_pending =
      ap (select (λ s. contains (names_of pre) s.name)) (sym (append-nil pre))
      ∙ pending-names pre [] tt in
    rw (start-whole pre g, start-failed pre post bad g b f)
      (
        refl,
        shutdown-pending (started_with pre pre (starts_of pre)) pre all_pending,
        refl,
        refl,
        shutdown-pending (started_with steps pre down) pre (pending-names pre (bad ∷ post) f),
      )
