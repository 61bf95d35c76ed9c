-- ===== src/Lifecycle.antt =====
-- app/core/lifecycle.py: steps that start in order, unwind where one fails, and shut down in reverse.
pub mod Order
use text.Mathlib.Text.{◌==◌ as str_eq}
use employee_monitoring_app.Prelude.{
  Bool, true, false, List, [], ◌∷◌, ◌++◌, String, map, not, ◌&&◌, if◌then◌else◌,
}
use employee_monitoring_app.Db.Table.{select}
use employee_monitoring_app.SyncService.Screenshots.{contains}

-- _Step: `starts` is false where its start raises an Exception, `has_shutdown` where it has no hook.
pub record Step : Type 0 where
  pub name : String
  pub starts : Bool
  pub has_shutdown : Bool

-- A hook that was called. What a shutdown hook raises is logged.
pub data Call : Type 0 where
  start_call shutdown_call : String → Call

-- Lifecycle: the names of the steps that started, and the hooks that were called.
pub record Lifecycle : Type 0 where
  pub steps : List Step
  pub started : List String
  pub calls : List Call

-- The constructor, and the calls of `add`
abbrev pub new_lifecycle : List Step → Lifecycle
new_lifecycle steps = record { steps = steps; started = []; calls = [] }

abbrev pub reversed {ℓ} : {A : Type ℓ} → List A → List A
reversed [] = []
reversed (x ∷ xs) = reversed xs ++ x ∷ []

-- The steps that started, in the order of registration.
abbrev pub pending : Lifecycle → List Step
pending l = select (λ s. contains l.started s.name) l.steps

abbrev pub names_of : List Step → List String
names_of steps = map (λ (s : Step). s.name) steps

-- The shutdown hooks of some steps.
abbrev pub hooks : List Step → List Call
hooks steps =
    map (λ (s : Step). Call.shutdown_call s.name) (select (λ (s : Step). s.has_shutdown) steps)

-- shutdown; it does not forget what started.
unfoldable pub shutdown : Lifecycle → Lifecycle
shutdown l = record l { calls = l.calls ++ hooks (reversed (pending l)) }

-- _unwind
unfoldable pub unwind : String → Lifecycle → Lifecycle
unwind up_to l = record l {
  calls = l.calls ++ hooks (select (λ s. not (str_eq s.name up_to)) (reversed (pending l)));
}

-- The loop of start, and whether it goes through; otherwise it raises a ConfigurationError.
unfoldable pub start_from : List Step → Lifecycle → Lifecycle × Bool
unfolding unwind
start_from [] l = (l, true)
start_from (s ∷ ss) l =
    let rest = start_from ss (record l {
      started = l.started ++ s.name ∷ [];
      calls = l.calls ++ Call.start_call s.name ∷ [];
    }) in
    if s.starts then rest else (unwind s.name l, false)

-- start
unfoldable pub start : Lifecycle → Lifecycle × Bool
unfolding start_from
start l = start_from l.steps l
