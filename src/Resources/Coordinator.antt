-- ===== src/Resources/Coordinator.antt =====
-- `ResourceListRequestCoordinator`, of website/src/features/resources/resourceListRequestCoordinator.ts.
-- An `AbortController` is a number, drawn in order of creation; its signal has the same number, and
-- `aborted` says which signals have fired. Only the coordinator holds the controllers.
pub mod Lifecycle
pub mod Traces
use kuviewer.Base.{
  ℕ, ◌+◌, Bool, true, false, not, ◌&&◌, ◌||◌, Option, none, some, ◌==◌, if◌then◌else◌,
}

pub data RequestKind : Type 0 where
  primary page : RequestKind

pub record Ticket : Type 0 where
  pub generation : ℕ
  pub kind : RequestKind
  pub signal : ℕ

pub record Coordinator : Type 0 where
  pub generation : ℕ
  pub primary_controller : Option ℕ
  pub page_controller : Option ℕ
  pub aborted : ℕ → Bool
  pub next : ℕ

-- A new coordinator, before any controller is made.
abbrev pub initial : Coordinator
initial = record {
  generation = 0;
  primary_controller = none;
  page_controller = none;
  aborted = λ c. false;
  next = 0;
}

-- `controller?.abort()`.
abbrev pub abort : Option ℕ → (ℕ → Bool) → ℕ → Bool
abort none aborted c = aborted c
abort (some k) aborted c = c == k || aborted c

-- `controller?.signal === signal`.
abbrev pub owns : Option ℕ → ℕ → Bool
owns none signal = false
owns (some k) signal = k == signal

unfoldable pub invalidate : Coordinator → Coordinator
invalidate s = record s {
  generation = s.generation + 1;
  primary_controller = none;
  page_controller = none;
  aborted = abort s.page_controller (abort s.primary_controller s.aborted);
}

abbrev pub ticket : Coordinator → RequestKind → ℕ → Ticket
ticket s kind controller = record { generation = s.generation; kind = kind; signal = controller }

unfoldable pub begin_primary : Coordinator → Coordinator × Ticket
unfolding invalidate
begin_primary s =
    let t = invalidate s in
    let u : Coordinator = record t { primary_controller = some t.next; next = t.next + 1 } in
    (u, ticket u primary t.next)

unfoldable pub begin_page : Coordinator → Coordinator × Ticket
begin_page s =
    let u : Coordinator = record s {
      page_controller = some s.next;
      aborted = abort s.page_controller s.aborted;
      next = s.next + 1;
    } in
    (u, ticket u page s.next)

abbrev pub active_controller : Coordinator → RequestKind → Option ℕ
active_controller s primary = s.primary_controller
active_controller s page = s.page_controller

unfoldable pub is_current : Coordinator → Ticket → Bool
is_current s t =
    t.generation == s.generation
    && not (s.aborted t.signal)
    && owns (active_controller s t.kind) t.signal

abbrev pub release : Coordinator → RequestKind → Coordinator
release s primary = record s { primary_controller = none }
release s page = record s { page_controller = none }

unfoldable pub finish : Coordinator → Ticket → Coordinator × Bool
unfolding is_current
finish s t = if is_current s t then (release s t.kind, true) else (s, false)

unfoldable pub cancel_generation : Coordinator → ℕ → Coordinator × Bool
unfolding invalidate
cancel_generation s generation =
    if generation == s.generation then (invalidate s, true) else (s, false)
