-- ===== src/Tests/Coordinator.antt =====
-- The request coordinator: a page request is superseded by a second one.
use kuviewer.Base.{◌≡◌, refl, true, false, arith, ◌&&◌}
use kuviewer.Resources.Coordinator.{
  Coordinator, Ticket, initial, begin_page, is_current, invalidate,
}
use kuviewer.Resources.Coordinator.Lifecycle.{IsIssued}
use kuviewer.Resources.Coordinator.Traces.{
  start_page, invalidated, here, next, stale_forever, begin_page-supersedes,
}

abbrev first : Coordinator
unfolding begin_page
first = (begin_page initial).0

abbrev first_ticket : Ticket
unfolding begin_page
first_ticket = (begin_page initial).1

abbrev second : Coordinator
unfolding begin_page
second = (begin_page first).0

first_ticket-IsIssued : IsIssued first first_ticket
unfolding first first_ticket
first_ticket-IsIssued = record { past = omega arith; made = omega arith }

first_ticket-IsIssued-second : IsIssued second first_ticket
unfolding second first_ticket
first_ticket-IsIssued-second = record { past = omega arith; made = omega arith }

first_ticket-stale : is_current second first_ticket ≡ false
unfolding is_current second first_ticket
first_ticket-stale = refl

first_ticket-current : is_current first first_ticket ≡ true
unfolding is_current first first_ticket
first_ticket-current = refl

stale_forever_example : is_current (invalidate second) first_ticket ≡ false
stale_forever_example =
    stale_forever first_ticket (next here (invalidated second)) first_ticket-IsIssued-second
      first_ticket-stale

begin_page-supersedes_example :
    (is_current (begin_page first).0 (begin_page first).1 ≡ true)
    × (is_current (begin_page first).0 first_ticket ≡ (false && is_current first first_ticket))
unfolding first first_ticket
begin_page-supersedes_example =
    begin_page-supersedes first first_ticket (next here (start_page initial)) first_ticket-IsIssued
