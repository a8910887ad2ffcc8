-- ===== src/Resources/Coordinator/Lifecycle.antt =====
-- What one call of the coordinator does to the tickets that it has given out.
use kuviewer.Base.{ℕ, ◌<◌, ◌≤◌, ◌≡◌, ◌≢◌, true, false, some, arith}
use kuviewer.Resources.Coordinator.{
  primary, page, Ticket, Coordinator, begin_primary, begin_page, is_current, finish,
}

-- The coordinator's own bookkeeping: a controller in use was made, has not fired and serves one
-- kind of request; no signal has fired before it was made.
pub record IsValid (s : Coordinator) : Type 0 where
  pub primary_made : (c : ℕ) → s.primary_controller ≡ some c → (c < s.next) × (s.aborted c ≡ false)
  pub page_made : (c : ℕ) → s.page_controller ≡ some c → (c < s.next) × (s.aborted c ≡ false)
  pub fired_made : (c : ℕ) → s.aborted c ≡ true → c < s.next
  pub apart : (c : ℕ) → s.primary_controller ≡ some c → s.page_controller ≢ some c

-- A ticket that the coordinator may have given out: of its past or present, on a made controller.
pub record IsIssued (s : Coordinator) (t : Ticket) : Type 0 where
  pub past : t.generation ≤ s.generation
  pub made : t.signal < s.next

pub begin_primary-current :
    (s : Coordinator) → IsValid s → is_current (begin_primary s).0 (begin_primary s).1 ≡ true
unfolding begin_primary is_current
begin_primary-current s v =
    ground (arith, v.fired_made s.next, v.primary_made s.next, v.page_made s.next)

pub begin_page-current :
    (s : Coordinator) → IsValid s → is_current (begin_page s).0 (begin_page s).1 ≡ true
unfolding begin_page is_current
begin_page-current s v = ground (arith, v.fired_made s.next, v.page_made s.next)

pub begin_primary-stale :
    (s : Coordinator) (t : Ticket) → IsIssued s t → is_current (begin_primary s).0 t ≡ false
unfolding begin_primary is_current
begin_primary-stale s t i = ground arith

pub begin_page-page_stale :
    (s : Coordinator) (t : Ticket)
    → IsIssued s t
    → t.kind ≡ page
    → is_current (begin_page s).0 t ≡ false
unfolding begin_page is_current
begin_page-page_stale s t i k = ground arith

pub begin_page-primary_kept :
    (s : Coordinator) (t : Ticket)
    → IsValid s
    → t.kind ≡ primary
    → is_current (begin_page s).0 t ≡ is_current s t
unfolding begin_page is_current
begin_page-primary_kept s t v k = ground (arith, v.apart t.signal)

-- Finishing the current request succeeds once: afterwards its ticket is no longer current, and
-- finishing it again fails.
pub finish_once :
    (s : Coordinator) (t : Ticket)
    → is_current s t ≡ true
    → ((finish s t).1 ≡ true)
      × (is_current (finish s t).0 t ≡ false)
      × ((finish (finish s t).0 t).1 ≡ false)
unfolding finish
finish_once s t h = ground arith

-- At most one ticket of each kind is current.
pub current_unique :
    (s : Coordinator) (t u : Ticket)
    → t.kind ≡ u.kind
    → is_current s t ≡ true
    → is_current s u ≡ true
    → t ≡ u
unfolding is_current
current_unique s t u k h j = ground arith
