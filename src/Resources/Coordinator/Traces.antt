-- ===== src/Resources/Coordinator/Traces.antt =====
-- Every way that the explorer may call the coordinator: a step for each method, and what holds
-- after any sequence of them.
use kuviewer.Base.{ℕ, ◌≡◌, Bool, true, false, ◌&&◌, arith, ◌==◌, Bool-cases, inl, inr}
use kuviewer.Resources.Coordinator.{
  RequestKind, primary, page, Ticket, Coordinator, initial, invalidate, begin_primary, begin_page,
  is_current, finish, cancel_generation,
}
use kuviewer.Resources.Coordinator.Lifecycle.{
  IsValid, IsIssued, begin_primary-current, begin_page-current, begin_primary-stale,
  begin_page-page_stale, begin_page-primary_kept,
}

pub data Step : Coordinator → Coordinator → Type 0 where
  start_primary : (s : Coordinator) → Step s (begin_primary s).0
  start_page : (s : Coordinator) → Step s (begin_page s).0
  finished : (s : Coordinator) (t : Ticket) → Step s (finish s t).0
  cancelled : (s : Coordinator) (g : ℕ) → Step s (cancel_generation s g).0
  invalidated : (s : Coordinator) → Step s (invalidate s)

pub data Reach (s : Coordinator) : Coordinator → Type 0 where
  here : Reach s s
  next : {t u : Coordinator} → Reach s t → Step t u → Reach s u

invalidate-IsValid : (s : Coordinator) → IsValid s → IsValid (invalidate s)
unfolding invalidate
invalidate-IsValid s v = record {
  primary_made = λ c h. ground arith;
  page_made = λ c h. ground arith;
  fired_made = λ c h. ground (arith, v.fired_made c, v.primary_made c, v.page_made c);
  apart = λ c h. ground arith;
}

begin_primary-IsValid : (s : Coordinator) → IsValid s → IsValid (begin_primary s).0
unfolding begin_primary
begin_primary-IsValid s v = record {
  primary_made = λ c h. ground (arith, v.fired_made c, v.primary_made c, v.page_made c);
  page_made = λ c h. ground arith;
  fired_made = λ c h. ground (arith, v.fired_made c, v.primary_made c, v.page_made c);
  apart = λ c h. ground arith;
}

begin_page-IsValid : (s : Coordinator) → IsValid s → IsValid (begin_page s).0
unfolding begin_page
begin_page-IsValid s v = record {
  primary_made = λ c h. ground (arith, v.primary_made c, v.apart c);
  page_made = λ c h. ground (arith, v.fired_made c, v.page_made c);
  fired_made = λ c h. ground (arith, v.fired_made c, v.page_made c);
  apart = λ c h. ground (arith, v.primary_made c, v.page_made c);
}

finish-IsValid : (s : Coordinator) (t : Ticket) → IsValid s → IsValid (finish s t).0
unfolding finish
finish-IsValid s t v = record {
  primary_made = λ c h. ground (arith, v.primary_made c);
  page_made = λ c h. ground (arith, v.page_made c);
  fired_made = λ c h. ground (arith, v.fired_made c);
  apart = λ c h. ground (arith, v.apart c);
}

cancel_generation-IsValid :
    (s : Coordinator) (g : ℕ) → IsValid s → IsValid (cancel_generation s g).0
unfolding cancel_generation
cancel_generation-IsValid s g v = elim (Bool-cases (g == s.generation)) [
  | inl same ↦ rw same (invalidate-IsValid s v)
  | inr other ↦ rw other v
]

Step-IsValid : {s t : Coordinator} → Step s t → IsValid s → IsValid t
Step-IsValid (start_primary s) v = begin_primary-IsValid s v
Step-IsValid (start_page s) v = begin_page-IsValid s v
Step-IsValid (finished s t) v = finish-IsValid s t v
Step-IsValid (cancelled s g) v = cancel_generation-IsValid s g v
Step-IsValid (invalidated s) v = invalidate-IsValid s v

initial-IsValid : IsValid initial
initial-IsValid = record {
  primary_made = λ c h. ground arith;
  page_made = λ c h. ground arith;
  fired_made = λ c h. ground arith;
  apart = λ c h. ground arith;
}

Reach-IsValid : {s : Coordinator} → Reach initial s → IsValid s
Reach-IsValid here = initial-IsValid
Reach-IsValid (next r st) = Step-IsValid st (Reach-IsValid r)

Step-IsIssued : {s u : Coordinator} (t : Ticket) → Step s u → IsIssued s t → IsIssued u t
unfolding begin_primary begin_page finish cancel_generation
Step-IsIssued t (start_primary s) i = ground arith
Step-IsIssued t (start_page s) i = ground arith
Step-IsIssued t (finished s u) i = ground arith
Step-IsIssued t (cancelled s g) i = ground arith
Step-IsIssued t (invalidated s) i = ground arith

Step-stale :
    {s u : Coordinator} (t : Ticket)
    → Step s u
    → IsIssued s t
    → is_current s t ≡ false
    → is_current u t ≡ false
unfolding begin_primary begin_page finish cancel_generation is_current
Step-stale t (start_primary s) i h = ground arith
Step-stale t (start_page s) i h = ground arith
Step-stale t (finished s u) i h = ground arith
Step-stale t (cancelled s g) i h = ground arith
Step-stale t (invalidated s) i h = ground arith

Reach-IsIssued : {s u : Coordinator} (t : Ticket) → Reach s u → IsIssued s t → IsIssued u t
Reach-IsIssued t here i = i
Reach-IsIssued t (next r st) i = Step-IsIssued t st (Reach-IsIssued t r i)

-- A ticket of a generation that was reached and of a controller that was made, as all tickets
-- given out are, that is no longer current never becomes current again, whatever calls follow.
pub stale_forever :
    {s u : Coordinator} (t : Ticket)
    → Reach s u
    → IsIssued s t
    → is_current s t ≡ false
    → is_current u t ≡ false
stale_forever t here i h = h
stale_forever t (next r st) i h = Step-stale t st (Reach-IsIssued t r i) (stale_forever t r i h)

-- In every coordinator that calls can lead to, a new primary request is the current one, and no
-- ticket of an earlier controller and of a generation reached before is, of either kind.
pub begin_primary-supersedes :
    (s : Coordinator) (t : Ticket)
    → Reach initial s
    → IsIssued s t
    → (is_current (begin_primary s).0 (begin_primary s).1 ≡ true)
      × (is_current (begin_primary s).0 t ≡ false)
begin_primary-supersedes s t r i =
    (begin_primary-current s (Reach-IsValid r), begin_primary-stale s t i)

abbrev pub is_primary : RequestKind → Bool
is_primary primary = true
is_primary page = false

-- In every coordinator that calls can lead to, a new page request is the current one; of the
-- tickets of earlier controllers and of generations reached before, those of pages are not current
-- and those of primary requests are current exactly where they were.
pub begin_page-supersedes :
    (s : Coordinator) (t : Ticket)
    → Reach initial s
    → IsIssued s t
    → (is_current (begin_page s).0 (begin_page s).1 ≡ true)
      × (is_current (begin_page s).0 t ≡ (is_primary t.kind && is_current s t))
begin_page-supersedes s t r i =
    let v = Reach-IsValid r in
    (
      begin_page-current s v,
      ground (arith, begin_page-page_stale s t i, begin_page-primary_kept s t v),
    )
