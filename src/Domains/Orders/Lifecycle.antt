-- ===== src/Domains/Orders/Lifecycle.antt =====
-- What holds of an order over every sequence of requested statuses.
use cax_commerce_operations.Prelude.{
  ℕ, ◌+◌, ◌≤◌, ◌≡◌, ◌⊎◌, refl, Bool, true, false, List, [], ◌∷◌, arith, length, contains, ◌==◌,
  if◌then◌else◌,
}
use cax_commerce_operations.Errors.{Result, ok, err}
use cax_commerce_operations.Persistence.Enums.{OrderStatus, Eq-order_status}
use cax_commerce_operations.Domains.Orders.{transition_order}

-- A refused request leaves the order as it is.
abbrev settle : OrderStatus → Result OrderStatus → OrderStatus
settle s (ok t) = t
settle s (err e) = s

unfoldable pub next : OrderStatus → OrderStatus → OrderStatus
unfolding transition_order
next s target = settle s (transition_order s target)

-- The status after a sequence of requests.
unfoldable pub final : OrderStatus → List OrderStatus → OrderStatus
final s [] = s
final s (target ∷ targets) = final (next s target) targets

-- The statuses that the order changes to, in order.
unfoldable pub visited : OrderStatus → List OrderStatus → List OrderStatus
unfolding next
visited s [] = []
visited s (target ∷ targets) =
    let rest = visited (next s target) targets in
    if next s target == s then rest else next s target ∷ rest

-- How far along its life an order is; the longest life has six changes.
abbrev rank : OrderStatus → ℕ
rank OrderStatus.pending = 0
rank OrderStatus.paid = 1
rank OrderStatus.processing = 2
rank OrderStatus.dispatched = 3
rank OrderStatus.delivered = 4
rank OrderStatus.returned = 5
rank OrderStatus.cancelled = 6
rank OrderStatus.refunded = 6

next-rank :
    (s t : OrderStatus)
    → ((next s t == s) ≡ true) × (next s t ≡ s)
      ⊎ ((next s t == s) ≡ false) × (rank s + 1 ≤ rank (next s t))
unfolding next
next-rank s t = ground arith

length-visited :
    (s : OrderStatus) (targets : List OrderStatus) → length (visited s targets) + rank s ≤ 6
unfolding visited
length-visited s [] = ground arith
length-visited s (t ∷ ts) = ground (arith, next-rank s t, length-visited (next s t) ts)

-- Whatever statuses are requested, one after the other, an order changes its status at most six
-- times.
pub visited_bounded :
    (s : OrderStatus) (targets : List OrderStatus) → length (visited s targets) ≤ 6
visited_bounded s targets = omega (arith, length-visited s targets)

-- Once dispatched, an order stays dispatched, delivered, returned or refunded.
abbrev has_left : OrderStatus → Bool
has_left OrderStatus.dispatched = true
has_left OrderStatus.delivered = true
has_left OrderStatus.returned = true
has_left OrderStatus.refunded = true
has_left _ = false

next-has_left : (s t : OrderStatus) → has_left s ≡ true → has_left (next s t) ≡ true
unfolding next
next-has_left s t h = ground arith

next-cancelled : (t : OrderStatus) → next OrderStatus.cancelled t ≡ OrderStatus.cancelled
unfolding next
next-cancelled t = ground arith

cancelled_visits_none : (ts : List OrderStatus) → visited OrderStatus.cancelled ts ≡ []
unfolding visited
cancelled_visits_none [] = refl
cancelled_visits_none (t ∷ ts) = rw (next-cancelled t) (cancelled_visits_none ts)

left_never_cancelled :
    (s : OrderStatus) (ts : List OrderStatus)
    → has_left s ≡ true
    → contains OrderStatus.cancelled (visited s ts) ≡ false
unfolding visited
left_never_cancelled s [] h = refl
left_never_cancelled s (t ∷ ts) h =
    ground (arith, next-has_left s t h, left_never_cancelled (next s t) ts (next-has_left s t h))

-- An order that is cancelled at some point is dispatched at no point, in whatever order the
-- requests come: stock that left the warehouse is never released by a cancellation.
pub cancelled_never_dispatched :
    (s : OrderStatus) (targets : List OrderStatus)
    → contains OrderStatus.cancelled (visited s targets) ≡ true
    → contains OrderStatus.dispatched (visited s targets) ≡ false
unfolding visited
cancelled_never_dispatched s [] h = refl
cancelled_never_dispatched s (t ∷ ts) h = ground (
  arith,
  next-rank s t,
  cancelled_never_dispatched (next s t) ts,
  left_never_cancelled (next s t) ts,
  cancelled_visits_none ts,
)

-- Before the dispatch: where an order can still be without having been sent.
abbrev is_open : OrderStatus → Bool
is_open OrderStatus.pending = true
is_open OrderStatus.paid = true
is_open OrderStatus.processing = true
is_open _ = false

next-is_open :
    (s t : OrderStatus)
    → is_open s ≡ true
    → (is_open (next s t) ≡ true)
      ⊎ (next s t ≡ OrderStatus.cancelled)
      ⊎ ((s ≡ OrderStatus.processing) × (next s t ≡ OrderStatus.dispatched))
unfolding next
next-is_open s t h = ground arith

final-cancelled : (ts : List OrderStatus) → final OrderStatus.cancelled ts ≡ OrderStatus.cancelled
unfolding final
final-cancelled [] = refl
final-cancelled (t ∷ ts) = rw (next-cancelled t) (final-cancelled ts)

open_refunded :
    (s : OrderStatus) (ts : List OrderStatus)
    → is_open s ≡ true
    → final s ts ≡ OrderStatus.refunded
    → contains OrderStatus.dispatched (visited s ts) ≡ true
unfolding visited final
open_refunded s [] o h = ground arith
open_refunded s (t ∷ ts) o h =
    ground (arith, next-is_open s t o, open_refunded (next s t) ts, final-cancelled ts)

-- An order that arrives pending or paid and ends refunded has been dispatched on the way: no
-- sequence of requests refunds an order that was never sent.
pub refunded_was_dispatched :
    (s : OrderStatus) (targets : List OrderStatus)
    → (s ≡ OrderStatus.pending) ⊎ (s ≡ OrderStatus.paid)
    → final s targets ≡ OrderStatus.refunded
    → contains OrderStatus.dispatched (visited s targets) ≡ true
refunded_was_dispatched s ts start h = open_refunded s ts (ground arith) h
