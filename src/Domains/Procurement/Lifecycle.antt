-- ===== src/Domains/Procurement/Lifecycle.antt =====
-- What holds of a procurement request over every sequence of transitions that succeed.
use cax_commerce_operations.Prelude.{◌⊎◌, inl, inr, ◌≡◌, ◌≢◌, List, [], ◌∷◌, arith}
use cax_commerce_operations.Errors.{Result, ok, err, Result-cases}
use cax_commerce_operations.Persistence.Enums.{ProcurementStatus}
use cax_commerce_operations.Domains.Procurement.{ProcurementTransition, transition}

-- A sequence of transitions, each from where the one before it led.
unfoldable pub transitions : ProcurementStatus → List ProcurementStatus → Result ProcurementStatus
transitions s [] = ok s
transitions s (target ∷ targets) = elim (transition s target) [
  | ok change ↦ transitions change.current targets
  | err e ↦ err e
]

-- The one way to `received`.
abbrev pub way_to_received : ProcurementStatus → List ProcurementStatus
way_to_received ProcurementStatus.proposed =
    ProcurementStatus.awaiting_approval ∷ ProcurementStatus.approved ∷ ProcurementStatus.ordered
    ∷ ProcurementStatus.shipped ∷ ProcurementStatus.received ∷ []
way_to_received ProcurementStatus.awaiting_approval =
    ProcurementStatus.approved ∷ ProcurementStatus.ordered ∷ ProcurementStatus.shipped
    ∷ ProcurementStatus.received ∷ []
way_to_received ProcurementStatus.approved =
    ProcurementStatus.ordered ∷ ProcurementStatus.shipped ∷ ProcurementStatus.received ∷ []
way_to_received ProcurementStatus.ordered =
    ProcurementStatus.shipped ∷ ProcurementStatus.received ∷ []
way_to_received ProcurementStatus.shipped = ProcurementStatus.received ∷ []
way_to_received ProcurementStatus.received = []
way_to_received ProcurementStatus.cancelled = []

cancelled_stays :
    (ts : List ProcurementStatus)
    → transitions ProcurementStatus.cancelled ts ≢ ok ProcurementStatus.received
unfolding transitions transition
cancelled_stays [] h = cc
cancelled_stays (t ∷ ts) h = ground arith

way-step :
    (s t : ProcurementStatus) (c : ProcurementTransition)
    → transition s t ≡ ok c
    → (c.current ≡ t)
      × ((t ≡ ProcurementStatus.cancelled) ⊎ (way_to_received s ≡ t ∷ way_to_received t))
unfolding transition
way-step s t c h = ground arith

received_way :
    (s : ProcurementStatus) (ts : List ProcurementStatus)
    → transitions s ts ≡ ok ProcurementStatus.received
    → ts ≡ way_to_received s
unfolding transitions
received_way s [] h = ground arith
received_way s (t ∷ ts) h = elim (Result-cases (transition s t)) [
  | inl (c, e) ↦ ground (arith, way-step s t c e, received_way t ts, cancelled_stays ts)
  | inr (e, f) ↦ ground arith
]

-- Goods are received only along one path: a sequence of transitions that takes a proposed request
-- to `received` goes through approval, ordering and shipping, in that order, and does nothing else.
pub proposed_to_received :
    (targets : List ProcurementStatus)
    → transitions ProcurementStatus.proposed targets ≡ ok ProcurementStatus.received
    → targets ≡ way_to_received ProcurementStatus.proposed
proposed_to_received targets h = received_way ProcurementStatus.proposed targets h
