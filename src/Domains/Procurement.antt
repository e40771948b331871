-- ===== src/Domains/Procurement.antt =====
-- src/commerce_operations/domains/procurement/model.py: the procurement state machine.
pub mod Lifecycle
use cax_commerce_operations.Prelude.{List, [], ◌∷◌, not, contains, if◌then◌else◌}
use cax_commerce_operations.Errors.{Error, Result, ok, err}
use cax_commerce_operations.Persistence.Enums.{ProcurementStatus, Eq-procurement_status}

abbrev pub allowed_transitions : ProcurementStatus → List ProcurementStatus
allowed_transitions ProcurementStatus.proposed =
    ProcurementStatus.awaiting_approval ∷ ProcurementStatus.cancelled ∷ []
allowed_transitions ProcurementStatus.awaiting_approval =
    ProcurementStatus.approved ∷ ProcurementStatus.cancelled ∷ []
allowed_transitions ProcurementStatus.approved =
    ProcurementStatus.ordered ∷ ProcurementStatus.cancelled ∷ []
allowed_transitions ProcurementStatus.ordered = ProcurementStatus.shipped ∷ []
allowed_transitions ProcurementStatus.shipped = ProcurementStatus.received ∷ []
allowed_transitions ProcurementStatus.received = []
allowed_transitions ProcurementStatus.cancelled = []

pub record ProcurementTransition : Type 0 where
  pub previous : ProcurementStatus
  pub current : ProcurementStatus

unfoldable pub transition : ProcurementStatus → ProcurementStatus → Result ProcurementTransition
transition current target =
    if not (contains target (allowed_transitions current))
    then err Error.invalid_procurement_transition
    else ok (record { previous = current; current = target })
