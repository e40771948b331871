-- ===== src/Application/Stock/Purchases.antt =====
-- The procurement service leaves the stock alone.
use cax_commerce_operations.Prelude.{ℕ, refl, String, Option, Eq-nat}
use cax_commerce_operations.Errors.{Error, Result}
use cax_commerce_operations.Persistence.Enums.{ProcurementStatus}
use cax_commerce_operations.Persistence.Tables.{get}
use cax_commerce_operations.Persistence.Models.{
  ProcurementRequest, PurchaseOrder, WorkflowRun, HasId-procurement_request,
}
use cax_commerce_operations.Application.Procurement.{
  find_request, run_of, workflow_of, order_of, purchase_order_of, save_request, save_order,
  save_workflow, apply_transition, mark_received,
}
use cax_commerce_operations.Application.Stock.Keeps.{KeepsStock, KeepsStock-or_raise, keeps_laws}
use cax_commerce_operations.Session.{Db}
use cax_commerce_operations.Session.Actions.{lift, gets}

KeepsStock-find_request : (id : ℕ) → KeepsStock (find_request id)
KeepsStock-find_request id =
    KeepsStock-or_raise (λ s. get id s.requests) Error.procurement_not_found

KeepsStock-workflow_of : (r : ProcurementRequest) → KeepsStock (workflow_of r)
KeepsStock-workflow_of r =
    KeepsStock-or_raise (λ s. run_of r.workflow_run_id s) Error.procurement_not_found

KeepsStock-purchase_order_of : (id : ℕ) → KeepsStock (purchase_order_of id)
KeepsStock-purchase_order_of id =
    KeepsStock-or_raise (λ s. order_of id s) Error.purchase_order_not_found

KeepsStock-save_request : (r : ProcurementRequest) → KeepsStock (save_request r)
unfolding save_request
KeepsStock-save_request r = record { keeps = λ s. (refl, refl) }

pub KeepsStock-save_order : (o : PurchaseOrder) → KeepsStock (save_order o)
unfolding save_order
KeepsStock-save_order o = record { keeps = λ s. (refl, refl) }

KeepsStock-save_workflow : (w : WorkflowRun) → KeepsStock (save_workflow w)
unfolding save_workflow
KeepsStock-save_workflow w = record { keeps = λ s. (refl, refl) }

KeepsStock-lift {ℓ} : {A : Type ℓ} (r : Result A) → KeepsStock (lift r)
KeepsStock-lift r = record { keeps = λ s. (refl, refl) }

KeepsStock-gets {ℓ} : {A : Type ℓ} (f : Db → A) → KeepsStock (gets f)
KeepsStock-gets f = record { keeps = λ s. (refl, refl) }

KeepsStock-apply_transition :
    (r : ProcurementRequest) (target : ProcurementStatus) (actor reason : String)
    → KeepsStock (apply_transition r target actor reason)
unfolding apply_transition
KeepsStock-apply_transition r target actor reason =
    search (keeps_laws, KeepsStock-lift, KeepsStock-save_request, KeepsStock-workflow_of) depth 12

pub KeepsStock-mark_received :
    (id : ℕ) (actor reason : String) (at : Option ℕ) → KeepsStock (mark_received id actor reason at)
unfolding mark_received
KeepsStock-mark_received id actor reason at =
    search
      (
        keeps_laws, KeepsStock-gets, KeepsStock-find_request, KeepsStock-purchase_order_of,
        KeepsStock-apply_transition, KeepsStock-save_order, KeepsStock-workflow_of,
        KeepsStock-save_workflow,
      )
      depth 16
