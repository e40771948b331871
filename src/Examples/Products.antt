-- ===== src/Examples/Products.antt =====
-- A product that the other system delivers twice.
use cax_commerce_operations.Prelude.{◌≡◌, refl, true, false, none, []}
use cax_commerce_operations.Prelude.Int.{pos}
use cax_commerce_operations.Errors.{ok}
use cax_commerce_operations.Persistence.Enums.{ProcurementStatus}
use cax_commerce_operations.Events.Store.{
  create_event, publish, publish_to, insert_event, to_record,
}
use cax_commerce_operations.Integrations.Contracts.{ApprovedProductRequestV1}
use cax_commerce_operations.Integrations.Products.{
  IngestionService, ApprovedProductResponseV1, identity_of, correlation_id, ingest, ingest_new,
  add_rows, find_or_add_supplier, add_quote_and_workflow, announce,
}
use cax_commerce_operations.Integrations.Products.Again.{AreFresh, ingest_again}
use cax_commerce_operations.Session.{Db, empty_db}
use cax_commerce_operations.Session.Actions.{new_id}

abbrev delivery : ApprovedProductRequestV1
delivery = record {
  source_system = "repository-1";
  source_product_id = "P-1";
  source_workflow_run_id = "W-1";
  source_recommendation_id = "R-1";
  product = record { name = "Lamp"; brand = none; identifiers = []; attributes = [] };
  selected_supplier = record {
    source_supplier_id = "S-1";
    name = "Lamps Ltd";
    contact_details = [];
    terms = [];
  };
  supplier_quote = record {
    source_quote_id = "Q-1";
    currency = "EUR";
    moq = 5;
    quantity = 10;
    unit_cost = 100000;
    shipping_cost = 50000;
    lead_time_days = 7;
    valid_until = none;
    source_reference = none;
  };
  economics = record {
    estimated_landed_cost_per_unit = 105000;
    recommended_selling_price = 200000;
    expected_profit_per_unit = 50000;
    margin_percent = pos 250000;
    roi_percent = pos 470000;
  };
  recommendation = record { evidence = []; decided_at = 10 };
}

abbrev service : IngestionService
service = record { payload_hash = λ r. r.supplier_quote.quantity }

abbrev answer : ApprovedProductResponseV1
answer = record {
  product_id = 0;
  procurement_request_id = 4;
  workflow_run_id = 3;
  event_id = 5;
  correlation_id = correlation_id (identity_of delivery) "W-1";
  procurement_status = ProcurementStatus.proposed;
  duplicate = false;
}

abbrev after : Db
after = (ingest service delivery "K-1" empty_db).1

taken_in : ingest service delivery "K-1" empty_db ≡ (ok answer, after)
unfolding ingest ingest_new add_rows find_or_add_supplier add_quote_and_workflow announce
    create_event publish publish_to insert_event to_record new_id
taken_in = refl

empty_db-AreFresh : AreFresh empty_db
empty_db-AreFresh = record { no_run = λ k le. refl; no_request = λ k le. refl }

ingest_again_example :
    ingest service delivery "K-2" after ≡ (ok (record answer { duplicate = true }), after)
ingest_again_example =
    ingest_again service delivery "K-1" "K-2" empty_db after answer empty_db-AreFresh taken_in
