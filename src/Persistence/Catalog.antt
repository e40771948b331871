-- ===== src/Persistence/Catalog.antt =====
-- src/commerce_operations/persistence/models.py: products and their suppliers.
use cax_commerce_operations.Prelude.{ℕ, String, Option, List}
use cax_commerce_operations.Persistence.Json.{Object}
use cax_commerce_operations.Persistence.Tables.{HasId}

pub data ProductStatus : Type 0 where
  approved archived : ProductStatus

pub data SupplierStatus : Type 0 where
  active inactive : SupplierStatus

pub record Product : Type 0 where
  pub id : ℕ
  pub version : ℕ
  pub source_system : String
  pub external_product_id : String
  pub source_workflow_run_id : String
  pub source_recommendation_id : String
  pub source_payload_hash : ℕ
  pub name : String
  pub brand : Option String
  pub identifiers : Object
  pub attributes : Object
  pub recommendation_evidence : List Object
  pub status : ProductStatus

pub record Supplier : Type 0 where
  pub id : ℕ
  pub source_system : String
  pub external_supplier_id : String
  pub name : String
  pub contact_details : Object
  pub terms : Object
  pub status : SupplierStatus

instance abbrev pub HasId-product : HasId Product
HasId-product = record { id_of = λ r. r.id }

instance abbrev pub HasId-supplier : HasId Supplier
HasId-supplier = record { id_of = λ r. r.id }
