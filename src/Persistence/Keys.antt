-- ===== src/Persistence/Keys.antt =====
-- The idempotency keys and names that the services build with f-strings. A key keeps the parts of
-- its text: the fixed prefix, the id, and what follows. Keys of different parts are different
-- texts, as the prefixes are fixed words and an id always has the same length; of the texts that
-- other systems supply this assumes that they contain no colon.
use cax_commerce_operations.Prelude.{
  ℕ, String, ◌≡◌, ◌↔◌, Bool, true, false, ◌&&◌, arith, Eq, ◌==◌, Eq-nat, Eq-string,
}

pub data Key : Type 0 where
  -- a key that the caller supplies
  given : String → Key
  -- f"{prefix}:{id}"
  of_id : String → ℕ → Key
  -- f"{prefix}:{id}:{part}", or with the part before the id
  of_part : String → ℕ → String → Key
  -- f"order:{marketplace}:{account}:{external_id}"
  of_order : String → String → String → Key
  -- f"{source_system}:{product}:{workflow}"
  of_source : String → String → String → Key
  -- f"{prefix}:{source_system}:{product}"
  of_product : String → String → String → Key

abbrev pub key_eq : Key → Key → Bool
key_eq (Key.given s) (Key.given t) = s == t
key_eq (Key.of_id p i) (Key.of_id q j) = p == q && i == j
key_eq (Key.of_part p i s) (Key.of_part q j t) = p == q && i == j && s == t
key_eq (Key.of_order a b c) (Key.of_order x y z) = a == x && b == y && c == z
key_eq (Key.of_source a b c) (Key.of_source x y z) = a == x && b == y && c == z
key_eq (Key.of_product a b c) (Key.of_product x y z) = a == x && b == y && c == z
key_eq _ _ = false

pub key_eq_iff : (a b : Key) → (key_eq a b ≡ true) ↔ (a ≡ b)
key_eq_iff (Key.given s) (Key.given t) = ground (arith, Eq-string.beq_iff s t)
key_eq_iff (Key.of_id p i) (Key.of_id q j) = ground (arith, Eq-string.beq_iff p q)
key_eq_iff (Key.of_part p i s) (Key.of_part q j t) =
    ground (arith, Eq-string.beq_iff p q, Eq-string.beq_iff s t)
key_eq_iff (Key.of_order a b c) (Key.of_order x y z) =
    ground (arith, Eq-string.beq_iff a x, Eq-string.beq_iff b y, Eq-string.beq_iff c z)
key_eq_iff (Key.of_source a b c) (Key.of_source x y z) =
    ground (arith, Eq-string.beq_iff a x, Eq-string.beq_iff b y, Eq-string.beq_iff c z)
key_eq_iff (Key.of_product a b c) (Key.of_product x y z) =
    ground (arith, Eq-string.beq_iff a x, Eq-string.beq_iff b y, Eq-string.beq_iff c z)
key_eq_iff _ _ = ground arith

instance abbrev pub Eq-key : Eq Key
Eq-key = record { beq = key_eq; beq_iff = key_eq_iff }

-- A correlation id is the id of a row, or is made from a name (`uuid5`).
pub data CorrelationId : Type 0 where
  of_row : ℕ → CorrelationId
  of_name : Key → CorrelationId

abbrev pub correlation_eq : CorrelationId → CorrelationId → Bool
correlation_eq (CorrelationId.of_row a) (CorrelationId.of_row b) = a == b
correlation_eq (CorrelationId.of_name a) (CorrelationId.of_name b) = a == b
correlation_eq _ _ = false

-- The name of a workflow run: "orchestrator:" with the name of a definition, or another name.
pub data WorkflowName : Type 0 where
  orchestrated : String → WorkflowName
  plain : String → WorkflowName

abbrev pub name_eq : WorkflowName → WorkflowName → Bool
name_eq (WorkflowName.orchestrated a) (WorkflowName.orchestrated b) = a == b
name_eq (WorkflowName.plain a) (WorkflowName.plain b) = a == b
name_eq _ _ = false
