-- ===== src/Persistence/Json.antt =====
-- The JSON columns: an object is a list of named fields. Ids and decimals are stored as the texts
-- of the values, which keep their kind here.
use cax_commerce_operations.Prelude.{
  ℕ, String, ◌≡◌, ◌↔◌, Bool, true, false, ◌&&◌, Option, List, [], ◌∷◌, arith, Eq, ◌==◌, Eq-nat,
  Eq-string, find,
}
use cax_commerce_operations.Prelude.Int.{ℤ, Eq-int}
use mathlib.Core.Option

pub data Json : Type 0 where
  null : Json
  flag : Bool → Json
  int : ℤ → Json
  text : String → Json
  -- str(uuid)
  ident : ℕ → Json
  -- str(Decimal), in ten-thousandths
  amount : ℤ → Json
  texts : List String → Json

abbrev pub texts_eq : List String → List String → Bool
texts_eq [] [] = true
texts_eq (s ∷ x) (t ∷ y) = s == t && texts_eq x y
texts_eq _ _ = false

pub texts_eq_iff : (x y : List String) → (texts_eq x y ≡ true) ↔ (x ≡ y)
texts_eq_iff [] [] = ground arith
texts_eq_iff (s ∷ x) (t ∷ y) = ground (arith, Eq-string.beq_iff s t, texts_eq_iff x y)
texts_eq_iff [] (t ∷ y) = ground arith
texts_eq_iff (s ∷ x) [] = ground arith

abbrev pub Object : Type 0
Object = List (String × Json)

abbrev pub bool_eq : Bool → Bool → Bool
bool_eq true b = b
bool_eq false true = false
bool_eq false false = true

abbrev pub json_eq : Json → Json → Bool
json_eq Json.null Json.null = true
json_eq (Json.flag a) (Json.flag b) = bool_eq a b
json_eq (Json.int a) (Json.int b) = a == b
json_eq (Json.text a) (Json.text b) = a == b
json_eq (Json.ident a) (Json.ident b) = a == b
json_eq (Json.amount a) (Json.amount b) = a == b
json_eq (Json.texts a) (Json.texts b) = texts_eq a b
json_eq _ _ = false

pub json_eq_iff : (a b : Json) → (json_eq a b ≡ true) ↔ (a ≡ b)
json_eq_iff (Json.flag a) (Json.flag b) = ground arith
json_eq_iff (Json.int a) (Json.int b) = ground (arith, Eq-int.beq_iff a b)
json_eq_iff (Json.text a) (Json.text b) = ground (arith, Eq-string.beq_iff a b)
json_eq_iff (Json.ident a) (Json.ident b) = ground arith
json_eq_iff (Json.amount a) (Json.amount b) = ground (arith, Eq-int.beq_iff a b)
json_eq_iff (Json.texts a) (Json.texts b) = ground (arith, texts_eq_iff a b)
json_eq_iff _ _ = ground arith

-- Objects are compared field by field, in the order in which they were built.
abbrev pub object_eq : Object → Object → Bool
object_eq [] [] = true
object_eq ((k, a) ∷ x) ((l, b) ∷ y) = k == l && json_eq a b && object_eq x y
object_eq _ _ = false

pub object_eq_iff : (x y : Object) → (object_eq x y ≡ true) ↔ (x ≡ y)
object_eq_iff [] [] = ground arith
object_eq_iff ((k, a) ∷ x) ((l, b) ∷ y) =
    ground (arith, Eq-string.beq_iff k l, json_eq_iff a b, object_eq_iff x y)
object_eq_iff [] (b ∷ y) = ground arith
object_eq_iff (a ∷ x) [] = ground arith

instance abbrev pub Eq-object : Eq Object
Eq-object = record { beq = object_eq; beq_iff = object_eq_iff }

-- `o.get(name)`
abbrev pub field : String → Object → Option Json
field name o = Option.map (λ e. e.1) (find (λ e. e.0 == name) o)
