-- ===== src/Events/Types/RoundTrip.antt =====
-- A stored event is read back as it was published.
use cax_commerce_operations.Prelude.{◌≡◌, true, none, some, refl, arith}
use cax_commerce_operations.Errors.{ok}
use cax_commerce_operations.Events.Types.{EventPayload, event_type_of, is_valid}
use cax_commerce_operations.Events.Types.Codec.{model_dump, decode_payload}

-- Every payload that meets the constraints of its class comes back from its JSON form under its
-- own event type.
pub decode_payload-model_dump :
    (p : EventPayload) → is_valid p ≡ true → decode_payload (event_type_of p) (model_dump p) ≡ ok p
unfolding decode_payload model_dump
decode_payload-model_dump (EventPayload.product_approved i s none none) h = refl
decode_payload-model_dump (EventPayload.product_approved i s none (some r)) h = refl
decode_payload-model_dump (EventPayload.product_approved i s (some w) none) h = refl
decode_payload-model_dump (EventPayload.product_approved i s (some w) (some r)) h = refl
decode_payload-model_dump (EventPayload.order_cancelled i none) h = refl
decode_payload-model_dump (EventPayload.order_cancelled i (some r)) h = refl
decode_payload-model_dump _ h = ground arith
