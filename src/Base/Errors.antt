-- ===== src/Base/Errors.antt =====
-- Results of code that throws. `MeteoException` carries a reason; the added information is for the
-- log and is left out. `undefined` marks an access that C++ gives no meaning to.
use mathlib.Core.Bool.{Bool, true, false}

pub data Reason : Type 0 where
  undefined : Reason
  invalid_data no_payload already_managed unknown_reader : Reason
  timeout cannot_send cannot_receive no_ack bad_header wrong_crc wakeup_failed : Reason
  illegal_label illegal_interval cannot_go_up cannot_go_down : Reason
  unknown_unit_from unknown_unit_to unknown_class wrong_class : Reason
  no_value zero_duration division_by_zero : Reason
  reader_not_found unknown_station sensor_not_found field_exists field_not_found : Reason
  duplicate_name duplicate_id no_fields query_corrupt : Reason
  not_received no_preferences no_datasink : Reason
  two_dots_needed nothing_known : Reason
  no_children no_attribute unknown_node unknown_data too_small : Reason
  no_range no_limit cannot_run cannot_release : Reason
  unsupported_field inconsistent_times no_timekey : Reason

pub data Result {ℓ} (A : Type ℓ) : Type ℓ where
  ok : A → Result A
  err : Reason → Result A

infixl 5 ◌>>=◌
abbrev pub ◌>>=◌ {ℓ κ} : {A : Type ℓ} {B : Type κ} → Result A → (A → Result B) → Result B
ok a >>= f = f a
err e >>= f = err e

abbrev pub is_ok {ℓ} : {A : Type ℓ} → Result A → Bool
is_ok (ok _) = true
is_ok (err _) = false
