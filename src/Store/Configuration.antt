-- ===== src/Store/Configuration.antt =====
-- lib/store/base.ts: `updateConfiguration`. A key that the input leaves out is `none`.
pub mod Identity
use volta_hackathon.Prelude.{
  ℕ, String, Option, none, some, List, [], ◌∷◌, map, ◌==◌, Bool, false, not, ◌||◌, any, length, eqb,
  is_some, or_else, if◌then◌else◌,
}
use volta_hackathon.Prelude.Text.{distinct}
use volta_hackathon.Domain.Types.{
  Carrier, Mandate, Operation, OperationLanguage, OperationSnapshot, OperationStatus, PayloadValue,
}
use volta_hackathon.Store.Environment.{Environment}
use volta_hackathon.Store.Action.{Action, gets, throw_if, modify, ◌>>=◌, ◌>>◌}
use volta_hackathon.Store.Ledger.{push_event, field}

-- `Partial<Operation>`
pub record OperationPatch : Type 0 where
  pub id : Option String
  pub reference : Option String
  pub customer : Option String
  pub container_reference : Option String
  pub pickup_location : Option String
  pub delivery_location : Option String
  pub pickup_date : Option String
  pub pickup_window_start : Option String
  pub pickup_window_end : Option String
  pub handoff_phone_e164 : Option (Option String)
  pub language : Option OperationLanguage
  pub status : Option OperationStatus
  pub created_at : Option String
  pub updated_at : Option String

-- `Partial<Mandate>`
pub record MandatePatch : Type 0 where
  pub operation_id : Option String
  pub currency : Option String
  pub target_rate : Option ℕ
  pub maximum_rate : Option ℕ
  pub negotiate_rate : Option Bool
  pub change_pickup_day : Option Bool
  pub accept_accessorials : Option Bool
  pub maximum_counters : Option ℕ

pub record CarrierPatch : Type 0 where
  pub id : String
  pub name : String
  pub dispatcher : String
  pub phone_e164 : String
  pub email : Option (Option String)

pub record ConfigurationInput : Type 0 where
  pub operation : OperationPatch
  pub mandate : Option MandatePatch
  pub carriers : Option (List CarrierPatch)
  -- `Object.keys(input)`
  pub keys : List String

-- `{ ...snapshot.operation, ...operation }`
unfoldable pub merged_operation : OperationPatch → Operation → Operation
merged_operation p o = record {
  id = or_else p.id o.id;
  reference = or_else p.reference o.reference;
  customer = or_else p.customer o.customer;
  container_reference = or_else p.container_reference o.container_reference;
  pickup_location = or_else p.pickup_location o.pickup_location;
  delivery_location = or_else p.delivery_location o.delivery_location;
  pickup_date = or_else p.pickup_date o.pickup_date;
  pickup_window_start = or_else p.pickup_window_start o.pickup_window_start;
  pickup_window_end = or_else p.pickup_window_end o.pickup_window_end;
  handoff_phone_e164 = or_else p.handoff_phone_e164 o.handoff_phone_e164;
  language = or_else p.language o.language;
  status = or_else p.status o.status;
  created_at = or_else p.created_at o.created_at;
  updated_at = or_else p.updated_at o.updated_at;
}

-- `{ …, id: snapshot.operation.id }`: a patch does not rename the operation.
unfoldable pub patched_operation : OperationPatch → Operation → Operation
unfolding merged_operation
patched_operation p o = record (merged_operation p o) { id = o.id }

-- `{ ...snapshot.mandate, ...mandate }`
unfoldable pub merged_mandate : Option MandatePatch → Mandate → Mandate
merged_mandate none m = m
merged_mandate (some p) m = record {
  operation_id = or_else p.operation_id m.operation_id;
  currency = or_else p.currency m.currency;
  target_rate = or_else p.target_rate m.target_rate;
  maximum_rate = or_else p.maximum_rate m.maximum_rate;
  negotiate_rate = or_else p.negotiate_rate m.negotiate_rate;
  change_pickup_day = or_else p.change_pickup_day m.change_pickup_day;
  accept_accessorials = or_else p.accept_accessorials m.accept_accessorials;
  maximum_counters = or_else p.maximum_counters m.maximum_counters;
}

-- `{ …, operationId }`
unfoldable pub patched_mandate : String → Option MandatePatch → Mandate → Mandate
unfolding merged_mandate
patched_mandate operation_id p m = record (merged_mandate p m) { operation_id = operation_id }

-- `updates.get(id)`: a later entry of the list wins.
unfoldable pub update_of : String → List CarrierPatch → Option CarrierPatch
update_of id [] = none
update_of id (patch ∷ patches) = elim (update_of id patches) [
  | some later ↦ some later
  | none ↦ if patch.id == id then some patch else none
]

unfoldable pub patched_carrier : String → Option CarrierPatch → Carrier → Carrier
patched_carrier operation_id none c = record c { operation_id = operation_id }
patched_carrier operation_id (some p) c = record {
  id = p.id;
  operation_id = operation_id;
  name = p.name;
  dispatcher = p.dispatcher;
  phone_e164 = p.phone_e164;
  email = or_else p.email c.email;
}

-- `updates.size !== carriers.length || carriers.some((carrier) => !updates.has(carrier.id))`
unfoldable pub leaves_out : List CarrierPatch → List Carrier → Bool
leaves_out patches carriers =
    not (eqb (length (distinct (map (λ p. p.id) patches))) (length carriers))
    || any (λ carrier. not (is_some (update_of carrier.id patches))) carriers

abbrev pub is_incomplete : Option (List CarrierPatch) → List Carrier → Bool
is_incomplete none carriers = false
is_incomplete (some patches) carriers = leaves_out patches carriers

abbrev pub patched_carriers : String → Option (List CarrierPatch) → List Carrier → List Carrier
patched_carriers operation_id none carriers = carriers
patched_carriers operation_id (some patches) carriers =
    map (λ carrier. patched_carrier operation_id (update_of carrier.id patches) carrier) carriers

module _ (env : Environment) where
  unfoldable pub update_configuration : String → ConfigurationInput → Action OperationSnapshot
  update_configuration operation_id input = do
    s ← gets (λ s. s)
    throw_if (not (s.operation.id == operation_id)) "Operation not found"
    modify (λ s. record s {
      operation = patched_operation input.operation s.operation;
      mandate = patched_mandate operation_id input.mandate s.mandate;
    })
    throw_if (is_incomplete input.carriers s.carriers) "Every configured carrier must be provided"
    modify (λ s. record s { carriers = patched_carriers operation_id input.carriers s.carriers })
    push_event env (record {
      operation_id = operation_id;
      call_id = none;
      type = "mandate.updated";
      severity = none;
      summary = "Human mandate updated";
      payload = field "changedFields" (PayloadValue.texts input.keys) ∷ [];
    })
    gets (λ s. s)
