-- ===== src/Domain/Seed.antt =====
-- lib/domain/seed.ts: the snapshot that a fresh store starts from.
use volta_hackathon.Prelude.{String, true, false, none, [], ◌∷◌}
use volta_hackathon.Domain.Types.{
  Operation, OperationStatus, OperationLanguage, Mandate, Carrier, LedgerEvent, Severity,
  OperationSnapshot, PayloadValue,
}

abbrev pub seed_time : String
seed_time = "2026-08-29T18:00:00.000Z"

abbrev pub seed_operation : Operation
seed_operation = record {
  id = "op-2041";
  reference = "OP-2041";
  customer = "Textiles Pacífico";
  container_reference = "CNTR-39201";
  pickup_location = "Port of Manzanillo";
  delivery_location = "Guadalajara";
  pickup_date = "2026-09-03";
  pickup_window_start = "08:00";
  pickup_window_end = "16:00";
  handoff_phone_e164 = none;
  language = OperationLanguage.es;
  status = OperationStatus.draft;
  created_at = seed_time;
  updated_at = seed_time;
}

abbrev pub seed_mandate : Mandate
seed_mandate = record {
  operation_id = "op-2041";
  currency = "MXN";
  target_rate = 8500;
  maximum_rate = 9000;
  negotiate_rate = true;
  change_pickup_day = false;
  accept_accessorials = false;
  maximum_counters = 2;
}

abbrev azul : Carrier
azul = record {
  id = "carrier-azul";
  operation_id = "op-2041";
  name = "Azul Cargo";
  dispatcher = "María Torres";
  phone_e164 = "+525500000101";
  email = none;
}

abbrev rutapac : Carrier
rutapac = record {
  id = "carrier-rutapac";
  operation_id = "op-2041";
  name = "RutaPac";
  dispatcher = "Carlos Medina";
  phone_e164 = "+525500000102";
  email = none;
}

abbrev manzanillo : Carrier
manzanillo = record {
  id = "carrier-manzanillo";
  operation_id = "op-2041";
  name = "Manzanillo Express";
  dispatcher = "Juan Ríos";
  phone_e164 = "+525500000103";
  email = none;
}

abbrev seed_event : LedgerEvent
seed_event = record {
  id = "event-seed";
  operation_id = "op-2041";
  call_id = none;
  type = "operation.seeded";
  severity = Severity.info;
  summary = "Human mandate created";
  payload = record { key = "source"; value = PayloadValue.text "demo_seed" } ∷ [];
  occurred_at = seed_time;
}

abbrev pub create_seed_snapshot : OperationSnapshot
create_seed_snapshot = record {
  version = 1;
  operation = seed_operation;
  mandate = seed_mandate;
  carriers = azul ∷ rutapac ∷ manzanillo ∷ [];
  calls = [];
  offers = [];
  commitment = none;
  evidence = none;
  escalation = none;
  transcripts = [];
  decisions = [];
  call_briefs = [];
  events = seed_event ∷ [];
}
