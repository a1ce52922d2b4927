-- ===== src/Api/Actions.antt =====
-- app/api/operations/[id]: the actions of an operator and the change of the configuration. `operator` is what
-- `requireOperator` returns or throws. The fields of a `PATCH` have passed the schema but for its
-- `superRefine`, which is here.
use volta_hackathon.Prelude.{
  ℕ, String, Option, none, some, List, [], ◌∷◌, ◌++◌, Bool, false, not, ltb, Result, ok, err,
  if◌then◌else◌, ◌⊎◌, inl, inr,
}
use volta_hackathon.Prelude.Text.{text_lt}
use volta_hackathon.Domain.Types.{CallAttempt, Carrier, OperationSnapshot}
use volta_hackathon.Store.Environment.{Environment}
use volta_hackathon.Store.Mutation.{World, reset}
use volta_hackathon.Store.Session.{Session, Interference, read, perform}
use volta_hackathon.Store.Configuration.{
  OperationPatch, CarrierPatch, ConfigurationInput, update_configuration,
}
use volta_hackathon.Services.Operations.{Legs, start_single_quote_call, start_renegotiation}
use volta_hackathon.Services.Verification.{Channels}
use volta_hackathon.Services.Market.{book_winning_offer}
use volta_hackathon.Services.Market.Scan.{start_market_scan}
use volta_hackathon.Services.Handoff.{HandoffProvider, take_over, simulate_inbound_exception}
use volta_hackathon.Api.Takeover.{Thrown, zod_error, plain_error, Failure, api_error}

pub record PatchInput : Type 0 where
  pub operation : OperationPatch
  pub target_rate : Option ℕ
  pub maximum_rate : Option ℕ
  pub negotiate_rate : Option Bool
  pub change_pickup_day : Option Bool
  pub accept_accessorials : Option Bool
  pub maximum_counters : Option ℕ
  pub carriers : Option (List CarrierPatch)
  -- The keys of the operation's own fields.
  pub keys : List String

abbrev rates_cross : Option ℕ → Option ℕ → Bool
rates_cross (some target) (some maximum) = ltb maximum target
rates_cross _ _ = false

abbrev window_crosses : Option String → Option String → Bool
window_crosses (some from) (some to) = not (text_lt from to)
window_crosses _ _ = false

abbrev issue_if : Bool → String → List String
issue_if broken message = if broken then message ∷ [] else []

-- The issues of `superRefine`. The schema has made sure that the times are not empty.
unfoldable pub refine : PatchInput → List String
refine input =
    issue_if (rates_cross input.target_rate input.maximum_rate)
      "Target rate cannot exceed the hard ceiling"
    ++ issue_if
        (window_crosses input.operation.pickup_window_start input.operation.pickup_window_end)
        "Pickup window start must be before its end"

abbrev carriers_key : Option (List CarrierPatch) → List String
carriers_key none = []
carriers_key (some carriers) = "carriers" ∷ []

-- The argument of `updateConfiguration`. The mandate is always there, with the fields that came.
unfoldable pub configuration_of : PatchInput → ConfigurationInput
configuration_of input = record {
  operation = input.operation;
  mandate = some (record {
    operation_id = none;
    currency = none;
    target_rate = input.target_rate;
    maximum_rate = input.maximum_rate;
    negotiate_rate = input.negotiate_rate;
    change_pickup_day = input.change_pickup_day;
    accept_accessorials = input.accept_accessorials;
    maximum_counters = input.maximum_counters;
  });
  carriers = input.carriers;
  keys = input.keys ++ "mandate" ∷ carriers_key input.carriers;
}

abbrev pub Answer : Type 0
Answer = (OperationSnapshot ⊎ Failure) × World

-- `ok(await action)`, or `apiError` of what it throws.
abbrev answer_of : Session OperationSnapshot → World → Answer
answer_of action w =
    let (r, w') = action w in
    elim r [ ok s ↦ (inl s, w') | err message ↦ (inr (api_error (plain_error message)), w') ]

unfoldable pub as_operator : Result (Unit {0}) → Session OperationSnapshot → World → Answer
as_operator (err message) action w = (inr (api_error (plain_error message)), w)
as_operator (ok operator) action w = answer_of action w

module _ (env : Environment) (interference : Interference) (operator : Result (Unit {0}))
    (id : String) where
  unfoldable pub get_operation : Result (Unit {0}) → World → Answer
  get_operation session w = as_operator session (read id) w

  -- The body has passed the fields of the schema, or the schema has thrown.
  abbrev patch : Thrown ⊎ PatchInput → World → Answer
  patch (inl thrown) w = (inr (api_error thrown), w)
  patch (inr input) w = elim (refine input) [
    | issue ∷ issues ↦ (inr (api_error zod_error), w)
    | [] ↦
        answer_of (perform env interference (update_configuration env id (configuration_of input)))
          w
  ]

  unfoldable pub patch_operation : Thrown ⊎ PatchInput → World → Answer
  patch_operation body w = elim operator [
    | err message ↦ (inr (api_error (plain_error message)), w)
    | ok session ↦ patch body w
  ]

  unfoldable pub post_reset : World → Answer
  post_reset w = as_operator operator (λ w. let (s, w') = reset w in (ok s, w')) w

  module _ (dial_voice_call : CallAttempt → Carrier → Result Legs) (live : Bool) where
    unfoldable pub post_scan : Channels → (List CallAttempt → List CallAttempt) → World → Answer
    post_scan channels arrange w =
        as_operator operator
          (start_market_scan env interference channels dial_voice_call arrange live id) w

    unfoldable pub post_book : Channels → World → Answer
    post_book channels w =
        as_operator operator (book_winning_offer env interference channels dial_voice_call live id)
          w

    unfoldable pub post_renegotiate : World → Answer
    post_renegotiate w =
        as_operator operator (start_renegotiation env interference dial_voice_call live id) w

    unfoldable pub post_test_call : String → World → Answer
    post_test_call carrier_id w =
        as_operator operator
          (start_single_quote_call env interference dial_voice_call live id carrier_id) w

    unfoldable pub post_takeover : HandoffProvider → World → Answer
    post_takeover provider w = as_operator operator (take_over env interference provider live id) w

  unfoldable pub post_simulate_inbound : HandoffProvider → Bool → World → Answer
  post_simulate_inbound provider live w =
      as_operator operator (simulate_inbound_exception env interference provider live id) w
