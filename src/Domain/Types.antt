-- ===== src/Domain/Types.antt =====
-- lib/domain/types.ts: the records and enumerations of an operation. Amounts, which the program
-- only compares and prints, are natural numbers; a field of type `string | null` is an `Option`.
-- `currency`, whose type has one value, stays a text, since an offer's currency is compared with
-- the mandate's at run time.
use volta_hackathon.Prelude.{ℕ, String, Bool, Option, List}

pub data OperationStatus : Type 0 where
  draft scanning quoted booking committed at_risk : OperationStatus

pub data CallMode : Type 0 where
  quote booking renegotiation inbound handoff : CallMode

pub data CallStatus : Type 0 where
  queued ringing in_progress completed failed : CallStatus

pub data CommitmentStatus : Type 0 where
  proposed verbally_confirmed recap_sent evidence_linked committed superseded rejected
        verification_failed escalated :
      CommitmentStatus

pub data EscalationStatus : Type 0 where
  open_ dialing connected resolved : EscalationStatus

pub data Severity : Type 0 where
  info success warning danger : Severity

pub data TranscriptSpeaker : Type 0 where
  agent counterparty : TranscriptSpeaker

pub data DecisionOutcome : Type 0 where
  allow block select escalate observe : DecisionOutcome

pub data DecisionSource : Type 0 where
  mandate_engine commitment_engine market_ranking : DecisionSource

pub data OperationLanguage : Type 0 where
  es pt en : OperationLanguage

pub data VoiceProvider : Type 0 where
  twilio whatsapp telnyx : VoiceProvider

pub record Operation : Type 0 where
  pub id : String
  pub reference : String
  pub customer : String
  pub container_reference : String
  pub pickup_location : String
  pub delivery_location : String
  pub pickup_date : String
  pub pickup_window_start : String
  pub pickup_window_end : String
  pub handoff_phone_e164 : Option String
  pub language : OperationLanguage
  pub status : OperationStatus
  pub created_at : String
  pub updated_at : String

pub record Mandate : Type 0 where
  pub operation_id : String
  pub currency : String
  pub target_rate : ℕ
  pub maximum_rate : ℕ
  pub negotiate_rate : Bool
  pub change_pickup_day : Bool
  pub accept_accessorials : Bool
  pub maximum_counters : ℕ

pub record Carrier : Type 0 where
  pub id : String
  pub operation_id : String
  pub name : String
  pub dispatcher : String
  pub phone_e164 : String
  pub email : Option String

pub record CallAttempt : Type 0 where
  pub id : String
  pub operation_id : String
  pub carrier_id : Option String
  pub mode : CallMode
  pub status : CallStatus
  pub conference_name : String
  pub twilio_call_sid : Option String
  pub twilio_agent_call_sid : Option String
  pub openai_call_id : Option String
  pub provider : Option VoiceProvider
  pub provider_call_id : Option String
  pub started_at : Option String
  pub ended_at : Option String
  pub failure_reason : Option String

pub record Offer : Type 0 where
  pub id : String
  pub operation_id : String
  pub carrier_id : String
  pub call_id : String
  pub revision : ℕ
  pub amount : ℕ
  pub currency : String
  pub pickup_date : String
  pub pickup_time : String
  pub conditions : List String
  pub eligible : Bool
  pub violations : List String
  pub superseded_at : Option String
  pub created_at : String

pub record Commitment : Type 0 where
  pub id : String
  pub operation_id : String
  pub carrier_id : String
  pub offer_id : String
  pub booking_call_id : String
  pub status : CommitmentStatus
  pub recap_text : String
  pub confirmation_token_hash : String
  pub token_expires_at : String
  pub verbally_confirmed_at : Option String
  pub recap_sent_at : Option String
  pub twilio_message_sid : Option String
  pub committed_at : Option String

pub record Evidence : Type 0 where
  pub id : String
  pub operation_id : String
  pub commitment_id : String
  pub call_id : String
  pub recording_url : String
  pub storage_path : Option String
  pub speaker : String
  pub segment_text : String
  pub start_seconds : ℕ
  pub end_seconds : ℕ
  pub verified_at : String

pub record Escalation : Type 0 where
  pub id : String
  pub operation_id : String
  pub call_id : String
  pub status : EscalationStatus
  pub reason : String
  pub requested_change : String
  pub created_at : String
  pub connected_at : Option String

-- What the program puts into the `unknown` values of a ledger payload.
pub data PayloadValue : Type 0 where
  null : PayloadValue
  text : String → PayloadValue
  number : ℕ → PayloadValue
  texts : List String → PayloadValue

pub record PayloadField : Type 0 where
  pub key : String
  pub value : PayloadValue

pub record LedgerEvent : Type 0 where
  pub id : String
  pub operation_id : String
  pub call_id : Option String
  pub type : String
  pub severity : Severity
  pub summary : String
  pub payload : List PayloadField
  pub occurred_at : String

pub record TranscriptSegment : Type 0 where
  pub id : String
  pub operation_id : String
  pub call_id : String
  pub speaker : TranscriptSpeaker
  pub provider_item_id : String
  pub text : String
  pub occurred_at : String

pub record OperationalDecision : Type 0 where
  pub id : String
  pub operation_id : String
  pub call_id : String
  pub kind : String
  pub outcome : DecisionOutcome
  pub rationale : String
  pub reason_codes : List String
  pub source : DecisionSource
  pub related_offer_id : Option String
  pub transcript_segment_ids : List String
  pub idempotency_key : String
  pub created_at : String

pub record CallBrief : Type 0 where
  pub id : String
  pub operation_id : String
  pub call_id : String
  pub carrier_id : Option String
  pub mode : CallMode
  pub outcome : CallStatus
  pub quoted_rates : List ℕ
  pub final_rate : Option ℕ
  pub conditions : List String
  pub changes : List String
  pub actions : List String
  pub relevant_mentions : List String
  pub created_at : String
  pub updated_at : String

pub record OperationSnapshot : Type 0 where
  pub version : ℕ
  pub operation : Operation
  pub mandate : Mandate
  pub carriers : List Carrier
  pub calls : List CallAttempt
  pub offers : List Offer
  pub commitment : Option Commitment
  pub evidence : Option Evidence
  pub escalation : Option Escalation
  pub transcripts : List TranscriptSegment
  pub decisions : List OperationalDecision
  pub call_briefs : List CallBrief
  pub events : List LedgerEvent

pub record OfferInput : Type 0 where
  pub operation_id : String
  pub carrier_id : String
  pub call_id : String
  pub amount : ℕ
  pub currency : String
  pub pickup_date : String
  pub pickup_time : String
  pub conditions : Option (List String)

pub record TranscriptInput : Type 0 where
  pub operation_id : String
  pub call_id : String
  pub speaker : TranscriptSpeaker
  pub provider_item_id : String
  pub text : String

pub record DecisionInput : Type 0 where
  pub operation_id : String
  pub call_id : String
  pub kind : String
  pub outcome : DecisionOutcome
  pub rationale : String
  pub reason_codes : Option (List String)
  pub source : DecisionSource
  pub related_offer_id : Option String
  pub transcript_segment_ids : Option (List String)
  pub idempotency_key : String
