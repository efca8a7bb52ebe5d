-- ===== src/Engine/Validation/Types.antt =====
-- The types and constants of internal/engine/bid_validation.go.
use bid_lane.Prelude.{Bool, Option, Text, codes}
use bid_lane.Prelude.Int.{ℤ}
use bid_lane.Go.Time.{Time}

-- A Go string type: any text is a state, eight are named.
abbrev pub AuctionState : Type 0
AuctionState = Text

abbrev pub auction_state_draft : AuctionState
auction_state_draft = codes "DRAFT"

abbrev pub auction_state_open : AuctionState
auction_state_open = codes "OPEN"

abbrev pub auction_state_paused : AuctionState
auction_state_paused = codes "PAUSED"

abbrev pub auction_state_closed : AuctionState
auction_state_closed = codes "CLOSED"

abbrev pub bid_rejected_event_type : Text
bid_rejected_event_type = codes "bid_rejected"

-- The constants of the string type, in the order of their declaration.
pub data BidRejectionReason : Type 0 where
  auction_id_required bidder_id_required idempotency_key_required : BidRejectionReason
  invalid_amount submitted_at_required auction_not_found : BidRejectionReason
  effective_close_time_required auction_not_open bidder_not_registered : BidRejectionReason
  bid_at_or_after_close invalid_current_price invalid_increment : BidRejectionReason
  pricing_overflow bid_below_minimum : BidRejectionReason

pub record BidAttempt : Type 0 where
  pub auction_id : Text
  pub bidder_id : Text
  pub amount : ℤ
  pub idempotency_key : Text
  pub correlation_id : Text
  pub stream_entry_id : Text
  pub submitted_at : Time

pub record AuctionValidationSnapshot : Type 0 where
  pub exists : Bool
  pub state : AuctionState
  pub current_price : ℤ
  pub increment : ℤ
  pub bidder_registered : Bool
  pub effective_close_time : Time

pub record BidRejectedEvent : Type 0 where
  pub event_type : Text
  pub reason_code : BidRejectionReason
  pub auction_id : Text
  pub bidder_id : Text
  pub idempotency_key : Text
  pub correlation_id : Text
  pub stream_entry_id : Text
  pub auction_state : AuctionState
  pub submitted_amount : ℤ
  pub current_price : ℤ
  pub increment : ℤ
  pub required_minimum : ℤ
  pub submitted_at : Time
  pub effective_close_time : Time

pub record BidValidationResult : Type 0 where
  pub accepted : Bool
  pub minimum_amount : ℤ
  pub rejection : Option BidRejectedEvent
