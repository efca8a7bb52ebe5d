-- ===== src/Engine/Validation/Acceptance.antt =====
-- Which bids EvaluateBid accepts, in true integers: no step of the price check overflows.
use bid_lane.Prelude.{
  refl, ◌∷◌, ◌≡◌, ◌≢◌, ◌↔◌, true, false, [], arith, text_eq_sound, text_eq_iff, is_empty, Text,
}
use bid_lane.Prelude.Int.{
  ℤ, pos, ◌+ℤ◌, ◌-ℤ◌, ◌≤ℤ◌, ◌<ℤ◌, int_laws, eqb_ℤ_iff, +ℤ_parts, -ℤ_parts, parts_disjoint,
}
use bid_lane.Go.Int64.{IsInt64, max_int64, add64, sub64, wrap64_id}
use bid_lane.Go.Time.{zero_time}
use bid_lane.Engine.Validation.{
  BidAttempt, AuctionValidationSnapshot, auction_state_open, evaluate_bid, price_checks,
  auction_checks,
}

-- What the program asks of a bid: complete identifiers, a positive amount, an open auction that
-- has not closed and knows the bidder, sound prices, and an amount of at least price + increment.
pub record IsAdmissible (attempt : BidAttempt) (auction : AuctionValidationSnapshot) : Type 0 where
  pub has_auction_id : attempt.auction_id ≢ []
  pub has_bidder_id : attempt.bidder_id ≢ []
  pub has_idempotency_key : attempt.idempotency_key ≢ []
  pub positive : pos 1 ≤ℤ attempt.amount
  pub has_submitted_at : attempt.submitted_at ≢ zero_time
  pub found : auction.exists ≡ true
  pub has_close_time : auction.effective_close_time ≢ zero_time
  pub is_open : auction.state ≡ auction_state_open
  pub registered : auction.bidder_registered ≡ true
  pub in_time : attempt.submitted_at <ℤ auction.effective_close_time
  pub sound_price : pos 0 ≤ℤ auction.current_price
  pub sound_increment : pos 1 ≤ℤ auction.increment
  pub fits : auction.current_price +ℤ auction.increment ≤ℤ max_int64
  pub enough : auction.current_price +ℤ auction.increment ≤ℤ attempt.amount

-- The snapshot's numbers are int64 values, as their Go types say.
abbrev pub HasInt64Prices : AuctionValidationSnapshot → Type 0
HasInt64Prices auction = IsInt64 auction.current_price × IsInt64 auction.increment

-- The guard of the overflow check computes without wrapping around.
pub sub64-max : (i : ℤ) → IsInt64 i → pos 1 ≤ℤ i → sub64 max_int64 i ≡ max_int64 -ℤ i
unfolding sub64
sub64-max i h p = wrap64_id _ (omega (int_laws, parts_disjoint (max_int64 -ℤ i), h.0, h.1))

-- So does the sum behind it.
pub add64_exact : (p i : ℤ) → pos 0 ≤ℤ p → pos 1 ≤ℤ i → p +ℤ i ≤ℤ max_int64 → add64 p i ≡ p +ℤ i
unfolding add64
add64_exact p i hp hi h = wrap64_id _ (omega (int_laws, parts_disjoint (p +ℤ i)))

pub is_empty_iff : (s : Text) → (is_empty s ≡ false) ↔ (s ≢ [])
is_empty_iff [] = (λ h. cc, λ h. absurd (h refl))
is_empty_iff (c ∷ s) = (λ h. cc, λ h. refl)

-- The price checks pass for sound prices that fit, and for no others.
price_checks-accepts :
    (attempt : BidAttempt) (auction : AuctionValidationSnapshot)
    → HasInt64Prices auction
    → pos 0 ≤ℤ auction.current_price
    → pos 1 ≤ℤ auction.increment
    → auction.current_price +ℤ auction.increment ≤ℤ max_int64
    → auction.current_price +ℤ auction.increment ≤ℤ attempt.amount
    → (price_checks attempt auction).accepted ≡ true
unfolding price_checks
price_checks-accepts attempt auction h hp hi hf he = ground (
  arith,
  sub64-max auction.increment h.1 hi,
  add64_exact auction.current_price auction.increment hp hi hf,
  -ℤ_parts max_int64 auction.increment,
  +ℤ_parts auction.current_price auction.increment,
)

price_checks_sound :
    (attempt : BidAttempt) (auction : AuctionValidationSnapshot)
    → HasInt64Prices auction
    → (price_checks attempt auction).accepted ≡ true
    → (pos 0 ≤ℤ auction.current_price)
      × (pos 1 ≤ℤ auction.increment)
      × (auction.current_price +ℤ auction.increment ≤ℤ max_int64)
      × (auction.current_price +ℤ auction.increment ≤ℤ attempt.amount)
unfolding price_checks
price_checks_sound attempt auction h e = ground (
  arith,
  sub64-max auction.increment h.1,
  add64_exact auction.current_price auction.increment,
  -ℤ_parts max_int64 auction.increment,
  +ℤ_parts auction.current_price auction.increment,
)

abbrev IsComplete : BidAttempt → Type 0
IsComplete attempt =
    (attempt.auction_id ≢ [])
    × (attempt.bidder_id ≢ [])
    × (attempt.idempotency_key ≢ [])
    × (pos 1 ≤ℤ attempt.amount)
    × (attempt.submitted_at ≢ zero_time)

-- The checks on the attempt alone, and those on the auction.
evaluate_bid_attempt :
    (attempt : BidAttempt) (auction : AuctionValidationSnapshot)
    → (evaluate_bid attempt auction).accepted ≡ true
    → IsComplete attempt × (evaluate_bid attempt auction ≡ auction_checks attempt auction)
unfolding evaluate_bid
evaluate_bid_attempt attempt auction e = ground (
  arith,
  is_empty_iff attempt.auction_id,
  is_empty_iff attempt.bidder_id,
  is_empty_iff attempt.idempotency_key,
  eqb_ℤ_iff attempt.submitted_at zero_time,
)

auction_checks_sound :
    (attempt : BidAttempt) (auction : AuctionValidationSnapshot)
    → (auction_checks attempt auction).accepted ≡ true
    → (auction.exists ≡ true)
      × (auction.effective_close_time ≢ zero_time)
      × (auction.state ≡ auction_state_open)
      × (auction.bidder_registered ≡ true)
      × (attempt.submitted_at <ℤ auction.effective_close_time)
      × (auction_checks attempt auction ≡ price_checks attempt auction)
unfolding auction_checks
auction_checks_sound attempt auction e = ground (
  arith,
  text_eq_sound auction.state auction_state_open,
  eqb_ℤ_iff auction.effective_close_time zero_time,
)

evaluate_bid_complete :
    (attempt : BidAttempt) (auction : AuctionValidationSnapshot)
    → IsComplete attempt
    → evaluate_bid attempt auction ≡ auction_checks attempt auction
unfolding evaluate_bid
evaluate_bid_complete attempt auction h = ground (
  arith,
  is_empty_iff attempt.auction_id,
  is_empty_iff attempt.bidder_id,
  is_empty_iff attempt.idempotency_key,
  eqb_ℤ_iff attempt.submitted_at zero_time,
)

auction_checks_complete :
    (attempt : BidAttempt) (auction : AuctionValidationSnapshot)
    → auction.exists ≡ true
    → auction.effective_close_time ≢ zero_time
    → auction.state ≡ auction_state_open
    → auction.bidder_registered ≡ true
    → attempt.submitted_at <ℤ auction.effective_close_time
    → auction_checks attempt auction ≡ price_checks attempt auction
unfolding auction_checks
auction_checks_complete attempt auction found close open_state registered in_time = ground (
  arith,
  (text_eq_iff auction.state auction_state_open).1 open_state,
  eqb_ℤ_iff auction.effective_close_time zero_time,
)

-- For int64 prices, EvaluateBid accepts exactly the bids with complete identifiers, a positive amount,
-- an open auction that has not closed, knows the bidder and has a price that is not negative and a
-- positive increment, and an amount of at least price + increment (I3, I6), in true integers: nothing
-- that wraps around is accepted.
pub evaluate_bid-accepts_iff :
    (attempt : BidAttempt) (auction : AuctionValidationSnapshot)
    → HasInt64Prices auction
    → ((evaluate_bid attempt auction).accepted ≡ true) ↔ IsAdmissible attempt auction
evaluate_bid-accepts_iff attempt auction h = (
  λ e.
      let (complete, to_auction) = evaluate_bid_attempt attempt auction e in
      let (found, close, open_state, registered, in_time, to_price) =
        auction_checks_sound attempt auction (rw to_auction at e) in
      let (price, increment, fits, enough) =
        price_checks_sound attempt auction h (rw (to_auction, to_price) at e) in
      record {
        has_auction_id = complete.0;
        has_bidder_id = complete.1;
        has_idempotency_key = complete.2;
        positive = complete.3;
        has_submitted_at = complete.4;
        found = found;
        has_close_time = close;
        is_open = open_state;
        registered = registered;
        in_time = in_time;
        sound_price = price;
        sound_increment = increment;
        fits = fits;
        enough = enough;
      },
  λ a.
      rw
        (
          evaluate_bid_complete attempt auction (
            a.has_auction_id, a.has_bidder_id, a.has_idempotency_key, a.positive,
            a.has_submitted_at,
          ),
          auction_checks_complete attempt auction a.found a.has_close_time a.is_open a.registered
              a.in_time,
        )
        (price_checks-accepts attempt auction h a.sound_price a.sound_increment a.fits a.enough),
)
