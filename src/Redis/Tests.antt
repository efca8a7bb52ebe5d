-- ===== src/Redis/Tests.antt =====
-- Ids and messages, read on concrete inputs.
use bid_lane.Prelude.{refl, ◌≡◌, ◌∷◌, [], codes, text_eq, arith}
use bid_lane.Prelude.Int.{pos}
use bid_lane.Go.Strconv.{parse_int, parse_uint, split_once}
use bid_lane.Go.Time.{unix_milli}
use bid_lane.Redis.StreamId.{
  at, fails, bad_sequence, invalid_stream_id, stream_entry_time, stream_id,
  stream_entry_time-stream_id,
}
use bid_lane.Redis.Message.{
  BidIngress, BidStreamEntry, XMessage, bytes, string, parsed, get_value, field_string,
  parse_amount, parse_message, append_values, IsReadFrom, parse_message-append, parse_message_sound,
}

run_id : stream_entry_time (codes "1700000000000-3") ≡ at (unix_milli 1700000000000)
unfolding stream_entry_time split_once parse_int parse_uint
run_id = refl

run_id_negative : stream_entry_time (codes "-1-0") ≡ fails invalid_stream_id
unfolding stream_entry_time split_once parse_int parse_uint
run_id_negative = refl

run_id_words : stream_entry_time (codes "5-x") ≡ fails bad_sequence
unfolding stream_entry_time split_once parse_int parse_uint
run_id_words = refl

stream_entry_time-stream_id_example :
    stream_entry_time (stream_id 1700000000000 3) ≡ at (unix_milli 1700000000000)
stream_entry_time-stream_id_example =
    stream_entry_time-stream_id 1700000000000 3 (omega arith) (omega arith)

abbrev bid : BidIngress
bid = record {
  auction_id = codes "a";
  bidder_id = codes "b";
  amount = pos 50;
  idempotency_key = codes "k";
  correlation_id = codes "c";
}

-- The fields in another order, one of them as bytes.
abbrev message : XMessage
message = record {
  id = codes "7-0";
  values =
      (codes "amount", string (codes "50"))
      ∷ (codes "correlation_id", bytes (codes "c"))
      ∷ (codes "bidder_id", string (codes "b"))
      ∷ (codes "auction_id", string (codes "a"))
      ∷ (codes "idempotency_key", string (codes "k"))
      ∷ [];
}

abbrev entry : BidStreamEntry
entry = record { id = codes "7-0"; ingress = bid }

run_message : parse_message message ≡ parsed entry
unfolding parse_message field_string get_value parse_amount parse_int text_eq
run_message = refl

parse_message_sound_example : IsReadFrom message entry
parse_message_sound_example = parse_message_sound message entry run_message

parse_message-append_example :
    parse_message (record { id = codes "7-0"; values = append_values bid }) ≡ parsed entry
parse_message-append_example =
    parse_message-append (codes "7-0") bid (append_values bid) (λ e. cc) (omega arith, omega arith)
      λ key h. refl
