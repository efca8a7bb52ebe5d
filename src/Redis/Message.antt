-- ===== src/Redis/Message.antt =====
-- fieldString and parseMessage of internal/store/redis/streams.go.
use bid_lane.Prelude.{
  refl, ◌≡◌, ◌≢◌, ◌∷◌, [], List, Option, none, some, Text, codes, is_empty, text_eq, text_eq_sound,
  text_eq_iff, arith, ◌⊎◌, inl, inr, subst, sym, Bool-cases, Option-cases, if◌then◌else◌,
}
use bid_lane.Prelude.Int.{ℤ}
use bid_lane.Go.Int64.{IsInt64}
use bid_lane.Go.Strconv.{parse_int, format_int}
use bid_lane.Go.Strconv.RoundTrip.{parse_int-format}

-- BidIngress, and an entry that was read from a stream.
pub record BidIngress : Type 0 where
  pub auction_id : Text
  pub bidder_id : Text
  pub amount : ℤ
  pub idempotency_key : Text
  pub correlation_id : Text

pub record BidStreamEntry : Type 0 where
  pub id : Text
  pub ingress : BidIngress
  pub open ingress use *

-- A value of a message: a string, bytes, or anything else by what fmt.Sprint prints of it.
pub data FieldValue : Type 0 where
  string bytes other : Text → FieldValue

abbrev pub Values : Type 0
Values = List (Text × FieldValue)

pub record XMessage : Type 0 where
  pub id : Text
  pub values : Values

pub data ParseError : Type 0 where
  id_missing : ParseError
  field_missing bad_amount : Text → ParseError

pub data Parsed (A : Type 0) : Type 0 where
  parsed : A → Parsed A
  refused : ParseError → Parsed A

infixl 5 ◌>>=◌
abbrev pub ◌>>=◌ : {A B : Type 0} → Parsed A → (A → Parsed B) → Parsed B
parsed a >>= f = f a
refused e >>= f = refused e

-- `values[key]`
unfoldable pub get_value : Text → Values → Option FieldValue
get_value key [] = none
get_value key ((k, v) ∷ values) = if text_eq k key then some v else get_value key values

abbrev as_text : FieldValue → Text
as_text (string s) = s
as_text (bytes s) = s
as_text (other s) = s

-- fieldString
unfoldable pub field_string : Values → Text → Parsed Text
field_string values key = elim (get_value key values) [
  | none ↦ refused (field_missing key)
  | some v ↦ parsed (as_text v)
]

unfoldable pub parse_amount : Text → Parsed ℤ
parse_amount text = elim (parse_int text) [ none ↦ refused (bad_amount text) | some n ↦ parsed n ]

abbrev present : Text → Parsed (Unit {0})
present id = if is_empty id then refused id_missing else parsed tt

-- parseMessage
unfoldable pub parse_message : XMessage → Parsed BidStreamEntry
parse_message message = do
  _ ← present message.id
  auction_id ← field_string message.values (codes "auction_id")
  bidder_id ← field_string message.values (codes "bidder_id")
  amount_text ← field_string message.values (codes "amount")
  amount ← parse_amount amount_text
  idempotency_key ← field_string message.values (codes "idempotency_key")
  correlation_id ← field_string message.values (codes "correlation_id")
  parsed (record {
    id = message.id;
    ingress = record {
      auction_id = auction_id;
      bidder_id = bidder_id;
      amount = amount;
      idempotency_key = idempotency_key;
      correlation_id = correlation_id;
    };
  })

-- The fields that AppendBid hands to XADD, an int64 printed in decimal as the client sends it.
abbrev pub append_values : BidIngress → Values
append_values bid =
    (codes "auction_id", string bid.auction_id)
    ∷ (codes "bidder_id", string bid.bidder_id)
    ∷ (codes "amount", string (format_int bid.amount))
    ∷ (codes "idempotency_key", string bid.idempotency_key)
    ∷ (codes "correlation_id", string bid.correlation_id)
    ∷ []

field_string-of :
    (values : Values) (key s : Text)
    → get_value key values ≡ some (string s)
    → field_string values key ≡ parsed s
unfolding field_string
field_string-of values key s e = ground arith

parse_amount-format : (n : ℤ) → IsInt64 n → parse_amount (format_int n) ≡ parsed n
unfolding parse_amount
parse_amount-format n h = ground (arith, parse_int-format n h)

-- A message whose fields hold what AppendBid sent, in any order and with any others beside them, is
-- read as the bid that was sent.
pub parse_message-append :
    (id : Text) (bid : BidIngress) (values : Values)
    → id ≢ []
    → IsInt64 bid.amount
    → ((key : Text)
        → get_value key (append_values bid) ≢ none
        → get_value key values ≡ get_value key (append_values bid))
    → parse_message (record { id = id; values = values })
      ≡ parsed (record { id = id; ingress = bid })
unfolding parse_message get_value text_eq
parse_message-append [] bid values ne h same = absurd (ne refl)
parse_message-append (c ∷ id) bid values ne h same = rw (
  field_string-of values (codes "auction_id") _ (same (codes "auction_id") λ e. cc),
  field_string-of values (codes "bidder_id") _ (same (codes "bidder_id") λ e. cc),
  field_string-of values (codes "amount") _ (same (codes "amount") λ e. cc),
  parse_amount-format bid.amount h,
  field_string-of values (codes "idempotency_key") _ (same (codes "idempotency_key") λ e. cc),
  field_string-of values (codes "correlation_id") _ (same (codes "correlation_id") λ e. cc),
)

-- Inversion of a step of parse_message.
bind_sound :
    {A B : Type 0} (m : Parsed A) (f : A → Parsed B) (b : B)
    → (m >>= f) ≡ parsed b
    → (a : A) × (m ≡ parsed a) × (f a ≡ parsed b)
bind_sound (parsed a) f b h = (a, refl, h)
bind_sound (refused e) f b h = cc

parse_amount_sound : (text : Text) (n : ℤ) → parse_amount text ≡ parsed n → parse_int text ≡ some n
unfolding parse_amount
parse_amount_sound text n h = ground arith

-- The text of a value: the string, the bytes, or what is printed of anything else.
abbrev pub Spells : FieldValue → Text → Type 0
Spells v s = (v ≡ string s) ⊎ (v ≡ bytes s) ⊎ (v ≡ other s)

-- The fields have the key, with that text; the first field of the key counts.
pub data HasField (key s : Text) : Values → Type 0 where
  first : {v : FieldValue} {values : Values} → Spells v s → HasField key s ((key, v) ∷ values)
  later :
      {k : Text} {v : FieldValue} {values : Values}
      → k ≢ key
      → HasField key s values
      → HasField key s ((k, v) ∷ values)

as_text-Spells : (v : FieldValue) → Spells v (as_text v)
as_text-Spells (string s) = inl refl
as_text-Spells (bytes s) = inr (inl refl)
as_text-Spells (other s) = inr (inr refl)

get_value-HasField :
    (key : Text) (v : FieldValue) (values : Values)
    → get_value key values ≡ some v
    → HasField key (as_text v) values
unfolding get_value
get_value-HasField key v [] h = cc
get_value-HasField key v ((k, u) ∷ values) h = elim (Bool-cases (text_eq k key)) [
  | inl e ↦
      let same : u ≡ v = cc (rw e at h) in
      subst (λ x. HasField key (as_text v) ((x, u) ∷ values)) (sym (text_eq_sound k key e))
        (first (subst (λ x. Spells x (as_text v)) (sym same) (as_text-Spells v)))
  | inr e ↦
      later (λ same. cc (e, (text_eq_iff k key).1 same))
        (get_value-HasField key v values (rw e at h))
]

field_string_sound :
    (values : Values) (key s : Text) → field_string values key ≡ parsed s → HasField key s values
unfolding field_string
field_string_sound values key s h = elim (Option-cases (get_value key values)) [
  | inl e ↦ cc (rw (field_string, e) at h)
  | inr (v, e) ↦
      let same : as_text v ≡ s = cc (rw (field_string, e) at h) in
      subst (λ x. HasField key x values) same (get_value-HasField key v values e)
]

-- What the entry read from a message is made of.
pub record IsReadFrom (message : XMessage) (entry : BidStreamEntry) : Type 0 where
  pub amount_text : Text
  pub has_id : message.id ≢ []
  pub id : entry.id ≡ message.id
  pub auction_id : HasField (codes "auction_id") entry.auction_id message.values
  pub bidder_id : HasField (codes "bidder_id") entry.bidder_id message.values
  pub has_amount : HasField (codes "amount") amount_text message.values
  pub amount : parse_int amount_text ≡ some entry.amount
  pub idempotency_key : HasField (codes "idempotency_key") entry.idempotency_key message.values
  pub correlation_id : HasField (codes "correlation_id") entry.correlation_id message.values

not_empty : (s : Text) → present s ≡ parsed tt → s ≢ []
not_empty [] h = cc
not_empty (c ∷ s) h = λ e. cc

-- A message that is read has an id and the five fields, and the entry has the id and the texts of
-- the fields, its amount being the int64 that the text of the amount spells in decimal.
pub parse_message_sound :
    (message : XMessage) (entry : BidStreamEntry)
    → parse_message message ≡ parsed entry
    → IsReadFrom message entry
unfolding parse_message
parse_message_sound message entry h =
    let fields = message.values in
    let (_, has_id, h1) = bind_sound (present message.id) _ entry h in
    let (a, ea, h2) = bind_sound (field_string fields (codes "auction_id")) _ entry h1 in
    let (b, eb, h3) = bind_sound (field_string fields (codes "bidder_id")) _ entry h2 in
    let (text, et, h4) = bind_sound (field_string fields (codes "amount")) _ entry h3 in
    let (n, en, h5) = bind_sound (parse_amount text) _ entry h4 in
    let (k, ek, h6) = bind_sound (field_string fields (codes "idempotency_key")) _ entry h5 in
    let (c, ec, h7) = bind_sound (field_string fields (codes "correlation_id")) _ entry h6 in
    record {
      amount_text = text;
      has_id = not_empty message.id has_id;
      id = ground arith;
      auction_id = field_string_sound fields (codes "auction_id") _ (ground arith);
      bidder_id = field_string_sound fields (codes "bidder_id") _ (ground arith);
      has_amount = field_string_sound fields (codes "amount") text et;
      amount = ground (arith, parse_amount_sound text n en);
      idempotency_key = field_string_sound fields (codes "idempotency_key") _ (ground arith);
      correlation_id = field_string_sound fields (codes "correlation_id") _ (ground arith);
    }
