-- ===== src/Redis/Streams/Inversion.antt =====
-- What the client answered, where an operation of the store succeeded.
use bid_lane.Prelude.{
  ℕ, suc, refl, ◌≡◌, ◌≢◌, ◌⊎◌, inl, inr, ◌∷◌, [], List, some, Text, is_empty, Bool, true, false,
  length, arith,
}
use bid_lane.Prelude.Int.{ℤ, pos, leb_ℤ, ltb_ℤ}
use bid_lane.Redis.Message.{
  BidIngress, append_values, BidStreamEntry, XMessage, ParseError, Parsed, parsed, refused,
  parse_message,
}
use bid_lane.Redis.Client.{RedisClient, Reply, reply, failure, nothing}
use bid_lane.Redis.Streams.{
  StreamError, Outcome, ok, err, Op, stream_key, cursor_of, flatten, prepend, parse_messages,
  with_cursor, unless, refuse, entries_of, claimed, plain, append_bid, ack, read_group,
  auto_claim_pending,
}

pub Parsed-cases :
    {A : Type 0} (p : Parsed A) → ((e : ParseError) × (p ≡ refused e)) ⊎ ((a : A) × (p ≡ parsed a))
Parsed-cases (refused e) = inl (e, refl)
Parsed-cases (parsed a) = inr (a, refl)

prepend-length :
    (entry : BidStreamEntry) (rest : Outcome (List BidStreamEntry)) (entries : List BidStreamEntry)
    → prepend entry rest ≡ ok entries
    → (more : List BidStreamEntry) × (rest ≡ ok more) × (length entries ≡ suc (length more))
prepend-length entry (ok more) entries h = (more, refl, ground arith)
prepend-length entry (err e) entries h = cc

-- Each message is an entry.
pub parse_messages-length :
    (messages : List XMessage) (entries : List BidStreamEntry)
    → parse_messages messages ≡ ok entries
    → length entries ≡ length messages
unfolding parse_messages
parse_messages-length [] entries h = ground arith
parse_messages-length (m ∷ messages) entries h = elim (Parsed-cases (parse_message m)) [
  | inl (e, p) ↦ absurd (ground (arith, p, h))
  | inr (entry, p) ↦
      let (more, q, l) =
        prepend-length entry (parse_messages messages) entries (rw (p, parse_messages) at h) in
      omega (arith, l, parse_messages-length messages more q)
]

-- What is known of the client's answer, by the outcome.
abbrev pub Claims :
    {R : Type 0}
    → Reply (List XMessage × Text) × R
    → Outcome (List BidStreamEntry × Text) × R
    → Type 0
Claims y (ok (entries, next), r') =
    (messages : List XMessage) × (y ≡ (reply (messages, next), r'))
    × (parse_messages messages ≡ ok entries)
Claims y (err e, r') = Unit

abbrev pub Reads :
    {R : Type 0}
    → Reply (List (Text × List XMessage)) × R
    → Outcome (List BidStreamEntry) × R
    → Type 0
Reads y (ok entries, r') =
    ((y ≡ (nothing, r')) × (entries ≡ []))
    ⊎ ((streams : List (Text × List XMessage)) × (y ≡ (reply streams, r'))
        × (parse_messages (flatten streams) ≡ ok entries))
Reads y (err e, r') = Unit

-- AppendBid: an XADD that was answered, of a bid that has everything; where it fails, Redis is as it
-- was, or as an XADD of such a bid left it that was not answered.
abbrev pub IsComplete : BidIngress → Type 0
IsComplete bid =
    (is_empty bid.auction_id ≡ false)
    × (is_empty bid.bidder_id ≡ false)
    × (leb_ℤ bid.amount (pos 0) ≡ false)
    × (is_empty bid.idempotency_key ≡ false)
    × (is_empty bid.correlation_id ≡ false)

abbrev pub IsUnanswered : {R : Type 0} {A : Type 0} → Reply A × R → R → Type 0
IsUnanswered (reply a, r) r' = ⊥
IsUnanswered (failure e, r) r' = r' ≡ r
IsUnanswered (nothing, r) r' = r' ≡ r

abbrev pub Appends : {R : Type 0} → BidIngress → R → Reply Text × R → Outcome Text × R → Type 0
Appends bid r y (ok id, r') = IsComplete bid × (y ≡ (reply id, r'))
Appends bid r y (err e, r') = (r' ≡ r) ⊎ (IsComplete bid × IsUnanswered y r')

-- Ack of one entry: an XACK that was answered.
abbrev pub Acks : {R : Type 0} → Reply ℕ × R → Outcome (Unit {0}) × R → Type 0
Acks y (ok _, r') = (k : ℕ) × (y ≡ (reply k, r'))
Acks y (err e, r') = Unit

module _ {R : Type 0} where
  unless_split :
      {A : Type 0} (P : Outcome A × R → Type 0) (c : Bool) (x : StreamError) (f : Op R A) (r : R)
      → P (err x, r)
      → (c ≡ false → P (f r))
      → P (unless c x f r)
  unfolding unless refuse
  unless_split P true x f r on_refusal h = on_refusal
  unless_split P false x f r on_refusal h = h refl

  unless_elim :
      {A : Type 0} (P : Outcome A × R → Type 0) (c : Bool) (x : StreamError) (f : Op R A) (r : R)
      → ((e : StreamError) → P (err e, r))
      → P (f r)
      → P (unless c x f r)
  unless_elim P c x f r on_refusal h = unless_split P c x f r (on_refusal x) (λ _. h)

  with_cursor-Claims :
      (messages : List XMessage) (next : Text) (r : R) (o : Outcome (List BidStreamEntry))
      → parse_messages messages ≡ o
      → Claims (reply (messages, next), r) (with_cursor next o, r)
  with_cursor-Claims messages next r (ok entries) h = (messages, refl, h)
  with_cursor-Claims messages next r (err e) h = tt

  claimed-Claims : (y : Reply (List XMessage × Text) × R) → Claims y (claimed y)
  unfolding claimed
  claimed-Claims (reply (messages, next), r) = with_cursor-Claims messages next r _ refl
  claimed-Claims (failure e, r) = tt
  claimed-Claims (nothing, r) = tt

  parsed-Reads :
      (streams : List (Text × List XMessage)) (r : R) (o : Outcome (List BidStreamEntry))
      → parse_messages (flatten streams) ≡ o
      → Reads (reply streams, r) (o, r)
  parsed-Reads streams r (ok entries) h = inr (streams, refl, h)
  parsed-Reads streams r (err e) h = tt

  entries_of-Reads : (y : Reply (List (Text × List XMessage)) × R) → Reads y (entries_of y)
  unfolding entries_of
  entries_of-Reads (reply streams, r) = parsed-Reads streams r _ refl
  entries_of-Reads (failure e, r) = tt
  entries_of-Reads (nothing, r) = inl (refl, refl)

  -- A page that AutoClaimPending returns is the client's reply, entry for message.
  pub auto_claim_pending-Claims :
      (c : RedisClient R) (auction_id group consumer : Text) (min_idle : ℤ) (start : Text)
      (count : ℤ) (r : R)
      → Claims
          (c.x_auto_claim (stream_key auction_id) group consumer min_idle (cursor_of start) count r)
          (auto_claim_pending c auction_id group consumer min_idle start count r)
  unfolding auto_claim_pending
  auto_claim_pending-Claims c auction_id group consumer min_idle start count r =
      let y =
        c.x_auto_claim (stream_key auction_id) group consumer min_idle (cursor_of start) count r in
      unless_elim (Claims y) (is_empty auction_id) _ _ r (λ _. tt)
        (unless_elim (Claims y) (is_empty group) _ _ r (λ _. tt)
          (unless_elim (Claims y) (is_empty consumer) _ _ r (λ _. tt)
            (unless_elim (Claims y) (ltb_ℤ min_idle (pos 0)) _ _ r (λ _. tt)
              (unless_elim (Claims y) (leb_ℤ count (pos 0)) _ _ r (λ _. tt) (claimed-Claims y)))))

  -- The entries that ReadGroup returns are those of the client's reply, or none where none came.
  pub read_group-Reads :
      (c : RedisClient R) (auction_id group consumer : Text) (count block : ℤ) (r : R)
      → Reads
          (c.x_read_group group consumer (stream_key auction_id) count block r)
          (read_group (record { client = some c }) auction_id group consumer count block r)
  unfolding read_group
  read_group-Reads c auction_id group consumer count block r =
      let y = c.x_read_group group consumer (stream_key auction_id) count block r in
      unless_elim (Reads y) (is_empty auction_id) _ _ r (λ _. tt)
        (unless_elim (Reads y) (is_empty group) _ _ r (λ _. tt)
          (unless_elim (Reads y) (is_empty consumer) _ _ r (λ _. tt)
            (unless_elim (Reads y) (leb_ℤ count (pos 0)) _ _ r (λ _. tt)
              (unless_elim (Reads y) (ltb_ℤ block (pos 0)) _ _ r (λ _. tt) (entries_of-Reads y)))))

  -- Ack of one entry, by what XACK answers.
  pub ack_ok :
      (c : RedisClient R) (auction_id group id : Text) (k : ℕ) (r r' : R)
      → auction_id ≢ []
      → group ≢ []
      → c.x_ack (stream_key auction_id) group (id ∷ []) r ≡ (reply k, r')
      → ack (record { client = some c }) auction_id group (id ∷ []) r ≡ (ok tt, r')
  unfolding ack
  ack_ok c [] group id k r r' ha hg e = absurd (ha refl)
  ack_ok c (x ∷ auction_id) [] id k r r' ha hg e = absurd (hg refl)
  ack_ok c (x ∷ auction_id) (y ∷ group) id k r r' ha hg e = rw e refl

  plain-Acks : (y : Reply ℕ × R) → Acks y (plain (λ n. ok tt) y)
  unfolding plain
  plain-Acks (reply k, r) = (k, refl)
  plain-Acks (failure e, r) = tt
  plain-Acks (nothing, r) = tt

  pub ack-Acks :
      (c : RedisClient R) (auction_id group id : Text) (r : R)
      → Acks
          (c.x_ack (stream_key auction_id) group (id ∷ []) r)
          (ack (record { client = some c }) auction_id group (id ∷ []) r)
  unfolding ack
  ack-Acks c auction_id group id r =
      let y = c.x_ack (stream_key auction_id) group (id ∷ []) r in
      unless_elim (Acks y) (is_empty auction_id) _ _ r (λ _. tt)
        (unless_elim (Acks y) (is_empty group) _ _ r (λ _. tt) (plain-Acks y))

  plain-Appends :
      (bid : BidIngress) (r : R) (y : Reply Text × R)
      → IsComplete bid
      → Appends bid r y (plain ok y)
  unfolding plain
  plain-Appends bid r (reply id, r') h = (h, refl)
  plain-Appends bid r (failure e, r') h = inr (h, refl)
  plain-Appends bid r (nothing, r') h = inr (h, refl)

  pub append_bid-Appends :
      (c : RedisClient R) (bid : BidIngress) (r : R)
      → Appends bid r
          (c.x_add (stream_key bid.auction_id) (append_values bid) r)
          (append_bid (record { client = some c }) bid r)
  unfolding append_bid
  append_bid-Appends c bid r =
      let y = c.x_add (stream_key bid.auction_id) (append_values bid) r in
      let P = Appends bid r y in
      unless_split P (is_empty bid.auction_id) _ _ r (inl refl) λ h1.
        unless_split P (is_empty bid.bidder_id) _ _ r (inl refl) λ h2.
          unless_split P (leb_ℤ bid.amount (pos 0)) _ _ r (inl refl) λ h3.
            unless_split P (is_empty bid.idempotency_key) _ _ r (inl refl) λ h4.
              unless_split P (is_empty bid.correlation_id) _ _ r (inl refl)
                λ h5. plain-Appends bid r y (h1, h2, h3, h4, h5)
