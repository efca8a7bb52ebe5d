-- ===== src/Redis/Streams/Messages.antt =====
-- The entries of a reply, one for each message.
use bid_lane.Prelude.{subst, ap, ◌≡◌, ◌∷◌, [], List, inl, inr}
use bid_lane.Redis.Message.{
  BidStreamEntry, XMessage, parse_message, IsReadFrom, parse_message_sound,
}
use bid_lane.Redis.Streams.Inversion.{Parsed-cases}
use bid_lane.Redis.Streams.{Outcome, ok, err, prepend, parse_messages}

-- Each entry is made of the fields of its message, one for one and in order.
pub data AreReadFrom : List XMessage → List BidStreamEntry → Type 0 where
  none : AreReadFrom [] []
  one_more :
      {m : XMessage} {messages : List XMessage} {entry : BidStreamEntry}
      {entries : List BidStreamEntry}
      → IsReadFrom m entry
      → AreReadFrom messages entries
      → AreReadFrom (m ∷ messages) (entry ∷ entries)

prepend-AreReadFrom :
    (m : XMessage) (entry : BidStreamEntry) (messages : List XMessage)
    (rest : Outcome (List BidStreamEntry)) (entries : List BidStreamEntry)
    → IsReadFrom m entry
    → ((more : List BidStreamEntry) → rest ≡ ok more → AreReadFrom messages more)
    → prepend entry rest ≡ ok entries
    → AreReadFrom (m ∷ messages) entries
prepend-AreReadFrom m entry messages (ok more) [] read others h = cc
prepend-AreReadFrom m entry messages (ok more) (e ∷ entries) read others h =
    let same : (entry ≡ e) × (more ≡ entries) = (cc h, cc h) in
    subst (λ x. AreReadFrom (m ∷ messages) (x ∷ entries)) same.0
      (one_more read (others entries (ap ok same.1)))
prepend-AreReadFrom m entry messages (err e) entries read others h = cc

pub parse_messages-AreReadFrom :
    (messages : List XMessage) (entries : List BidStreamEntry)
    → parse_messages messages ≡ ok entries
    → AreReadFrom messages entries
unfolding parse_messages
parse_messages-AreReadFrom [] [] h = none
parse_messages-AreReadFrom [] (e ∷ entries) h = cc
parse_messages-AreReadFrom (m ∷ messages) entries h = elim (Parsed-cases (parse_message m)) [
  | inl (e, p) ↦ cc (rw (parse_messages, p) at h)
  | inr (entry, p) ↦
      prepend-AreReadFrom m entry messages (parse_messages messages) entries
        (parse_message_sound m entry p) (parse_messages-AreReadFrom messages)
        (rw (p, parse_messages) at h)
]
