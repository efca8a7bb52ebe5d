-- ===== src/Redis/Client.antt =====
-- The Redis client that the stream store calls: go-redis and the server behind it, which are not
-- part of the program. Each call is a function on a state of the caller's choice; an error is its
-- message.
use bid_lane.Prelude.{List, Text, ℕ}
use bid_lane.Prelude.Int.{ℤ}
use bid_lane.Redis.Message.{Values, XMessage}

pub data Reply (A : Type 0) : Type 0 where
  reply : A → Reply A
  failure : Text → Reply A
  -- redis.Nil: no entry came within the block period
  nothing : Reply A

pub record RedisClient (R : Type 0) : Type 0 where
  pub ping : R → Reply (Unit {0}) × R
  -- stream, fields; the server chooses the id ("*")
  pub x_add : Text → Values → R → Reply Text × R
  -- stream, group, first id
  pub x_group_create_mk_stream : Text → Text → Text → R → Reply (Unit {0}) × R
  -- group, consumer, stream, count, block; the ids asked for are new ones (">")
  pub x_read_group : Text → Text → Text → ℤ → ℤ → R → Reply (List (Text × List XMessage)) × R
  -- stream, group, ids
  pub x_ack : Text → Text → List Text → R → Reply ℕ × R
  -- stream, group, consumer, minimum idle time, start, count
  pub x_auto_claim : Text → Text → Text → ℤ → Text → ℤ → R → Reply (List XMessage × Text) × R
  -- the whole stream, "-" to "+"
  pub x_range : Text → R → Reply (List XMessage) × R
  pub del : Text → R → Reply ℕ × R
