-- ===== src/Postgres/AntiSnipe/Replay.antt =====
-- The resubmission of a bid is answered, where nothing fails.
use bid_lane.Go.Time.{Time}
