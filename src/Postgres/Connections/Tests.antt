-- ===== src/Postgres/Connections/Tests.antt =====
-- A driver whose state is the number of open pools and the statements that were run.
use bid_lane.Prelude.{ℕ, suc, ◌-◌, refl, ◌≡◌, inl, inr, none, some, codes, text_eq}
use bid_lane.Postgres.Connections.{
  PgxDriver, ping_pool_failed, unsupported_role, role_statement, connect_pool,
}
use bid_lane.Postgres.Connections.Closed.{Connects, connect_pool-Connects}

-- Every ping fails.
abbrev driver : PgxDriver (Unit {0}) (Unit {0}) (Unit {0}) ℕ
driver = record {
  connect = λ dsn r. (inr tt, suc r);
  ping = λ c r. (none, r);
  close = λ c r. r - 1;
  exec = λ c s r. (none, r);
  parse_config = λ dsn. inr tt;
  new_with_config = λ config hook r. (inr tt, suc r);
  ping_pool = λ p r. (some (codes "timeout"), r);
  close_pool = λ p r. r - 1;
}

run_closed :
    connect_pool driver (codes "dsn") (codes "bidlane_engine") 0
    ≡ (inl (ping_pool_failed (codes "timeout")), 0)
unfolding connect_pool role_statement text_eq
run_closed = refl

run_unsupported :
    connect_pool driver (codes "dsn") (codes "root") 0 ≡ (inl (unsupported_role (codes "root")), 0)
unfolding connect_pool role_statement text_eq
run_unsupported = refl

connect_pool-Connects_example :
    Connects driver
      (codes "dsn")
      (codes "bidlane_engine")
      0
      (connect_pool driver (codes "dsn") (codes "bidlane_engine") 0)
connect_pool-Connects_example =
    connect_pool-Connects driver (codes "dsn") (codes "bidlane_engine") 0
