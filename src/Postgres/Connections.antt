-- ===== src/Postgres/Connections.antt =====
-- internal/store/postgres/postgres.go: one connection, or a pool whose connections take a role.
pub mod Closed
mod Tests
use bid_lane.Prelude.{
  ◌⊎◌, inl, inr, Option, none, some, Text, codes, text_eq, is_empty, true, false,
}

-- pgx and pgxpool; an error is its message.
pub record PgxDriver (Conn Pool PoolConfig R : Type 0) : Type 0 where
  pub connect : Text → R → (Text ⊎ Conn) × R
  pub ping : Conn → R → Option Text × R
  pub close : Conn → R → R
  pub exec : Conn → Text → R → Option Text × R
  pub parse_config : Text → Text ⊎ PoolConfig
  -- AfterConnect, if there is one
  pub new_with_config : PoolConfig → Option (Conn → R → Option Text × R) → R → (Text ⊎ Pool) × R
  pub ping_pool : Pool → R → Option Text × R
  pub close_pool : Pool → R → R

pub data ConnectError : Type 0 where
  connect_failed ping_failed parse_failed unsupported_role create_pool_failed ping_pool_failed :
      Text → ConnectError

-- What the role asks of each new connection: nothing, or a statement; `none` where the role is not
-- supported.
unfoldable pub role_statement : Text → Option (Option Text)
role_statement role = elim (is_empty role) [
  | true ↦ some none
  | false ↦ elim (text_eq role (codes "bidlane_engine")) [
    | true ↦ some (some (codes "SET ROLE bidlane_engine"))
    | false ↦ elim (text_eq role (codes "bidlane_outbox_relay")) [
      | true ↦ some (some (codes "SET ROLE bidlane_outbox_relay"))
      | false ↦ none
    ]
  ]
]

module _ {Conn Pool PoolConfig R : Type 0} (driver : PgxDriver Conn Pool PoolConfig R) where
  unfoldable pinged : Conn → Option Text × R → (ConnectError ⊎ Conn) × R
  pinged conn (none, r) = (inr conn, r)
  pinged conn (some x, r) = (inl (ping_failed x), driver.close conn r)

  unfoldable connected : (Text ⊎ Conn) × R → (ConnectError ⊎ Conn) × R
  unfolding pinged
  connected (inl x, r) = (inl (connect_failed x), r)
  connected (inr conn, r) = pinged conn (driver.ping conn r)

  -- Connect
  unfoldable pub connect : Text → R → (ConnectError ⊎ Conn) × R
  unfolding connected
  connect dsn r = connected (driver.connect dsn r)

  -- AfterConnect, by the statement of the role; pgxpool hands out no connection where it fails. The
  -- wording of its error is not modelled.
  abbrev pub after_connect : Option Text → Option (Conn → R → Option Text × R)
  after_connect none = none
  after_connect (some statement) = some (λ conn r. driver.exec conn statement r)

  unfoldable pool_pinged : Pool → Option Text × R → (ConnectError ⊎ Pool) × R
  pool_pinged pool (none, r) = (inr pool, r)
  pool_pinged pool (some x, r) = (inl (ping_pool_failed x), driver.close_pool pool r)

  unfoldable pool_created : (Text ⊎ Pool) × R → (ConnectError ⊎ Pool) × R
  unfolding pool_pinged
  pool_created (inl x, r) = (inl (create_pool_failed x), r)
  pool_created (inr pool, r) = pool_pinged pool (driver.ping_pool pool r)

  unfoldable with_role : Text → Option (Option Text) → PoolConfig → R → (ConnectError ⊎ Pool) × R
  unfolding pool_created
  with_role role none config r = (inl (unsupported_role role), r)
  with_role role (some statement) config r =
      pool_created (driver.new_with_config config (after_connect statement) r)

  unfoldable config_parsed : Text → Text ⊎ PoolConfig → R → (ConnectError ⊎ Pool) × R
  unfolding with_role
  config_parsed role (inl x) r = (inl (parse_failed x), r)
  config_parsed role (inr config) r = with_role role (role_statement role) config r

  -- ConnectPool
  unfoldable pub connect_pool : Text → Text → R → (ConnectError ⊎ Pool) × R
  unfolding config_parsed
  connect_pool dsn role r = config_parsed role (driver.parse_config dsn) r
