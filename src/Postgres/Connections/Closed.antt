-- ===== src/Postgres/Connections/Closed.antt =====
-- What ConnectPool creates, and what it leaves open.
use bid_lane.Prelude.{
  refl, subst, ap, sym, ◌≡◌, ◌≢◌, ◌⊎◌, inl, inr, [], ◌∷◌, Option, none, some, Text, codes, is_empty,
  text_eq, text_eq_sound, text_eq_iff, Bool-cases, true, false,
}
use bid_lane.Postgres.Connections.{
  PgxDriver, ConnectError, parse_failed, unsupported_role, create_pool_failed, ping_pool_failed,
  role_statement, after_connect, pool_pinged, pool_created, with_role, config_parsed, connect_pool,
}

module _ {Conn Pool PoolConfig R : Type 0} (driver : PgxDriver Conn Pool PoolConfig R) where
  -- The hook of a pool runs a statement on each connection.
  abbrev pub Runs : Text → Option (Conn → R → Option Text × R) → Type 0
  Runs statement hook =
      (f : Conn → R → Option Text × R) × (hook ≡ some f)
      × ((conn : Conn) (r : R) → f conn r ≡ driver.exec conn statement r)

  -- What is done to each new connection of a pool, by the role: nothing where none is named, else
  -- the connection takes it.
  pub data TakesRole (hook : Option (Conn → R → Option Text × R)) : Text → Type 0 where
    no_role : hook ≡ none → TakesRole hook []
    engine : Runs (codes "SET ROLE bidlane_engine") hook → TakesRole hook (codes "bidlane_engine")
    outbox_relay :
        Runs (codes "SET ROLE bidlane_outbox_relay") hook
        → TakesRole hook (codes "bidlane_outbox_relay")

  pub record IsUnsupported (role : Text) : Type 0 where
    pub named : role ≢ []
    pub other_than_engine : role ≢ codes "bidlane_engine"
    pub other_than_relay : role ≢ codes "bidlane_outbox_relay"

  Statement : Text → Option (Option Text) → Type 0
  Statement role none = IsUnsupported role
  Statement role (some statement) = TakesRole (after_connect driver statement) role

  is_empty_sound : (s : Text) → is_empty s ≡ true → s ≡ []
  is_empty_sound [] h = refl
  is_empty_sound (c ∷ s) h = cc

  distinct : (s t : Text) → text_eq s t ≡ false → s ≢ t
  distinct s t e same = cc (e, (text_eq_iff s t).1 same)

  role_statement-Statement : (role : Text) → Statement role (role_statement role)
  unfolding Statement role_statement
  role_statement-Statement role = elim (Bool-cases (is_empty role)) [
    | inl e0 ↦
        rw (Statement, role_statement, e0)
          (subst (TakesRole none) (sym (is_empty_sound role e0)) (no_role refl))
    | inr e0 ↦ elim (Bool-cases (text_eq role (codes "bidlane_engine"))) [
      | inl e1 ↦
          let own = sym (text_eq_sound role (codes "bidlane_engine") e1) in
          rw (Statement, role_statement, e0, e1)
            (subst (TakesRole _) own (engine (_, refl, (λ conn r. refl))))
      | inr e1 ↦ elim (Bool-cases (text_eq role (codes "bidlane_outbox_relay"))) [
        | inl e2 ↦
            let own = sym (text_eq_sound role (codes "bidlane_outbox_relay") e2) in
            rw (Statement, role_statement, e0, e1, e2)
              (subst (TakesRole _) own (outbox_relay (_, refl, (λ conn r. refl))))
        | inr e2 ↦
            rw (Statement, role_statement, e0, e1, e2)
              (record {
                named = λ same. cc (e0, ap is_empty same);
                other_than_engine = distinct role (codes "bidlane_engine") e1;
                other_than_relay = distinct role (codes "bidlane_outbox_relay") e2;
              })
      ]
    ]
  ]

module _ {Conn Pool PoolConfig R : Type 0} (driver : PgxDriver Conn Pool PoolConfig R)
    (dsn role : Text) where
  -- The call that creates the pool, from the configuration that the text stands for: each connection
  -- takes the role.
  pub record Creates (r : R) (y : (Text ⊎ Pool) × R) : Type 0 where
    pub config : PoolConfig
    pub hook : Option (Conn → R → Option Text × R)
    pub parsed : driver.parse_config dsn ≡ inr config
    pub takes_role : TakesRole driver hook role
    pub answer : driver.new_with_config config hook r ≡ y

  -- A pool that was created and answered a ping; or an error: no pool was asked for, as the text was
  -- not parsed or the role is not supported; none was created; or the one that did not answer was
  -- closed.
  abbrev pub Connects : R → (ConnectError ⊎ Pool) × R → Type 0
  Connects r (inr pool, r') =
      (r1 : R) × Creates r (inr pool, r1) × (driver.ping_pool pool r1 ≡ (none, r'))
  Connects r (inl e, r') =
      ((x : Text) × (driver.parse_config dsn ≡ inl x) × (e ≡ parse_failed x) × (r' ≡ r))
      ⊎ (IsUnsupported driver role × (e ≡ unsupported_role role) × (r' ≡ r))
      ⊎ ((x : Text) × Creates r (inl x, r') × (e ≡ create_pool_failed x))
      ⊎ ((pool : Pool) × (r1 : R) × (r2 : R) × (x : Text) × Creates r (inr pool, r1)
          × (driver.ping_pool pool r1 ≡ (some x, r2))
          × (e ≡ ping_pool_failed x)
          × (r' ≡ driver.close_pool pool r2))

  pinged-Connects :
      (pool : Pool) (r r1 : R) (y : Option Text × R)
      → Creates r (inr pool, r1)
      → driver.ping_pool pool r1 ≡ y
      → Connects r (pool_pinged driver pool y)
  unfolding pool_pinged
  pinged-Connects pool r r1 (none, r2) c e = (r1, c, e)
  pinged-Connects pool r r1 (some x, r2) c e = inr (inr (inr (pool, r1, r2, x, c, e, refl, refl)))

  created-Connects :
      (r : R) (y : (Text ⊎ Pool) × R) → Creates r y → Connects r (pool_created driver y)
  unfolding pool_created
  created-Connects r (inl x, r1) c = inr (inr (inl (x, c, refl)))
  created-Connects r (inr pool, r1) c = pinged-Connects pool r r1 _ c refl

  role-Connects :
      (o : Option (Option Text)) (config : PoolConfig) (r : R)
      → driver.parse_config dsn ≡ inr config
      → Statement driver role o
      → Connects r (with_role driver role o config r)
  unfolding with_role Statement
  role-Connects none config r parsed h = inr (inl (h, refl, refl))
  role-Connects (some statement) config r parsed h =
      created-Connects r _
        (record { config = config; hook = _; parsed = parsed; takes_role = h; answer = refl })

  parsed-Connects :
      (o : Text ⊎ PoolConfig) (r : R)
      → driver.parse_config dsn ≡ o
      → Connects r (config_parsed driver role o r)
  unfolding config_parsed
  parsed-Connects (inl x) r parsed = inl (x, parsed, refl, refl)
  parsed-Connects (inr config) r parsed =
      role-Connects (role_statement role) config r parsed (role_statement-Statement driver role)

  -- However ConnectPool goes: a pool that it returns was created from the text's configuration with
  -- each connection taking the role by SET ROLE, if one is named, and answered a ping; an error says
  -- that the text was not parsed, that the role is neither of the two that are supported, that the
  -- driver created no pool, or that the pool did not answer and was closed, and in the first two
  -- cases nothing was done.
  pub connect_pool-Connects : (r : R) → Connects r (connect_pool driver dsn role r)
  unfolding connect_pool
  connect_pool-Connects r = parsed-Connects (driver.parse_config dsn) r refl
