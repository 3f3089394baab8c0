-- ===== src/Cache/Client.antt =====
-- pkg/cache/cache.go: `StartCacheClient`, over the clients that go-redis makes.
use mono_sso.Prelude.{ℕ, String, Bool, Option, some, List, if◌then◌else◌}

-- Options
pub record CacheOptions : Type 0 where
  pub prefix : String
  pub password : String
  pub db : ℕ
  pub master_name : String
  pub max_pool_size : ℕ
  pub min_pool_size : ℕ
  pub nodes : List String
  pub node : String
  pub sentinel : Bool

-- redis.FailoverOptions
pub record FailoverOptions : Type 0 where
  pub password : String
  pub db : ℕ
  pub master_name : String
  pub sentinel_addrs : List String
  pub pool_size : ℕ
  pub min_idle_conns : ℕ

-- redis.Options
pub record ClientOptions : Type 0 where
  pub addr : String
  pub password : String
  pub db : ℕ
  pub network : String
  pub pool_size : ℕ
  pub min_idle_conns : ℕ

-- Cache, without its logger; `none` is the nil client.
pub record CacheClient (Client : Type 0) : Type 0 where
  pub options : CacheOptions
  pub client : Option Client

module _ {Client : Type 0} (new_failover_client : FailoverOptions → Client)
    (new_client : ClientOptions → Client) where
  abbrev failover_options : CacheOptions → FailoverOptions
  failover_options o = record {
    password = o.password;
    db = o.db;
    master_name = o.master_name;
    sentinel_addrs = o.nodes;
    pool_size = o.max_pool_size;
    min_idle_conns = o.min_pool_size;
  }

  abbrev client_options : CacheOptions → ClientOptions
  client_options o = record {
    addr = o.node;
    password = o.password;
    db = o.db;
    network = "tcp";
    pool_size = o.max_pool_size;
    min_idle_conns = o.min_pool_size;
  }

  -- `StartCacheClient`, both assignments in their order.
  unfoldable pub start_cache_client : CacheClient Client → CacheClient Client
  start_cache_client cache =
      let after =
        if cache.options.sentinel
        then record cache { client = some (new_failover_client (failover_options cache.options)) }
        else cache in
      record after { client = some (new_client (client_options after.options)) }
