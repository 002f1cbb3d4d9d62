-- ===== src/Config.antt =====
-- The configuration and its checks: shim/internal/config/config.go. Reading flags and the environment
-- is not modelled. An int is an integer, a duration nanoseconds, and a value of the string types that
-- is none of their constants is `unknown`.
pub mod Accepted
use dropin_queue.Base.{
  ℕ, ◌==◌, leb, ℤ, pos, ltb_ℤ, eq_ℤ, Bool, true, false, not, ◌&&◌, ◌||◌, List, [], ◌∷◌, ◌++◌, all,
  length, Text, codes, is_empty, if◌then◌else◌,
}

pub data AuthMode : Type 0 where
  off verify strict unknown : AuthMode

pub data LogLevel : Type 0 where
  debug info warn error unknown : LogLevel

pub data Backend : Type 0 where
  nats postgres unknown : Backend

pub record Config : Type 0 where
  pub addr : Text
  pub backend : Backend
  pub nats_url : Text
  pub nats_credentials_file : Text
  pub nats_ca_cert : Text
  pub postgres_dsn : Text
  pub postgres_max_conns : ℤ
  pub postgres_poll_interval : ℤ
  pub postgres_notify_coalesce : ℤ
  pub account_id : Text
  pub region : Text
  pub auth_mode : AuthMode
  pub log_level : LogLevel
  pub metrics_addr : Text
  pub shutdown_timeout : ℤ
  pub max_request_body_bytes : ℤ
  pub stream_replicas : ℤ
  pub max_ack_pending : ℤ
  pub topic_max_age : ℤ

abbrev pub default_config : Config
default_config = record {
  addr = codes ":4566";
  backend = nats;
  nats_url = codes "nats://localhost:4222";
  nats_credentials_file = [];
  nats_ca_cert = [];
  postgres_dsn = [];
  postgres_max_conns = pos 20;
  postgres_poll_interval = pos 300000000;
  postgres_notify_coalesce = pos 20000000;
  account_id = codes "000000000000";
  region = codes "us-east-1";
  auth_mode = off;
  log_level = info;
  metrics_addr = [];
  shutdown_timeout = pos 30000000000;
  max_request_body_bytes = pos 5242880;
  stream_replicas = pos 1;
  max_ack_pending = pos 1000;
  topic_max_age = pos 3600000000000;
}

-- One constructor for each text that Validate collects.
pub data Complaint : Type 0 where
  addr_empty nats_url_empty replicas_not_odd replicas_too_few : Complaint
  postgres_dsn_empty max_conns_below_one poll_not_positive coalesce_negative : Complaint
  backend_unknown account_id_malformed region_empty auth_mode_unknown log_level_unknown : Complaint
  shutdown_not_positive body_too_small ack_pending_below_one topic_age_not_positive : Complaint

abbrev pub is_valid_account_id : Text → Bool
is_valid_account_id s = (length s == 12) && all (λ c. leb b'0' c && leb c b'9') s

abbrev pub is_production : Config → Bool
is_production c = elim c.auth_mode [ verify ↦ true | strict ↦ true | _ ↦ false ]

abbrev pub check : Bool → Complaint → List Complaint
check bad e = if bad then e ∷ [] else []

-- n < low
abbrev below : ℕ → ℤ → Bool
below low n = ltb_ℤ n (pos low)

abbrev pub is_odd_quorum : ℤ → Bool
is_odd_quorum n = eq_ℤ n (pos 1) || (eq_ℤ n (pos 3) || eq_ℤ n (pos 5))

abbrev pub backend_complaints : Backend → Config → List Complaint
backend_complaints nats c =
    check (is_empty c.nats_url) nats_url_empty
    ++ (check (not (is_odd_quorum c.stream_replicas)) replicas_not_odd
        ++ check (is_production c && eq_ℤ c.stream_replicas (pos 1)) replicas_too_few)
backend_complaints postgres c =
    check (is_empty c.postgres_dsn) postgres_dsn_empty
    ++ (check (below 1 c.postgres_max_conns) max_conns_below_one
        ++ (check (below 1 c.postgres_poll_interval) poll_not_positive
            ++ check (below 0 c.postgres_notify_coalesce) coalesce_negative))
backend_complaints Backend.unknown c = backend_unknown ∷ []

abbrev pub auth_complaints : AuthMode → List Complaint
auth_complaints AuthMode.unknown = auth_mode_unknown ∷ []
auth_complaints _ = []

abbrev pub level_complaints : LogLevel → List Complaint
level_complaints LogLevel.unknown = log_level_unknown ∷ []
level_complaints _ = []

abbrev pub other_complaints : Config → List Complaint
other_complaints c =
    check (not (is_empty c.account_id) && not (is_valid_account_id c.account_id))
      account_id_malformed
    ++ (check (is_empty c.region) region_empty
        ++ (auth_complaints c.auth_mode
            ++ (level_complaints c.log_level
                ++ (check (below 1 c.shutdown_timeout) shutdown_not_positive
                    ++ (check (below 1024 c.max_request_body_bytes) body_too_small
                        ++ (check (below 1 c.max_ack_pending) ack_pending_below_one
                            ++ check (below 1 c.topic_max_age) topic_age_not_positive))))))

-- The texts of the error; the configuration is accepted if there are none.
unfoldable pub validate : Config → List Complaint
validate c =
    check (is_empty c.addr) addr_empty ++ (backend_complaints c.backend c ++ other_complaints c)
