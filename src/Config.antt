-- ===== src/Config.antt =====
-- src/config.rs: the connection settings, the data source string that they denote, and the driver's
-- client context that they are turned into. A certificate path is its text; the security provider
-- and the driver's default context are parameters.
pub mod Context
pub mod Datasource
use mssql_tiberius_bridge.Prelude.{
  ℕ, Bool, true, false, ◌||◌, Text, str, text_eq, Option, none, some, map_option, List, [], ◌∷◌,
  ◌++◌, to_decimal, if◌then◌else◌,
}

pub data EncryptionLevel : Type 0 where
  off on not_supported required strict : EncryptionLevel

pub data Transport : Type 0 where
  tcp : Transport
  named_pipe : Option Text → Transport
  shared_memory : Transport

pub data AuthMethod : Type 0 where
  sql_server : (user password : Text) → AuthMethod
  integrated : AuthMethod
  aad_token : Text → AuthMethod

-- `Config`, over the type of security providers.
pub record Config (P : Type 0) : Type 0 where
  pub host : Text
  pub port : ℕ
  pub database : Text
  pub auth : AuthMethod
  pub trust_cert : Bool
  pub server_certificate : Option Text
  pub host_name_in_certificate : Option Text
  pub readonly : Bool
  pub encryption : EncryptionLevel
  pub application_name : Option Text
  pub instance_name : Option Text
  pub client_name : Option Text
  pub send_string_parameters_as_unicode : Bool
  pub multi_subnet_failover : Bool
  pub transport : Transport
  pub security_context_provider : Option P

-- The host of a derived pipe path.
abbrev pub pipe_host : Text → Text
pipe_host host = if text_eq host (str ".") || text_eq host (str "localhost") then str "." else host

module _ {P : Type 0} where
  -- `Config::new`.
  unfoldable pub new : Config P
  new = record {
    host = str "localhost";
    port = 1433;
    database = str "master";
    auth = AuthMethod.sql_server [] [];
    trust_cert = false;
    server_certificate = none;
    host_name_in_certificate = none;
    readonly = false;
    encryption = EncryptionLevel.on;
    application_name = none;
    instance_name = none;
    client_name = none;
    send_string_parameters_as_unicode = true;
    multi_subnet_failover = false;
    transport = Transport.tcp;
    security_context_provider = none;
  }

  unfoldable pub set_host : Config P → Text → Config P
  set_host config host = record config { host = host }

  unfoldable pub set_port : Config P → ℕ → Config P
  set_port config port = record config { port = port }

  unfoldable set_database : Config P → Text → Config P
  set_database config database = record config { database = database }

  unfoldable set_authentication : Config P → AuthMethod → Config P
  set_authentication config auth = record config { auth = auth }

  unfoldable set_trust_cert : Config P → Config P
  set_trust_cert config = record config { trust_cert = true }

  unfoldable set_trust_cert_ca : Config P → Text → Config P
  set_trust_cert_ca config path = record config { server_certificate = some path }

  unfoldable set_host_name_in_certificate : Config P → Text → Config P
  set_host_name_in_certificate config name = record config { host_name_in_certificate = some name }

  unfoldable set_client_name : Config P → Text → Config P
  set_client_name config name = record config { client_name = some name }

  unfoldable set_string_parameters_as_unicode : Config P → Bool → Config P
  set_string_parameters_as_unicode config enabled = record config {
    send_string_parameters_as_unicode = enabled;
  }

  unfoldable set_readonly : Config P → Bool → Config P
  set_readonly config readonly = record config { readonly = readonly }

  unfoldable set_encryption : Config P → EncryptionLevel → Config P
  set_encryption config level = record config { encryption = level }

  unfoldable set_multi_subnet_failover : Config P → Bool → Config P
  set_multi_subnet_failover config enabled = record config { multi_subnet_failover = enabled }

  unfoldable set_security_context_provider : Config P → P → Config P
  set_security_context_provider config provider = record config {
    security_context_provider = some provider;
  }

  unfoldable set_named_pipe : Config P → Option Text → Config P
  set_named_pipe config pipe = record config { transport = Transport.named_pipe pipe }

  unfoldable set_shared_memory : Config P → Config P
  set_shared_memory config = record config { transport = Transport.shared_memory }

  unfoldable set_transport : Config P → Transport → Config P
  set_transport config transport = record config { transport = transport }

  unfoldable set_application_name : Config P → Text → Config P
  set_application_name config name = record config { application_name = some name }

  unfoldable pub set_instance_name : Config P → Text → Config P
  set_instance_name config name = record config { instance_name = some name }

  -- `get_addr`.
  unfoldable get_addr : Config P → Text
  get_addr config = config.host ++ (str ":" ++ to_decimal config.port)

  -- `datasource_string`, by the transport.
  unfoldable pub datasource_for : Transport → Config P → Text
  datasource_for Transport.tcp config = elim config.instance_name [
    | some inst ↦ str "tcp:" ++ (config.host ++ (str "\\" ++ inst))
    | none ↦ str "tcp:" ++ (config.host ++ (str "," ++ to_decimal config.port))
  ]
  datasource_for (Transport.named_pipe (some p)) config = str "np:" ++ p
  datasource_for (Transport.named_pipe none) config = elim config.instance_name [
    | some inst ↦
        str "np:\\\\"
        ++ (pipe_host config.host ++ (str "\\pipe\\MSSQL$" ++ (inst ++ str "\\sql\\query")))
    | none ↦ str "np:\\\\" ++ (pipe_host config.host ++ str "\\pipe\\sql\\query")
  ]
  datasource_for Transport.shared_memory config = elim config.instance_name [
    | some inst ↦ str "lpc:" ++ (config.host ++ (str "\\" ++ inst))
    | none ↦ str "lpc:" ++ config.host
  ]

  unfoldable pub datasource_string : Config P → Text
  unfolding datasource_for
  datasource_string config = datasource_for config.transport config
