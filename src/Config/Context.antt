-- ===== src/Config/Context.antt =====
-- src/config.rs, `to_client_context`: the driver's context, of which the fields that the crate sets are
-- named here; a default context and the crate's version are parameters.
use mssql_tiberius_bridge.Prelude.{Bool, Text, str, Option, some, unwrap_or, if◌then◌else◌}
use mssql_tiberius_bridge.Config.{Config, AuthMethod, EncryptionLevel}

pub data TdsAuthenticationMethod : Type 0 where
  password sspi access_token : TdsAuthenticationMethod

pub data EncryptionSetting : Type 0 where
  prefer_off on required strict : EncryptionSetting

pub data ApplicationIntent : Type 0 where
  read_only read_write : ApplicationIntent

-- `ClientContext`, over its driver version.
pub record ClientContext (P D : Type 0) : Type 0 where
  pub database : Text
  pub user_name : Text
  pub password : Text
  pub tds_authentication_method : TdsAuthenticationMethod
  pub access_token : Option Text
  pub trust_server_certificate : Bool
  pub server_certificate : Option Text
  pub host_name_in_cert : Option Text
  pub mode : EncryptionSetting
  pub application_name : Text
  pub workstation_id : Text
  pub library_name : Text
  pub driver_version : D
  pub application_intent : ApplicationIntent
  pub multi_subnet_failover : Option Bool
  pub security_context_provider : Option P
  pub user_agent_library_name : Text
  pub user_agent_driver_version : Text

abbrev driver_name : Text
driver_name = str "MS-TIB-BRID"

-- The match on the encryption level.
unfoldable pub encryption_mode : EncryptionLevel → EncryptionSetting
encryption_mode EncryptionLevel.off = EncryptionSetting.prefer_off
encryption_mode EncryptionLevel.on = EncryptionSetting.on
encryption_mode EncryptionLevel.not_supported = EncryptionSetting.prefer_off
encryption_mode EncryptionLevel.required = EncryptionSetting.required
encryption_mode EncryptionLevel.strict = EncryptionSetting.strict

module _ {P D : Type 0} where
  -- The match on the authentication method.
  unfoldable pub with_auth : AuthMethod → ClientContext P D → ClientContext P D
  with_auth (AuthMethod.sql_server user secret) ctx = record ctx {
    user_name = user;
    password = secret;
  }
  with_auth AuthMethod.integrated ctx = record ctx {
    tds_authentication_method = TdsAuthenticationMethod.sspi;
  }
  with_auth (AuthMethod.aad_token token) ctx = record ctx {
    tds_authentication_method = TdsAuthenticationMethod.access_token;
    access_token = some token;
  }

  -- `to_client_context`, over `ClientContext::default()`, `DriverVersion::from_cargo_version()` and
  -- the crate's version.
  unfoldable pub to_client_context : ClientContext P D → D → Text → Config P → ClientContext P D
  unfolding with_auth encryption_mode
  to_client_context default version bridge_version config =
      let ctx = with_auth config.auth (record default { database = config.database }) in
      record ctx {
        trust_server_certificate = config.trust_cert;
        server_certificate = config.server_certificate;
        host_name_in_cert = config.host_name_in_certificate;
        mode = encryption_mode config.encryption;
        application_name = unwrap_or ctx.application_name config.application_name;
        workstation_id = unwrap_or ctx.workstation_id config.client_name;
        library_name = driver_name;
        driver_version = version;
        application_intent =
            if config.readonly then ApplicationIntent.read_only else ApplicationIntent.read_write;
        multi_subnet_failover = some config.multi_subnet_failover;
        security_context_provider = config.security_context_provider;
        user_agent_library_name = driver_name;
        user_agent_driver_version = bridge_version;
      }
