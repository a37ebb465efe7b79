-- ===== src/Config/Datasource.antt =====
-- src/config.rs: the data source string names the configured endpoint and no other.
use mssql_tiberius_bridge.Prelude.{
  ℕ, ◌≡◌, ◌≢◌, ◌⊎◌, inl, inr, refl, ap, true, false, text_eq, text_eq_iff, Bool-cases, ◌||◌, Text,
  str, starts_with, Option, none, some, [], ◌∷◌, ◌++◌, drop, ◌==◌, if◌then◌else◌, to_decimal,
  decimal_value, decimal_value-to_decimal, arith,
}
use mssql_tiberius_bridge.Config.{Config, Transport, datasource_for, datasource_string, pipe_host}

-- What a data source string can name.
pub data Endpoint : Type 0 where
  tcp_port : Text → ℕ → Endpoint
  tcp_instance : Text → Text → Endpoint
  pipe_path : Text → Endpoint
  local_server : Text → Option Text → Endpoint

-- The text before the first comma or backslash, the separator, and the text behind it.
split : Text → Text × Option (ℕ × Text)
split [] = ([], none)
split (ch ∷ s) =
    let rest = split s in
    if ch == b',' || ch == b'\\' then ([], some (ch, s)) else (ch ∷ rest.0, rest.1)

-- Hosts, with neither of the separators.
abbrev pub IsHost : Text → Type 0
IsHost [] = Unit
IsHost (ch ∷ s) = (ch ≢ b',') × (ch ≢ b'\\') × IsHost s

split-append :
    (host rest : Text) (sep : ℕ)
    → IsHost host
    → (sep == b',' || sep == b'\\') ≡ true
    → split (host ++ sep ∷ rest) ≡ (host, some (sep, rest))
unfolding split
split-append [] rest sep h e = ground arith
split-append (ch ∷ host) rest sep h e = ground (arith, split-append host rest sep h.2 e)

split-host : (host : Text) → IsHost host → split host ≡ (host, none)
unfolding split
split-host [] h = refl
split-host (ch ∷ host) h = ground (arith, split-host host h.2)

-- The endpoint behind `tcp:`.
tcp_endpoint : Text × Option (ℕ × Text) → Option Endpoint
unfolding decimal_value
tcp_endpoint (host, none) = none
tcp_endpoint (host, some (sep, rest)) =
    if sep == b','
    then some (Endpoint.tcp_port host (decimal_value 0 rest))
    else some (Endpoint.tcp_instance host rest)

shared_endpoint : Text × Option (ℕ × Text) → Option Endpoint
shared_endpoint (host, none) = some (Endpoint.local_server host none)
shared_endpoint (host, some (sep, rest)) = some (Endpoint.local_server host (some rest))

-- A reader of data source strings, by the documented prefixes.
unfoldable pub read_datasource : Text → Option Endpoint
unfolding split tcp_endpoint shared_endpoint starts_with
read_datasource s =
    if starts_with s (str "tcp:")
    then tcp_endpoint (split (drop 4 s))
    else if starts_with s (str "np:")
    then some (Endpoint.pipe_path (drop 3 s))
    else if starts_with s (str "lpc:")
    then shared_endpoint (split (drop 4 s))
    else none

-- The computer that a pipe path names for a host: a dot where the host is the local computer, and
-- otherwise the host itself.
abbrev pub PipeServer : Text → Text → Type 0
PipeServer host server =
    (((host ≡ str ".") ⊎ (host ≡ str "localhost")) × (server ≡ str "."))
    ⊎ ((host ≢ str ".") × (host ≢ str "localhost") × (server ≡ host))

-- The standard pipe of an instance on a computer.
abbrev pub standard_pipe : Text → Option Text → Text
standard_pipe server none = str "\\\\" ++ (server ++ str "\\pipe\\sql\\query")
standard_pipe server (some inst) =
    str "\\\\" ++ (server ++ (str "\\pipe\\MSSQL$" ++ (inst ++ str "\\sql\\query")))

-- The endpoint that settings mean: an instance name makes the port irrelevant, an explicit pipe is
-- taken as it is, and a derived pipe is the standard one of the instance on the server.
abbrev pub endpoint : Transport → Text → Text → ℕ → Option Text → Endpoint
endpoint Transport.tcp host server port none = Endpoint.tcp_port host port
endpoint Transport.tcp host server port (some inst) = Endpoint.tcp_instance host inst
endpoint (Transport.named_pipe (some path)) host server port inst = Endpoint.pipe_path path
endpoint (Transport.named_pipe none) host server port inst =
    Endpoint.pipe_path (standard_pipe server inst)
endpoint Transport.shared_memory host server port inst = Endpoint.local_server host inst

same_text : (s t : Text) → ((text_eq s t ≡ true) × (s ≡ t)) ⊎ ((text_eq s t ≡ false) × (s ≢ t))
same_text s t = elim (Bool-cases (text_eq s t)) [
  | inl e ↦ inl (e, (text_eq_iff s t).0 e)
  | inr e ↦ inr (e, λ q. ground (arith, (text_eq_iff s t).1 q))
]

pipe_host-PipeServer : (host : Text) → PipeServer host (pipe_host host)
pipe_host-PipeServer host = elim (same_text host (str ".")) [
  | inl (e, q) ↦ inl (inl q, rw (e) refl)
  | inr (e, q) ↦ elim (same_text host (str "localhost")) [
    | inl (e', q') ↦ inl (inr q', rw (e, e') refl)
    | inr (e', q') ↦ inr (q, q', rw (e, e') refl)
  ]
]

module _ {P : Type 0} where
  read_datasource-for :
      (transport : Transport) (config : Config P) (inst : Option Text)
      → IsHost config.host
      → config.instance_name ≡ inst
      → read_datasource (datasource_for transport config)
        ≡ some (endpoint transport config.host (pipe_host config.host) config.port inst)
  unfolding datasource_for read_datasource
  read_datasource-for Transport.tcp config none host e = rw (e) (
      rw (split-append config.host (to_decimal config.port) b',' host refl)
        (ap (λ n. some (Endpoint.tcp_port config.host n)) (decimal_value-to_decimal config.port)))
  read_datasource-for Transport.tcp config (some inst) host e =
      rw (e) (rw (split-append config.host inst b'\\' host refl) refl)
  read_datasource-for (Transport.named_pipe (some path)) config inst host e = refl
  read_datasource-for (Transport.named_pipe none) config none host e = rw (e) refl
  read_datasource-for (Transport.named_pipe none) config (some inst) host e = rw (e) refl
  read_datasource-for Transport.shared_memory config none host e =
      rw (e) (ap shared_endpoint (split-host config.host host))
  read_datasource-for Transport.shared_memory config (some inst) host e =
      rw (e) (rw (split-append config.host inst b'\\' host refl) refl)

  -- The data source string of settings whose host has neither a comma nor a backslash reads back as
  -- the endpoint that the settings mean, for every transport: the host and the port, or the host and
  -- the instance without the port, or the explicit or the standard pipe, or the local server. The
  -- standard pipe is on the computer `.` where the host is `.` or `localhost`, and on the host
  -- otherwise.
  pub read_datasource-datasource_string :
      (config : Config P)
      → IsHost config.host
      → (server : Text) × PipeServer config.host server
        × (read_datasource (datasource_string config)
            ≡ some (endpoint config.transport config.host server config.port config.instance_name))
  unfolding datasource_string
  read_datasource-datasource_string config host = (
    pipe_host config.host,
    pipe_host-PipeServer config.host,
    read_datasource-for config.transport config config.instance_name host refl,
  )
