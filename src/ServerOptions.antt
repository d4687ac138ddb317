-- ===== src/ServerOptions.antt =====
-- src/server_options.cpp: the options of a server and their validation.
pub mod Accepted
pub mod Url
use rtt_opcua.Base.{
  ℕ, Bool, false, not, ◌&&◌, ◌||◌, Option, none, some, List, [], ◌∷◌, ◌++◌, ◌==◌, if◌then◌else◌,
  is_empty, Bytes, codes, text_eq, has_byte, listed, decimal,
}

pub record ServerOptions : Type 0 where
  pub bind_address : Bytes
  pub port : ℕ
  pub endpoint_path : Bytes
  pub application_name : Bytes
  pub additional_namespace_uris : List Bytes

-- `isLoopbackAddress`
unfoldable pub is_loopback_address : Bytes → Bool
is_loopback_address address = text_eq address (codes "127.0.0.1") || text_eq address (codes "::1")

-- `endpoint_path.front() != '/'`, of a path that is not empty.
unfoldable pub starts_with_slash : Bytes → Bool
starts_with_slash [] = false
starts_with_slash (c ∷ path) = c == b'/'

-- `find_first_of("?# \t\r\n") != npos`
unfoldable pub has_unsupported : Bytes → Bool
has_unsupported [] = false
has_unsupported (c ∷ path) =
    (c == b'?' || c == b'#' || c == 32 || c == 9 || c == 13 || c == 10) || has_unsupported path

-- The loop over the namespace URIs, with those that are inserted already.
unfoldable pub check_uris : List Bytes → List Bytes → Option Bytes
check_uris seen [] = none
check_uris seen (uri ∷ uris) =
    let rest = check_uris (uri ∷ seen) uris in
    if is_empty uri || has_byte 0 uri
    then some (codes "additional namespace URI must not be empty or contain NUL")
    else if listed uri seen
    then some (codes "additional namespace URIs must be unique")
    else rest

-- `validateServerOptions`
unfoldable pub validate_server_options : ServerOptions → Option Bytes
unfolding is_loopback_address check_uris
validate_server_options options =
    if is_empty options.bind_address
    then some (codes "bind address must not be empty")
    else if options.port == 0
    then some (codes "port must be between 1 and 65535")
    else if is_empty options.endpoint_path || not (starts_with_slash options.endpoint_path)
    then some (codes "endpoint path must start with '/'")
    else if has_unsupported options.endpoint_path
    then some (codes "endpoint path contains an unsupported character")
    else if is_empty options.application_name
    then some (codes "application name must not be empty")
    else if not (is_loopback_address options.bind_address)
        && not (text_eq options.bind_address (codes "0.0.0.0"))
    then some (codes "non-loopback OPC UA listening is not supported")
    else check_uris [] options.additional_namespace_uris

-- `endpointUrl`
unfoldable pub endpoint_url : ServerOptions → Bytes
endpoint_url options =
    let host =
      if has_byte b':' options.bind_address
      then b'[' ∷ (options.bind_address ++ (b']' ∷ []))
      else options.bind_address in
    codes "opc.tcp://" ++ (host ++ (b':' ∷ (decimal 5 options.port ++ options.endpoint_path)))
