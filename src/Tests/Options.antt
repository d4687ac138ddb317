-- ===== src/Tests/Options.antt =====
-- The default options of a server, with one namespace more.
use rtt_opcua.Base.{◌≡◌, refl, ◌↔◌, none, [], ◌∷◌, codes, text_eq, has_byte, listed}
use rtt_opcua.ServerOptions.{
  ServerOptions, is_loopback_address, starts_with_slash, has_unsupported, check_uris,
  validate_server_options, endpoint_url,
}
use rtt_opcua.ServerOptions.Accepted.{IsAccepted, validate_server_options_iff}

abbrev default_options : ServerOptions
default_options = record {
  bind_address = codes "127.0.0.1";
  port = 4840;
  endpoint_path = codes "/rtt";
  application_name = codes "Orocos RTT OPC UA";
  additional_namespace_uris = codes "urn:robot" ∷ [];
}

validate_server_options_iff_example :
    (validate_server_options default_options ≡ none) ↔ IsAccepted default_options
validate_server_options_iff_example = validate_server_options_iff default_options

default_accepted : validate_server_options default_options ≡ none
unfolding validate_server_options is_loopback_address has_unsupported starts_with_slash check_uris
    text_eq has_byte listed
default_accepted = refl

abbrev other_options : ServerOptions
other_options = record default_options { application_name = codes "other" }

default-IsAccepted : IsAccepted default_options
default-IsAccepted = (validate_server_options_iff default_options).0 default_accepted

other_accepted : validate_server_options other_options ≡ none
unfolding validate_server_options is_loopback_address has_unsupported starts_with_slash check_uris
    text_eq has_byte listed
other_accepted = refl

same_url : endpoint_url default_options ≡ endpoint_url other_options
unfolding endpoint_url
same_url = refl
