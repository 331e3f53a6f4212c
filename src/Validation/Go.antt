-- ===== src/Validation/Go.antt =====
-- What the validations call of Go's libraries and of k8s.io/apimachinery, as parameters. A parse that
-- fails is `none`; the tests of apimachinery are true where its list of complaints is empty.
use kubernaut_operator.Base.{ℕ, ℤ, String, Bool, Option, List}

-- url.URL with the values of its methods; `has_user` is `User != nil`
pub record Url : Type 0 where
  pub scheme : String
  pub host : String
  pub hostname : String
  pub port : String
  pub has_user : Bool
  pub opaque : String
  pub path : String
  pub escaped_path : String
  pub raw_query : String
  pub fragment : String

-- The classes of a float64 that math.IsNaN and math.IsInf tell apart.
pub data Float : Type 0 where
  finite infinite not_a_number : Float

-- The methods of net.IP that are called.
pub record Ip : Type 0 where
  pub is_loopback : Bool
  pub is_unspecified : Bool
  pub is_link_local_unicast : Bool
  pub is_link_local_multicast : Bool
  pub is_multicast : Bool

pub record Go : Type 0 where
  pub parse_url : String → Option Url
  pub parse_query : String → Option (List (String × List String))
  pub parse_duration : String → Option ℤ  -- in nanoseconds
  pub parse_float : String → Option Float
  pub parse_ip : String → Option Ip
  pub atoi : String → Option ℤ
  pub split_host_port : String → Option (String × String)
  pub join_host_port : String → String → String
  pub trim_space : String → String
  pub trim_brackets : String → String
  pub to_lower : String → String
  pub equal_fold : String → String → Bool
  pub contains_text : String → String → Bool
  pub contains_any : String → String → Bool
  pub count_text : String → String → ℕ
  pub remove_all : String → String → String
  pub is_abs : String → Bool
  pub base : String → String
  pub dir : String → String
  pub clean : String → String
  pub is_label_value : String → Bool
  pub is_dns1123_subdomain : String → Bool
  pub is_config_map_key : String → Bool
