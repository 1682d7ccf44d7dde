-- ===== src/Domain/Network.antt =====
-- internal/sms/domain/network.go.
use sms_mno_gateway.Base.{
  Bool, true, false, Str, codes, str_eq, trim_space, to_upper, if◌then◌else◌,
}

pub data Network : Type 0 where
  safaricom airtel telkom equitel cm intnl unknown : Network

pub Network-discrete : Discrete Network
Network-discrete = hlevel

-- The text that the Go constant is.
unfoldable pub network_string : Network → Str
network_string safaricom = codes "SAFARICOM"
network_string airtel = codes "AIRTEL"
network_string telkom = codes "TELKOM"
network_string equitel = codes "EQUITEL"
network_string cm = codes "CM"
network_string intnl = codes "INTNL"
network_string unknown = codes "UNKNOWN"

select_network : Str → Network
unfolding network_string
select_network s =
    if str_eq s (network_string safaricom)
    then safaricom
    else if str_eq s (network_string airtel)
    then airtel
    else if str_eq s (network_string telkom)
    then telkom
    else if str_eq s (network_string equitel)
    then equitel
    else if str_eq s (network_string cm)
    then cm
    else if str_eq s (network_string intnl)
    then intnl
    else unknown

unfoldable pub parse_network : Str → Network
unfolding select_network
parse_network s = select_network (to_upper (trim_space s))

unfoldable pub network_is_valid : Network → Bool
network_is_valid unknown = false
network_is_valid _ = true

unfoldable pub is_safaricom : Network → Bool
is_safaricom safaricom = true
is_safaricom _ = false

unfoldable pub is_international : Network → Bool
is_international cm = true
is_international intnl = true
is_international _ = false

unfoldable pub network_eq : Network → Network → Bool
network_eq safaricom safaricom = true
network_eq airtel airtel = true
network_eq telkom telkom = true
network_eq equitel equitel = true
network_eq cm cm = true
network_eq intnl intnl = true
network_eq unknown unknown = true
network_eq _ _ = false
