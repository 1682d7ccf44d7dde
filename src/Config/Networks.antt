-- ===== src/Config/Networks.antt =====
-- The part of Load of internal/config/config.go that describes the networks.
use sms_mno_gateway.Base.{ℤ, pos, Option, Str, codes, []}
use sms_mno_gateway.Config.{Env, get_env, get_env_as_int, get_env_as_duration}
use sms_mno_gateway.Config.Types.{SdpConfig, SmppConfig, MnoConfig}

module _ (parse_duration : Str → Option ℤ) (env : Env) where
  unfoldable pub load_safaricom_sdp : SdpConfig
  load_safaricom_sdp = record {
    auth_url =
        get_env env (codes "SDP_AUTH_URL")
          (codes "https://dsvc2.safaricom.com:9480/api/auth/login");
    send_url =
        get_env env (codes "SDP_SEND_URL")
          (codes "https://dsvc2.safaricom.com:9480/api/public/CMS/bulksms");
    auth_user = get_env env (codes "SDP_USERNAME") (get_env env (codes "SDP_USER") (codes ""));
    country_prefix = get_env env (codes "COUNTRY_PREFIX") (codes "");
    username = get_env env (codes "SDP_USER") (get_env env (codes "SDP_USERNAME") (codes ""));
    password = get_env env (codes "SDP_PASSWORD") (codes "");
    dlr_url = get_env env (codes "SDP_DLR_URL") (codes "https://smsdlr.emalify.com/save");
    dlr_url_api_v2 =
        get_env env (codes "SDP_DLR_URL_API_V2")
          (get_env env (codes "SDP_DLR_URL") (codes "https://smsdlr.emalify.com/save"));
    token_key = get_env env (codes "SDP_TOKEN_KEY") (codes "SDP_TOKEN_KEY");
    token_ttl = get_env_as_duration parse_duration env (codes "SDP_TOKEN_TTL") (pos 1500000000000);
    promo_sdp_batch_size = get_env_as_int env (codes "SDP_PROMO_BATCH_SIZE") (pos 1);
    response_header_timeout =
        get_env_as_duration parse_duration env (codes "SDP_RESPONSE_HEADER_TIMEOUT")
          (pos 60000000000);
    request_timeout =
        get_env_as_duration parse_duration env (codes "SDP_REQUEST_TIMEOUT") (pos 65000000000);
  }

  unfoldable pub load_safaricom_smpp : SmppConfig
  load_safaricom_smpp = record {
    url = get_env env (codes "SAFARICOM_SMPP_URL") (codes "http://10.0.0.87:80/cgi-bin/sendsms");
    smsc = get_env env (codes "SAFARICOM_SMPP_SMSC") (codes "SAFARICOM");
    username = get_env env (codes "SAFARICOM_SMPP_USERNAME") (codes "");
    password = get_env env (codes "SAFARICOM_SMPP_PASSWORD") (codes "");
    dlr_url = get_env env (codes "SAFARICOM_SMPP_DLR_URL") (codes "http://10.0.0.100:8088/save");
    dlr_url_api_v2 =
        get_env env (codes "SAFARICOM_SMPP_DLR_URL_API_V2")
          (get_env env (codes "SAFARICOM_SMPP_DLR_URL") (codes "http://10.0.0.100:8088/save"));
  }

  unfoldable pub load_airtel : SmppConfig
  load_airtel = record {
    url = get_env env (codes "AIRTEL_SMPP_URL") (codes "http://10.0.0.88:14013/cgi-bin/sendsms");
    smsc = get_env env (codes "AIRTEL_SMPP_SMSC") (codes "AIRTEL");
    username = get_env env (codes "AIRTEL_SMPP_USERNAME") (codes "");
    password = get_env env (codes "AIRTEL_SMPP_PASSWORD") (codes "");
    dlr_url = get_env env (codes "AIRTEL_SMPP_DLR_URL") (codes "http://10.0.0.100:8088/save");
    dlr_url_api_v2 =
        get_env env (codes "AIRTEL_SMPP_DLR_URL_API_V2")
          (get_env env (codes "AIRTEL_SMPP_DLR_URL") (codes "http://10.0.0.100:8088/save"));
  }

  unfoldable pub load_airtel_promo : SmppConfig
  load_airtel_promo = record {
    url =
        get_env env (codes "AIRTEL_SMPP_URL_PROMO")
          (get_env env (codes "AIRTEL_SMPP_URL") (codes "http://10.0.0.88:14013/cgi-bin/sendsms"));
    smsc =
        get_env env (codes "AIRTEL_SMPP_SMSC_PROMO")
          (get_env env (codes "AIRTEL_SMPP_SMSC") (codes "AIRTEL"));
    username =
        get_env env (codes "AIRTEL_SMPP_USERNAME_PROMO")
          (get_env env (codes "AIRTEL_SMPP_USERNAME") (codes ""));
    password =
        get_env env (codes "AIRTEL_SMPP_PASSWORD_PROMO")
          (get_env env (codes "AIRTEL_SMPP_PASSWORD") (codes ""));
    dlr_url =
        get_env env (codes "AIRTEL_SMPP_DLR_URL_PROMO")
          (get_env env (codes "AIRTEL_SMPP_DLR_URL") (codes "http://10.0.0.100:8088/save"));
    dlr_url_api_v2 = get_env env (codes "AIRTEL_SMPP_DLR_URL_PROMO_API_V2") (
        get_env env (codes "AIRTEL_SMPP_DLR_URL_PROMO")
          (get_env env (codes "AIRTEL_SMPP_DLR_URL") (codes "http://10.0.0.100:8088/save")));
  }

  unfoldable pub load_telkom : SmppConfig
  load_telkom = record {
    url = get_env env (codes "TELKOM_SMPP_URL") (codes "http://34.77.25.98:14013/cgi-bin/sendsms");
    smsc = get_env env (codes "TELKOM_SMPP_SMSC") (codes "TELKOM");
    username = get_env env (codes "TELKOM_SMPP_USERNAME") (codes "");
    password = get_env env (codes "TELKOM_SMPP_PASSWORD") (codes "");
    dlr_url = get_env env (codes "TELKOM_SMPP_DLR_URL") (codes "http://197.248.69.107:48088/save");
    dlr_url_api_v2 =
        get_env env (codes "TELKOM_SMPP_DLR_URL_API_V2")
          (get_env env (codes "TELKOM_SMPP_DLR_URL") (codes "http://197.248.69.107:48088/save"));
  }

  unfoldable pub load_equitel : SmppConfig
  load_equitel = record {
    url = get_env env (codes "EQUITEL_SMPP_URL") (codes "http://10.0.0.87:80/cgi-bin/sendsms");
    smsc = get_env env (codes "EQUITEL_SMPP_SMSC") (codes "EQUITEL");
    username = get_env env (codes "EQUITEL_SMPP_USERNAME") (codes "");
    password = get_env env (codes "EQUITEL_SMPP_PASSWORD") (codes "");
    dlr_url = get_env env (codes "EQUITEL_SMPP_DLR_URL") (codes "http://10.0.0.100:8088/save");
    dlr_url_api_v2 =
        get_env env (codes "EQUITEL_SMPP_DLR_URL_API_V2")
          (get_env env (codes "EQUITEL_SMPP_DLR_URL") (codes "http://10.0.0.100:8088/save"));
  }

  unfoldable pub load_cm : SmppConfig
  load_cm = record {
    url = get_env env (codes "CM_SMPP_URL") (codes "http://34.77.25.98:14013/cgi-bin/sendsms");
    smsc = get_env env (codes "CM_SMPP_SMSC") (codes "CM");
    username = get_env env (codes "CM_SMPP_USERNAME") (codes "");
    password = get_env env (codes "CM_SMPP_PASSWORD") (codes "");
    dlr_url = get_env env (codes "CM_SMPP_DLR_URL") (codes "http://10.0.0.100:8088/save");
    dlr_url_api_v2 = [];
  }

  unfoldable pub load_mno : MnoConfig
  unfolding load_safaricom_sdp load_safaricom_smpp load_airtel load_airtel_promo load_telkom
      load_equitel load_cm
  load_mno = record {
    safaricom_sdp = load_safaricom_sdp;
    safaricom_smpp = load_safaricom_smpp;
    airtel = load_airtel;
    airtel_promo = load_airtel_promo;
    telkom = load_telkom;
    equitel = load_equitel;
    cm = load_cm;
  }
