-- ===== src/Mno/Factory.antt =====
-- internal/sms/adapters/mno/factory.go.
use sms_mno_gateway.Base.{◌&&◌, if◌then◌else◌, codes, ◌++◌, ◌⊎◌, inl, inr}
use sms_mno_gateway.Domain.Network.{
  Network, safaricom, airtel, telkom, equitel, cm, intnl, unknown, network_string, network_eq,
  is_safaricom,
}
use sms_mno_gateway.Domain.Errors.{Error, sentinel, wrapped, sentinel_text, unknown_network}
use sms_mno_gateway.Domain.Message.{Message, network, is_transactional}
use sms_mno_gateway.Ports.Senders.{MnoSender, MnoSenderFactory}
use sms_mno_gateway.Mno.Smpp.{BaseSmppSender, smpp_sender}
use sms_mno_gateway.Mno.Sdp.{SafaricomSdpSender}
use sms_mno_gateway.Mno.SdpBatch.{sdp_sender}

pub record Factory (W : Type 0) : Type 0 where
  pub safaricom_sdp : SafaricomSdpSender W
  pub safaricom_smpp : BaseSmppSender W
  pub airtel_sender : BaseSmppSender W
  pub airtel_promo : BaseSmppSender W
  pub telkom_sender : BaseSmppSender W
  pub equitel_sender : BaseSmppSender W
  pub cm_sender : BaseSmppSender W

module _ {W : Type 0} (f : Factory W) where
  unfoldable pub get_sender_by_network : Network → MnoSender W ⊎ Error
  get_sender_by_network safaricom = inl (sdp_sender f.safaricom_sdp)
  get_sender_by_network airtel = inl (smpp_sender f.airtel_sender)
  get_sender_by_network telkom = inl (smpp_sender f.telkom_sender)
  get_sender_by_network equitel = inl (smpp_sender f.equitel_sender)
  get_sender_by_network cm = inl (smpp_sender f.cm_sender)
  get_sender_by_network intnl = inl (smpp_sender f.cm_sender)
  get_sender_by_network unknown = inr (
      wrapped (sentinel_text unknown_network ++ (codes ": " ++ network_string unknown))
        (sentinel unknown_network))

  unfoldable pub get_sender : Message → MnoSender W ⊎ Error
  unfolding get_sender_by_network
  get_sender m =
      let n = network m in
      if is_safaricom n && is_transactional m
      then inl (smpp_sender f.safaricom_smpp)
      else if network_eq n airtel
      then (if is_transactional m
          then inl (smpp_sender f.airtel_sender)
          else inl (smpp_sender f.airtel_promo))
      else get_sender_by_network n

  unfoldable pub factory : MnoSenderFactory W
  factory = record { get_sender = get_sender; get_sender_by_network = get_sender_by_network }
