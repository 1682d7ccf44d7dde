-- ===== src/Mno/Routes.antt =====
-- The senders that internal/sms/adapters/mno/factory.go chooses.
use sms_mno_gateway.Base.{
  Bool, true, false, ◌&&◌, if◌then◌else◌, inl, inr, ◌⊎◌, ◌≡◌, refl, Bool-cases,
}
use sms_mno_gateway.Domain.Network.{
  Network, safaricom, airtel, telkom, equitel, cm, intnl, unknown, network_eq, is_safaricom,
  network_is_valid,
}
use sms_mno_gateway.Domain.Errors.{Error}
use sms_mno_gateway.Domain.Message.{Message, network, is_transactional}
use sms_mno_gateway.Ports.Senders.{MnoSender, IsFaithful, IsFaithfulFactory}
use sms_mno_gateway.Mno.Smpp.{smpp_sender}
use sms_mno_gateway.Mno.Factory.{Factory, get_sender_by_network, get_sender, factory}
use sms_mno_gateway.Mno.Faithful.{smpp_sender-IsFaithful}
use sms_mno_gateway.Mno.SdpFaithful.{sdp_sender-IsFaithful}

-- What is chosen, if it is a sender, is faithful.
abbrev OnSender : {W : Type 0} → MnoSender W ⊎ Error → Type 0
OnSender (inl s) = IsFaithful s
OnSender (inr e) = Unit

chosen-IsFaithful :
    {W : Type 0} (c : MnoSender W ⊎ Error) (s : MnoSender W) → OnSender c → c ≡ inl s → IsFaithful s
chosen-IsFaithful c s h e = rw e at h

module _ {W : Type 0} (f : Factory W) where
  by_network-OnSender : (n : Network) → OnSender (get_sender_by_network f n)
  unfolding get_sender_by_network
  by_network-OnSender safaricom = sdp_sender-IsFaithful f.safaricom_sdp
  by_network-OnSender airtel = smpp_sender-IsFaithful f.airtel_sender
  by_network-OnSender telkom = smpp_sender-IsFaithful f.telkom_sender
  by_network-OnSender equitel = smpp_sender-IsFaithful f.equitel_sender
  by_network-OnSender cm = smpp_sender-IsFaithful f.cm_sender
  by_network-OnSender intnl = smpp_sender-IsFaithful f.cm_sender
  by_network-OnSender unknown = tt

  by_kind-OnSender :
      (split safe kind : Bool) (n : Network)
      → OnSender (
          if safe && kind
          then inl (smpp_sender f.safaricom_smpp)
          else if split
          then (if kind
              then inl (smpp_sender f.airtel_sender)
              else inl (smpp_sender f.airtel_promo))
          else get_sender_by_network f n)
  by_kind-OnSender split true true n = smpp_sender-IsFaithful f.safaricom_smpp
  by_kind-OnSender true true false n = smpp_sender-IsFaithful f.airtel_promo
  by_kind-OnSender false true false n = by_network-OnSender n
  by_kind-OnSender true false true n = smpp_sender-IsFaithful f.airtel_sender
  by_kind-OnSender true false false n = smpp_sender-IsFaithful f.airtel_promo
  by_kind-OnSender false false kind n = by_network-OnSender n

  -- Every sender that the factory chooses, for a message or for a network, whatever the HTTP client,
  -- the circuit breakers and the token cache do, gives results that are about the messages it was
  -- given: one for each message of a batch, in order.
  pub factory-IsFaithfulFactory : IsFaithfulFactory (factory f)
  unfolding factory get_sender
  factory-IsFaithfulFactory = record {
    by_message = λ m s e.
        chosen-IsFaithful _ s
          (by_kind-OnSender (network_eq (network m) airtel) (is_safaricom (network m))
            (is_transactional m) (network m))
          e;
    by_network = λ n s e. chosen-IsFaithful _ s (by_network-OnSender n) e;
  }

  network_sender :
      (n : Network)
      → network_is_valid n ≡ true
      → (s : MnoSender W) × (get_sender_by_network f n ≡ inl s)
  unfolding get_sender_by_network network_is_valid
  network_sender safaricom h = (_, refl)
  network_sender airtel h = (_, refl)
  network_sender telkom h = (_, refl)
  network_sender equitel h = (_, refl)
  network_sender cm h = (_, refl)
  network_sender intnl h = (_, refl)
  network_sender unknown h = absurd (cc h)

  -- A message whose network is valid has a sender.
  pub get_sender_valid :
      (m : Message)
      → network_is_valid (network m) ≡ true
      → (s : MnoSender W) × (get_sender f m ≡ inl s)
  unfolding get_sender
  get_sender_valid m h = elim (Bool-cases (is_safaricom (network m) && is_transactional m)) [
    | inl fast ↦ (smpp_sender f.safaricom_smpp, rw (fast, get_sender) refl)
    | inr other ↦ elim (Bool-cases (network_eq (network m) airtel)) [
      | inl split ↦ elim (Bool-cases (is_transactional m)) [
        | inl t ↦ (smpp_sender f.airtel_sender, rw (other, split, t, get_sender) refl)
        | inr p ↦ (smpp_sender f.airtel_promo, rw (other, split, p, get_sender) refl)
      ]
      | inr plain ↦
          let (s, e) = network_sender (network m) h in (s, rw (other, plain, get_sender) e)
    ]
  ]
