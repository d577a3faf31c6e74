-- ===== src/PeerMessage/Tests.antt =====
-- Runs of the discovery packets, after the unit tests of
-- rita/src/rita_common/peer_listener/message.rs, and instances of the theorems.
use althea_rs.Prelude.{ℕ, ◌≡◌, refl, List, [], ◌∷◌, ◌++◌, arith}
use althea_rs.Prelude.Outcome.{ok, err}
use althea_rs.PeerMessage.{
  Ipv6Addr, im_here, encode, decode, decode_im_here, read_address, invalid_payload_error,
  invalid_magic, invalid_ip_address,
}
use althea_rs.PeerMessage.RoundTrip.{address, decode-encode}

abbrev packet : List ℕ
packet =
    91
    ∷ (0
        ∷ (19
            ∷ (0
                ∷ (0
                    ∷ (0
                        ∷ (0
                            ∷ (0
                                ∷ (0
                                    ∷ (0
                                        ∷ (0
                                            ∷ (0
                                                ∷ (0
                                                    ∷ (255
                                                        ∷ (255
                                                            ∷ (192
                                                            ∷ (10 ∷ (2 ∷ (255 ∷ []))))))))))))))))))

abbrev peer : Ipv6Addr
peer = address 0 0 0 0 0 0xffff 0xc00a 0x2ff

encode_im_here : encode (im_here peer) ≡ packet
unfolding encode
encode_im_here = refl

decode_imhere : decode packet ≡ ok (im_here peer)
unfolding decode decode_im_here read_address
decode_imhere = refl

decode_imhere_with_empty_buf : decode [] ≡ err invalid_payload_error
unfolding decode
decode_imhere_with_empty_buf = refl

decode_imhere_with_wrong_magic : decode (1 ∷ (2 ∷ (3 ∷ (4 ∷ [])))) ≡ err invalid_magic
unfolding decode
decode_imhere_with_wrong_magic = refl

decode_imhere_with_multicast_interface :
    decode (encode (im_here (address 0xff00 0xde 0xad 0xbe 0xef 0xb4 0xdc 0x0d)))
    ≡ err invalid_ip_address
unfolding decode decode_im_here read_address encode
decode_imhere_with_multicast_interface = refl

decode-encode_example : decode (encode (im_here peer) ++ (7 ∷ [])) ≡ ok (im_here peer)
decode-encode_example =
    decode-encode 0 0 0 0 0 0xffff 0xc00a 0x2ff
      (
        omega arith,
        (
          omega arith,
          (
            omega arith,
            (omega arith, (omega arith, (omega arith, (omega arith, (omega arith, tt))))),
          ),
        ),
      )
      (7 ∷ [])
