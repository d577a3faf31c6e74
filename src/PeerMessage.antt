-- ===== src/PeerMessage.antt =====
-- rita/src/rita_common/peer_listener/message.rs: the discovery packet of a neighbour. Bytes are
-- numbers, and a `Cursor` is the list of the bytes that it has not read.
pub mod RoundTrip
mod Tests
use althea_rs.Prelude.{
  ℕ, zero, suc, ◌+◌, ◌*◌, ◌/◌, ◌%◌, Bool, true, false, Option, none, some, List, [], ◌∷◌, ◌++◌, ltb,
  ◌==◌, ◌&&◌, ◌||◌, get_or, set, if◌then◌else◌,
}
use althea_rs.Prelude.Outcome.{Outcome, ok, err}

pub data MessageError : Type 0 where
  invalid_payload_error buffer_underflow invalid_magic io_error invalid_ip_address : MessageError

abbrev pub msg_im_here : ℕ
msg_im_here = 0x5b

abbrev pub msg_im_here_len : ℕ
msg_im_here_len = 19

-- `std::net::Ipv6Addr` by its eight segments of sixteen bits, as `Ipv6Addr::new` takes them.
pub record Ipv6Addr : Type 0 where
  pub segments : List ℕ

pub data PeerMessage : Type 0 where
  im_here : Ipv6Addr → PeerMessage

-- `put_u16_be`
abbrev pub put_u16_be : ℕ → List ℕ → List ℕ
put_u16_be n buf = n / 256 % 256 ∷ (n % 256 ∷ buf)

-- `Ipv6Addr::octets`, in front of other bytes.
abbrev pub octets : List ℕ → List ℕ → List ℕ
octets [] buf = buf
octets (segment ∷ segments) buf = put_u16_be segment (octets segments buf)

-- `PeerMessage::encode`
unfoldable pub encode : PeerMessage → List ℕ
encode (im_here addr) = msg_im_here ∷ put_u16_be msg_im_here_len (octets addr.segments [])

-- `read_u16::<BigEndian>`
abbrev pub read_u16 : List ℕ → Option (ℕ × List ℕ)
read_u16 [] = none
read_u16 (high ∷ []) = none
read_u16 (high ∷ (low ∷ buf)) = some (high * 256 + low, buf)

-- The `for` loop, from an index downwards.
unfoldable pub read_address : ℕ → List ℕ → List ℕ → Option (List ℕ)
read_address zero peer_address_arr buf = some peer_address_arr
read_address (suc i) peer_address_arr buf = elim (read_u16 buf) [
  | none ↦ none
  | some (segment, rest) ↦ read_address i (set peer_address_arr i segment) rest
]

abbrev pub from_array : List ℕ → Ipv6Addr
from_array arr = record {
  segments =
      get_or arr 7 0
      ∷ (get_or arr 6 0
          ∷ (get_or arr 5 0
              ∷ (get_or arr 4 0
                  ∷ (get_or arr 3 0
                      ∷ (get_or arr 2 0 ∷ (get_or arr 1 0 ∷ (get_or arr 0 0 ∷ [])))))));
}

abbrev pub ffff : List ℕ
ffff = 0xFFFF ∷ (0xFFFF ∷ (0xFFFF ∷ (0xFFFF ∷ (0xFFFF ∷ (0xFFFF ∷ (0xFFFF ∷ (0xFFFF ∷ [])))))))

abbrev segments_eq : List ℕ → List ℕ → Bool
segments_eq [] [] = true
segments_eq [] (y ∷ ys) = false
segments_eq (x ∷ xs) [] = false
segments_eq (x ∷ xs) (y ∷ ys) = x == y && segments_eq xs ys

-- `is_unspecified`, `is_loopback` and `is_multicast` of `std::net::Ipv6Addr`.
abbrev pub is_unspecified : Ipv6Addr → Bool
is_unspecified addr = segments_eq addr.segments (0 ∷ (0 ∷ (0 ∷ (0 ∷ (0 ∷ (0 ∷ (0 ∷ (0 ∷ []))))))))

abbrev pub is_loopback : Ipv6Addr → Bool
is_loopback addr = segments_eq addr.segments (0 ∷ (0 ∷ (0 ∷ (0 ∷ (0 ∷ (0 ∷ (0 ∷ (1 ∷ []))))))))

abbrev pub is_multicast : Ipv6Addr → Bool
is_multicast addr = get_or addr.segments 0 0 / 256 == 255

abbrev pub is_invalid : Ipv6Addr → Bool
is_invalid addr = is_unspecified addr || (is_loopback addr || is_multicast addr)

unfoldable pub decode_im_here : List ℕ → Outcome MessageError PeerMessage
unfolding read_address
decode_im_here buf = elim (read_u16 buf) [
  | none ↦ err io_error
  | some (packet_size, rest) ↦
      if ltb packet_size msg_im_here_len
      then err buffer_underflow
      else (elim (read_address 8 ffff rest) [
        | none ↦ err io_error
        | some arr ↦
            if is_invalid (from_array arr)
            then err invalid_ip_address
            else ok (im_here (from_array arr))
      ])
]

-- `PeerMessage::decode`
unfoldable pub decode : List ℕ → Outcome MessageError PeerMessage
unfolding decode_im_here
decode [] = err invalid_payload_error
decode (packet_magic ∷ buf) =
    if packet_magic == msg_im_here then decode_im_here buf else err invalid_magic
