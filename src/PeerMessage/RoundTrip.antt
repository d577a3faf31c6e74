-- ===== src/PeerMessage/RoundTrip.antt =====
-- rita/src/rita_common/peer_listener/message.rs: what was encoded is decoded again.
use althea_rs.Prelude.{
  ℕ, zero, suc, ◌+◌, ◌*◌, ◌/◌, ◌%◌, ◌<◌, ◌≤◌, ◌≡◌, ◌≢◌, refl, ◌∙◌, false, Option, none, some, List,
  [], ◌∷◌, ◌++◌, ltb, All, length, set, arith, if◌then◌else◌,
}
use althea_rs.Prelude.Outcome.{ok, err}
use althea_rs.PeerMessage.{
  Ipv6Addr, PeerMessage, im_here, encode, decode, decode_im_here, read_u16, read_address,
  is_invalid, put_u16_be, octets, ffff, from_array, invalid_ip_address,
}

-- The segments of an address.
abbrev pub address : ℕ → ℕ → ℕ → ℕ → ℕ → ℕ → ℕ → ℕ → Ipv6Addr
address a b c d e f g h = record { segments = a ∷ (b ∷ (c ∷ (d ∷ (e ∷ (f ∷ (g ∷ (h ∷ []))))))) }

read_u16-put : (n : ℕ) (buf : List ℕ) → n < 65536 → read_u16 (put_u16_be n buf) ≡ some (n, buf)
read_u16-put n buf h = let e : n / 256 % 256 * 256 + n % 256 ≡ n = omega arith in rw e refl

read_address-put :
    (i n : ℕ) (arr buf : List ℕ)
    → n < 65536
    → read_address (suc i) arr (put_u16_be n buf) ≡ read_address i (set arr i n) buf
unfolding read_address
read_address-put i n arr buf h =
    let e : n / 256 % 256 * 256 + n % 256 ≡ n = omega arith in rw (e, read_address) refl

read_address-length :
    (i : ℕ) (arr buf arr' : List ℕ) → read_address i arr buf ≡ some arr' → 2 * i ≤ length buf
unfolding read_address
read_address-length zero arr buf arr' h = omega arith
read_address-length (suc i) arr [] arr' h = absurd (ground arith)
read_address-length (suc i) arr (x ∷ []) arr' h = absurd (ground arith)
read_address-length (suc i) arr (x ∷ (y ∷ buf)) arr' h =
    let rest = read_address-length i (set arr i (x * 256 + y)) buf arr' h in omega arith

-- The array after segments are written to it from its end downwards.
abbrev filled : List ℕ → List ℕ → List ℕ
filled [] arr = arr
filled (segment ∷ segments) arr = filled segments (set arr (length segments) segment)

read_address-octets :
    (segments arr buf : List ℕ)
    → All (λ segment. segment < 65536) segments
    → read_address (length segments) arr (octets segments buf) ≡ some (filled segments arr)
unfolding read_address
read_address-octets [] arr buf h = refl
read_address-octets (segment ∷ segments) arr buf (h, hs) =
    read_address-put (length segments) segment arr (octets segments buf) h
    ∙ read_address-octets segments (set arr (length segments) segment) buf hs

decode_im_here-read :
    (y z : ℕ) (buf arr : List ℕ)
    → ltb (y * 256 + z) 19 ≡ false
    → read_address 8 ffff buf ≡ some arr
    → decode_im_here (y ∷ (z ∷ buf)) ≡ (
        if is_invalid (from_array arr)
        then err invalid_ip_address
        else ok (im_here (from_array arr)))
unfolding decode_im_here
decode_im_here-read y z buf arr hs h = rw (hs, h, decode_im_here) refl

decode_im_here-unread :
    (y z : ℕ) (buf : List ℕ) (message : PeerMessage)
    → read_address 8 ffff buf ≡ none
    → decode_im_here (y ∷ (z ∷ buf)) ≢ ok message
unfolding decode_im_here
decode_im_here-unread y z buf message h = ground (arith, h)

-- Every segment has sixteen bits.
abbrev pub IsAddress : Ipv6Addr → Type 0
IsAddress ip = All (λ segment. segment < 65536) ip.segments

module _ (a b c d e f g h : ℕ) (valid : IsAddress (address a b c d e f g h)) (rest : List ℕ) where
  -- The encoding of an address with segments of sixteen bits, whatever bytes follow it, is decoded
  -- to the address again, or is
  -- refused if the address is unspecified, the loopback address or a multicast address.
  pub decode-encode : decode (encode (im_here (address a b c d e f g h)) ++ rest) ≡ (
      if is_invalid (address a b c d e f g h)
      then err invalid_ip_address
      else ok (im_here (address a b c d e f g h)))
  unfolding decode encode
  decode-encode =
      decode_im_here-read 0 19 (octets (address a b c d e f g h).segments rest) _ refl
        (read_address-octets (address a b c d e f g h).segments ffff rest valid)

accepted-length :
    (y z : ℕ) (buf : List ℕ) (message : PeerMessage) (read : Option (List ℕ))
    → read_address 8 ffff buf ≡ read
    → decode_im_here (y ∷ (z ∷ buf)) ≡ ok message
    → 16 ≤ length buf
accepted-length y z buf message none e h = absurd (decode_im_here-unread y z buf message e h)
accepted-length y z buf message (some arr) e h = read_address-length 8 ffff buf arr e

decode-magic :
    (x : ℕ) (buf : List ℕ) (message : PeerMessage)
    → decode (x ∷ buf) ≡ ok message
    → decode_im_here buf ≡ ok message
unfolding decode
decode-magic x buf message h = ground arith

-- A packet that is decoded has at least nineteen bytes: its magic, its size and the address.
pub decode-length :
    (buf : List ℕ) (message : PeerMessage) → decode buf ≡ ok message → 19 ≤ length buf
unfolding decode decode_im_here
decode-length [] message h = absurd (ground arith)
decode-length (x ∷ []) message h = absurd (ground arith)
decode-length (x ∷ (y ∷ [])) message h = absurd (ground arith)
decode-length (x ∷ (y ∷ (z ∷ buf))) message h =
    let enough =
      accepted-length y z buf message (read_address 8 ffff buf) refl
        (decode-magic x (y ∷ (z ∷ buf)) message h) in
    omega arith
