-- ===== src/Examples/Wire.antt =====
-- The messages of the link, at concrete values.
use reachy.Prelude.{◌≡◌, refl, [], ◌∷◌, ok, All, arith, distinct, is_member}
use reachy.Link.Contract.{SessionAgreement, negotiate, new_offer, reject_duplicate_names}
use reachy.Link.Contract.Negotiation.{IsAgreed, negotiate_agrees}
use reachy.Link.Framing.{encode_frame, decode_frame, pack}
use reachy.Link.Framing.RoundTrip.{
  IsFaithful, decode_frame-encode_frame, IsByte, IsFrame, decode_frame_inverts,
}
use reachy.Examples.{
  read_header, face_one, other_one, face_offer, header_three, headers, jpeg, frame_bytes,
}

headers-IsFaithful : IsFaithful headers header_three
unfolding read_header
headers-IsFaithful = record { reads_back = refl; nonempty = omega arith }

packed : encode_frame headers header_three jpeg ≡ ok frame_bytes
unfolding encode_frame pack
packed = refl

frame_bytes-All : All IsByte frame_bytes
frame_bytes-All = ground arith

decode_frame-encode_frame_example : decode_frame headers frame_bytes ≡ ok (header_three, jpeg)
decode_frame-encode_frame_example =
    decode_frame-encode_frame headers header_three jpeg headers-IsFaithful packed

decode_frame_inverts_example : IsFrame headers frame_bytes header_three jpeg
decode_frame_inverts_example =
    decode_frame_inverts headers frame_bytes header_three jpeg frame_bytes-All
      decode_frame-encode_frame_example

offer_is_valid : new_offer "secret" (face_one ∷ []) ≡ ok face_offer
unfolding new_offer reject_duplicate_names distinct is_member
offer_is_valid = refl

negotiate_agrees_example :
    (a : SessionAgreement) × (negotiate face_offer (other_one ∷ face_one ∷ []) ≡ ok a)
    × IsAgreed face_offer (other_one ∷ face_one ∷ []) a
negotiate_agrees_example =
    negotiate_agrees "secret" (face_one ∷ []) face_offer (other_one ∷ face_one ∷ []) offer_is_valid
