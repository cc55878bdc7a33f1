-- ===== src/Link/Framing/RoundTrip.antt =====
-- session/framing.py of the groundstation and framing.py of the client: frames, packed and read
-- back.
use reachy.Prelude.{
  ℕ, suc, ◌+◌, ◌^◌, ◌≤◌, ◌<◌, ◌≡◌, refl, [], ◌∷◌, ◌++◌, take, drop, length, ok, arith,
  length-append, take-length-append, drop-length-append, take-append-drop, length-take_within, ap,
  sym, ◌∙◌, All,
}
use reachy.Link.Contract.{Bytes, FrameHeader}
use reachy.Link.Libraries.{Codec}
use reachy.Link.Framing.{pack, unpack, encode_frame, decode_frame, max_header_bytes, prefix_size}

-- What the link relies on of pydantic for a header: reading back what was written gives the header,
-- and what is written is not empty.
pub record IsFaithful (codec : Codec FrameHeader) (h : FrameHeader) : Type 0 where
  pub reads_back : codec.from_wire (codec.to_wire h) ≡ ok h
  pub nonempty : 0 < length (codec.to_wire h)

unpack-pack : (n : ℕ) (rest : Bytes) → n < 2 ^ 32 → unpack (pack n ++ rest) ≡ n
unfolding unpack pack
unpack-pack n rest h = omega arith

drop_prefix : (n m : ℕ) (rest : Bytes) → drop (prefix_size + m) (pack n ++ rest) ≡ drop m rest
unfolding pack
drop_prefix n m rest = let four : 4 + m ≡ suc (suc (suc (suc m))) = omega arith in rw four

drop_prefix_all : (n : ℕ) (rest : Bytes) → drop prefix_size (pack n ++ rest) ≡ rest
unfolding pack
drop_prefix_all n rest = refl

length-pack : (n : ℕ) (rest : Bytes) → length (pack n ++ rest) ≡ prefix_size + length rest
unfolding pack
length-pack n rest = omega arith

-- The bytes of a header of a length within the bound, and a payload, read as that payload and what
-- the header's bytes read as.
decode-packed :
    (codec : Codec FrameHeader) (h : FrameHeader) (bytes payload : Bytes)
    → codec.from_wire bytes ≡ ok h
    → 0 < length bytes
    → length bytes ≤ max_header_bytes
    → 0 < length payload
    → decode_frame codec (pack (length bytes) ++ (bytes ++ payload)) ≡ ok (h, payload)
unfolding decode_frame
decode-packed codec h bytes payload reads some_bytes fits some_payload = ground (
  arith,
  reads,
  unpack-pack (length bytes) (bytes ++ payload),
  length-pack (length bytes) (bytes ++ payload),
  length-append bytes payload,
  drop_prefix_all (length bytes) (bytes ++ payload),
  drop_prefix (length bytes) (length bytes) (bytes ++ payload),
  take-length-append bytes payload,
  drop-length-append bytes payload,
)

-- A frame that the client packs is read by the groundstation as the same header and the same payload.
pub decode_frame-encode_frame :
    (codec : Codec FrameHeader) (h : FrameHeader) (payload : Bytes) {frame : Bytes}
    → IsFaithful codec h
    → encode_frame codec h payload ≡ ok frame
    → decode_frame codec frame ≡ ok (h, payload)
unfolding encode_frame
decode_frame-encode_frame codec h payload {frame} faithful e =
    ground
      (arith, decode-packed codec h (codec.to_wire h) payload faithful.reads_back faithful.nonempty)

abbrev pub IsByte : ℕ → Type 0
IsByte b = b < 256

pack-unpack :
    (a b c d : ℕ) (rest : Bytes)
    → All IsByte (a ∷ b ∷ c ∷ d ∷ rest)
    → pack (unpack (a ∷ b ∷ c ∷ d ∷ rest)) ≡ a ∷ b ∷ c ∷ d ∷ []
unfolding pack unpack
pack-unpack a b c d rest h =
    let w = h.0 in let x = h.1.0 in let y = h.1.1.0 in let z = h.1.1.1.0 in ground arith

-- What `decode_frame` accepts.
pub record IsFrame (codec : Codec FrameHeader) (frame : Bytes) (h : FrameHeader) (payload : Bytes)
    : Type 0 where
  pub header_bytes : Bytes
  pub packed : frame ≡ pack (length header_bytes) ++ (header_bytes ++ payload)
  pub reads : codec.from_wire header_bytes ≡ ok h
  pub not_empty : 0 < length header_bytes
  pub fits : length header_bytes ≤ max_header_bytes
  pub carries : 0 < length payload

-- What the checks of `decode_frame` leave, of a message of at least four bytes.
accepts :
    (codec : Codec FrameHeader) (frame : Bytes) (h : FrameHeader) (payload : Bytes)
    → decode_frame codec frame ≡ ok (h, payload)
    → (prefix_size ≤ length frame)
      × (0 < unpack frame)
      × (unpack frame ≤ max_header_bytes)
      × (prefix_size + unpack frame ≤ length frame)
      × (codec.from_wire (take (unpack frame) (drop prefix_size frame)) ≡ ok h)
      × (payload ≡ drop (prefix_size + unpack frame) frame)
      × (0 < length payload)
unfolding decode_frame
accepts codec frame h payload e = ground arith

-- A message of bytes that reads as a frame is, byte for byte, the length of a header of one to 4096
-- bytes, that header, and a payload that is not empty: the header returned is what those bytes read
-- as, and the payload is returned unaltered.
pub decode_frame_inverts :
    (codec : Codec FrameHeader) (frame : Bytes) (h : FrameHeader) (payload : Bytes)
    → All IsByte frame
    → decode_frame codec frame ≡ ok (h, payload)
    → IsFrame codec frame h payload
decode_frame_inverts codec [] h payload bytes e =
    absurd (omega (arith, accepts codec [] h payload e))
decode_frame_inverts codec (a ∷ []) h payload bytes e =
    absurd (omega (arith, accepts codec (a ∷ []) h payload e))
decode_frame_inverts codec (a ∷ b ∷ []) h payload bytes e =
    absurd (omega (arith, accepts codec (a ∷ b ∷ []) h payload e))
decode_frame_inverts codec (a ∷ b ∷ c ∷ []) h payload bytes e =
    absurd (omega (arith, accepts codec (a ∷ b ∷ c ∷ []) h payload e))
decode_frame_inverts codec (a ∷ b ∷ c ∷ d ∷ rest) h payload bytes e =
    let frame : Bytes = a ∷ b ∷ c ∷ d ∷ rest in
    let n : ℕ = unpack frame in
    let found = accepts codec frame h payload e in
    let size : length (take n rest) ≡ n = length-take_within n rest (omega (arith, found)) in
    let word : pack n ≡ a ∷ b ∷ c ∷ d ∷ [] = pack-unpack a b c d rest bytes in
    let tail : payload ≡ drop n rest =
      found.5
      ∙ ap (λ (xs : Bytes). drop (prefix_size + n) (xs ++ rest)) (sym word)
      ∙ drop_prefix n n rest in
    record {
      header_bytes = take n rest;
      packed = rw (size, word, tail, take-append-drop n rest);
      reads = found.4;
      not_empty = omega (arith, size, found);
      fits = omega (arith, size, found);
      carries = found.6;
    }
