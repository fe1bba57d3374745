-- ===== src/Bpv7/Cbor/Endpoints/RoundTrip.antt =====
-- Endpoint IDs and timestamps that are written are read back.
use dtn7_gold.Prelude.{
  ℕ, ◌+◌, ◌<◌, ◌^◌, ◌≡◌, refl, ap, ◌∙◌, sym, Bool, true, false, List, [], ◌∷◌, ◌++◌, append_assoc,
  append-nil, arith, length, All, Option, some, ◌==◌, if◌then◌else◌,
}
use dtn7_gold.Prelude.Bytes.{equal}
use dtn7_gold.Wire.{ok, Reader, ◌>>=◌, pure, lift}
use dtn7_gold.Wire.Reads.{Reads, bind-Reads, last-Reads, guard-Reads}
use dtn7_gold.Wire.Laws.{bind_step}
use dtn7_gold.Bpv7.Endpoint.{
  EndpointId, DtnEndpoint, IpnEndpoint, no_endpoint, dtn, ipn, is_name_char, is_one_line,
  matches_tail, matches_ssp, endpoint_is_valid,
}
use dtn7_gold.Bpv7.Blocks.{CreationTimestamp}
use dtn7_gold.Bpv7.Cbor.{Codec, CodecLaws, text_string, unsigned_int}
use dtn7_gold.Bpv7.Cbor.Endpoints.{
  dtn_ssp, dtn_of, endpoint_bytes, marshal_endpoint, parse_name, parse_node, skip_slash, from_ssp,
  parse_dtn_ssp, dtn_after, unmarshal_dtn, unmarshal_ipn, unmarshal_endpoint, marshal_timestamp,
  unmarshal_timestamp,
}

abbrev pub IsName : List ℕ → Type 0
IsName = All (λ c. is_name_char c ≡ true)

-- A node name of the right characters and a demux in one line; nothing of this for the null endpoint.
abbrev pub IsDtn : Bool → List ℕ → List ℕ → Type 0
IsDtn true name demux = (name ≡ []) × (demux ≡ [])
IsDtn false name demux =
    (0 < length name)
    × IsName name
    × (is_one_line demux ≡ true)
    × (length (name ++ 0x2F ∷ demux) + 2 < 2 ^ 64)

abbrev pub IsEndpoint : EndpointId → Type 0
IsEndpoint no_endpoint = ⊥
IsEndpoint (dtn e) = IsDtn e.is_dtn_none e.node_name e.demux
IsEndpoint (ipn e) = (0 < e.node) × (e.node < 2 ^ 64) × (0 < e.service) × (e.service < 2 ^ 64)

slash-name : (c : ℕ) → is_name_char c ≡ true → (c == 0x2F) ≡ false
unfolding is_name_char
slash-name c h = ground arith

matches_tail-name :
    (name demux : List ℕ)
    → IsName name
    → is_one_line demux ≡ true
    → matches_tail (name ++ 0x2F ∷ demux) ≡ true
unfolding matches_tail
matches_tail-name [] demux h line = line
matches_tail-name (c ∷ name) demux h line =
    rw (slash-name c h.0, h.0, matches_tail-name name demux h.1 line)

parse_name-name :
    (acc name demux : List ℕ)
    → IsName name
    → is_one_line demux ≡ true
    → parse_name acc (name ++ 0x2F ∷ demux) ≡ some (acc ++ name, demux)
unfolding parse_name
parse_name-name acc [] demux h line = rw (line, append-nil)
parse_name-name acc (c ∷ name) demux h line = rw (
  slash-name c h.0,
  h.0,
  parse_name-name (acc ++ c ∷ []) name demux h.1 line,
  append_assoc acc (c ∷ []) name,
)

parse_dtn_ssp-ssp :
    (name demux : List ℕ)
    → IsDtn false name demux
    → parse_dtn_ssp (dtn_ssp (dtn_of name demux)) ≡ some (dtn_of name demux)
unfolding parse_dtn_ssp parse_node skip_slash equal
parse_dtn_ssp-ssp [] demux h = absurd (omega arith)
parse_dtn_ssp-ssp (c ∷ name) demux h =
    let first : is_name_char c ≡ true = h.1.0 in
    rw (first, parse_name-name (c ∷ []) name demux h.1.1 h.2)

pub endpoint-valid : (e : EndpointId) → IsEndpoint e → endpoint_is_valid e ≡ true
unfolding endpoint_is_valid
endpoint-valid no_endpoint h = absurd h
endpoint-valid (ipn e) h = ground arith
endpoint-valid (dtn e) h = go e.is_dtn_none e.node_name e.demux h
  where
    go :
        (flag : Bool) (name demux : List ℕ)
        → IsDtn flag name demux
        → (if flag then true else matches_ssp (name ++ 0x2F ∷ demux)) ≡ true
    go true name demux h' = refl
    go false [] demux h' = absurd (omega arith)
    go false (c ∷ name) demux h' =
        unfold matches_ssp in
        let first : is_name_char c ≡ true = h'.1.0 in
        rw (first, matches_tail-name name demux h'.1.1 h'.2)

pub marshal_endpoint-ok :
    (c : Codec) (e : EndpointId)
    → IsEndpoint e
    → marshal_endpoint c e ≡ ok (c.write_array_length 2 ++ endpoint_bytes c e)
unfolding marshal_endpoint
marshal_endpoint-ok c e h = rw (endpoint-valid e h)

module _ (c : Codec) (laws : CodecLaws c) where
  pub uint-Reads : (n : ℕ) → n < 2 ^ 64 → Reads c.read_uint (c.write_uint n) n
  uint-Reads n h = record { back = λ rest. laws.uint n rest h }

  pub array-Reads : (n : ℕ) → n < 2 ^ 64 → Reads c.read_array_length (c.write_array_length n) n
  array-Reads n h = record { back = λ rest. laws.array_length n rest h }

  -- An array of two elements, and then what follows.
  pub pair-Reads {ℓ} :
      {B : Type ℓ} (k : ℕ → Reader B) {xs : List ℕ} {b : B}
      → Reads (k 2) xs b
      → Reads (c.read_array_length >>= k) (c.write_array_length 2 ++ xs) b
  pair-Reads k h = bind-Reads k (array-Reads 2 (omega arith)) h

  pub timestamp-Reads :
      (t : CreationTimestamp)
      → t.dtn_time < 2 ^ 64
      → t.sequence_number < 2 ^ 64
      → Reads (unmarshal_timestamp c) (marshal_timestamp c t) t
  unfolding unmarshal_timestamp marshal_timestamp
  timestamp-Reads t ht hn = pair-Reads _ (
      guard-Reads _ _ refl
        (bind-Reads _ (uint-Reads t.dtn_time ht) (last-Reads _ (uint-Reads t.sequence_number hn))))

  pub ipn-Reads :
      (e : IpnEndpoint)
      → e.node < 2 ^ 64
      → e.service < 2 ^ 64
      → Reads
          (unmarshal_ipn c)
          (c.write_array_length 2 ++ (c.write_uint e.node ++ c.write_uint e.service))
          e
  unfolding unmarshal_ipn
  ipn-Reads e hn hs = pair-Reads _ (
      guard-Reads _ _ refl
        (bind-Reads _ (uint-Reads e.node hn) (last-Reads _ (uint-Reads e.service hs))))

  text-Reads :
      (name demux : List ℕ)
      → IsDtn false name demux
      → Reads
          (unmarshal_dtn c)
          (c.write_text_string (dtn_ssp (dtn_of name demux)))
          (dtn_of name demux)
  unfolding unmarshal_dtn dtn_after lift
  text-Reads name demux h =
      let ssp : List ℕ = dtn_ssp (dtn_of name demux) in
      let size : length ssp < 2 ^ 64 = omega (arith, h.3) in
      record {
        back = λ rest.
            bind_step c.read_majors _ _ (text_string, length ssp) (ssp ++ rest)
              (laws.majors_text ssp rest size)
            ∙ bind_step (c.read_raw_bytes (length ssp)) _ _ ssp rest (laws.raw_bytes ssp rest)
            ∙ ap (λ (p : Option DtnEndpoint). lift (from_ssp p) rest)
                (parse_dtn_ssp-ssp name demux h);
      }

  dtn-Reads :
      (flag : Bool) (name demux : List ℕ)
      → IsDtn flag name demux
      → Reads
          (unmarshal_dtn c)
          (if flag then c.write_uint 0 else c.write_text_string (dtn_ssp (dtn_of name demux)))
          (record { node_name = name; demux = demux; is_dtn_none = flag })
  unfolding unmarshal_dtn dtn_after pure
  dtn-Reads false name demux h = text-Reads name demux h
  dtn-Reads true name demux h = record {
    back = λ rest.
        bind_step c.read_majors _ _ (unsigned_int, 0) rest (laws.majors_uint 0 rest (omega arith))
        ∙ (λ i. ok (record { node_name = sym h.0 i; demux = sym h.1 i; is_dtn_none = true }, rest));
  }

  pub endpoint-Reads :
      (e : EndpointId)
      → IsEndpoint e
      → Reads (unmarshal_endpoint c) (c.write_array_length 2 ++ endpoint_bytes c e) e
  unfolding unmarshal_endpoint
  endpoint-Reads no_endpoint h = absurd h
  endpoint-Reads (dtn e) h = pair-Reads _ (
      guard-Reads _ _ refl (
        bind-Reads _ (uint-Reads 1 (omega arith))
          (last-Reads _ (dtn-Reads e.is_dtn_none e.node_name e.demux h))))
  endpoint-Reads (ipn e) h = pair-Reads _ (
      guard-Reads _ _ refl
        (bind-Reads _ (uint-Reads 2 (omega arith)) (last-Reads _ (ipn-Reads e h.1 h.3))))
