-- ===== src/Bpv7/Cbor/Endpoints.antt =====
-- pkg/bpv7/endpoint.go, endpoint_dtn.go, endpoint_ipn.go and time.go: endpoint IDs and creation
-- timestamps in CBOR.
pub mod RoundTrip
use dtn7_gold.Prelude.{
  ℕ, Bool, true, false, List, [], ◌∷◌, ◌++◌, length, Option, none, some, ◌==◌, if◌then◌else◌,
}
use dtn7_gold.Prelude.Bytes.{equal}
use dtn7_gold.Wire.{
  Error, wrong_length, wrong_endpoint, unknown_scheme, Result, ok, err, Reader, ◌>>=◌, ◌>>◌, guard,
  pure, lift, ◌⊕◌,
}
use dtn7_gold.Bpv7.Endpoint.{
  EndpointId, DtnEndpoint, IpnEndpoint, no_endpoint, dtn, ipn, is_name_char, is_one_line,
  endpoint_is_valid,
}
use dtn7_gold.Bpv7.Blocks.{CreationTimestamp}
use dtn7_gold.Bpv7.Cbor.{Codec, Major, unsigned_int, text_string, other_major}

abbrev pub dtn_scheme : ℕ
dtn_scheme = 1

abbrev pub ipn_scheme : ℕ
ipn_scheme = 2

-- The scheme specific part "//node/demux".
abbrev pub dtn_ssp : DtnEndpoint → List ℕ
dtn_ssp e = 0x2F ∷ 0x2F ∷ (e.node_name ++ 0x2F ∷ e.demux)

abbrev pub endpoint_bytes : Codec → EndpointId → List ℕ
endpoint_bytes c no_endpoint = []
endpoint_bytes c (dtn e) =
    c.write_uint dtn_scheme
    ++ (if e.is_dtn_none then c.write_uint 0 else c.write_text_string (dtn_ssp e))
endpoint_bytes c (ipn e) =
    c.write_uint ipn_scheme
    ++ (c.write_array_length 2 ++ (c.write_uint e.node ++ c.write_uint e.service))

-- `EndpointID.MarshalCbor`; nil is not valid.
unfoldable pub marshal_endpoint : Codec → EndpointId → Result (List ℕ)
marshal_endpoint c e =
    if endpoint_is_valid e
    then ok (c.write_array_length 2 ++ endpoint_bytes c e)
    else err wrong_endpoint

-- The node name and the demux of `^([\w-._]+)/(.*)$`, after the characters of the name so far.
unfoldable pub parse_name : List ℕ → List ℕ → Option (List ℕ × List ℕ)
unfolding is_name_char is_one_line
parse_name name [] = none
parse_name name (c ∷ cs) =
    let more = parse_name (name ++ c ∷ []) cs in
    if c == 0x2F
    then (if is_one_line cs then some (name, cs) else none)
    else if is_name_char c
    then more
    else none

unfoldable pub parse_node : List ℕ → Option (List ℕ × List ℕ)
unfolding parse_name
parse_node [] = none
parse_node (c ∷ cs) = if is_name_char c then parse_name (c ∷ []) cs else none

unfoldable pub skip_slash : List ℕ → Option (List ℕ)
skip_slash [] = none
skip_slash (c ∷ cs) = if c == 0x2F then some cs else none

abbrev pub dtn_of : List ℕ → List ℕ → DtnEndpoint
dtn_of name demux = record { node_name = name; demux = demux; is_dtn_none = false }

abbrev pub with_node : Option (List ℕ × List ℕ) → Option DtnEndpoint
with_node none = none
with_node (some (name, demux)) = some (dtn_of name demux)

abbrev pub after_slashes : Option (List ℕ) → Option (List ℕ)
after_slashes none = none
after_slashes (some cs) = skip_slash cs

abbrev pub node_after : Option (List ℕ) → Option DtnEndpoint
node_after none = none
node_after (some cs) = with_node (parse_node cs)

abbrev pub none_ssp : List ℕ
none_ssp = 0x6E ∷ 0x6F ∷ 0x6E ∷ 0x65 ∷ []

abbrev pub the_null_endpoint : DtnEndpoint
the_null_endpoint = record { node_name = []; demux = []; is_dtn_none = true }

-- `parseDtnSsp`.
unfoldable pub parse_dtn_ssp : List ℕ → Option DtnEndpoint
unfolding skip_slash parse_node
parse_dtn_ssp ssp =
    if equal ssp none_ssp
    then some the_null_endpoint
    else node_after (after_slashes (skip_slash ssp))

-- "none" as a text is refused.
abbrev pub from_ssp : Option DtnEndpoint → Result DtnEndpoint
from_ssp none = err wrong_endpoint
from_ssp (some e) = if e.is_dtn_none then err wrong_endpoint else ok e

unfoldable pub dtn_after : Codec → Major × ℕ → Reader DtnEndpoint
unfolding parse_dtn_ssp
dtn_after c (unsigned_int, n) = pure the_null_endpoint
dtn_after c (text_string, n) = do ssp ← c.read_raw_bytes n; lift (from_ssp (parse_dtn_ssp ssp))
dtn_after c (other_major, n) = λ bs. err wrong_endpoint

unfoldable pub unmarshal_dtn : Codec → Reader DtnEndpoint
unfolding dtn_after
unmarshal_dtn c = do major ← c.read_majors; dtn_after c major

unfoldable pub unmarshal_ipn : Codec → Reader IpnEndpoint
unmarshal_ipn c = do
  n ← c.read_array_length
  guard (n == 2) wrong_length
  node ← c.read_uint
  service ← c.read_uint
  pure (record { node = node; service = service })

abbrev pub unmarshal_scheme : Codec → ℕ → Reader EndpointId
unmarshal_scheme c scheme =
    if scheme == dtn_scheme
    then (do e ← unmarshal_dtn c; pure (dtn e))
    else if scheme == ipn_scheme
    then (do e ← unmarshal_ipn c; pure (ipn e))
    else λ bs. err unknown_scheme

unfoldable pub unmarshal_endpoint : Codec → Reader EndpointId
unfolding unmarshal_dtn unmarshal_ipn
unmarshal_endpoint c = do
  n ← c.read_array_length
  guard (n == 2) wrong_length
  scheme ← c.read_uint
  unmarshal_scheme c scheme

unfoldable pub marshal_timestamp : Codec → CreationTimestamp → List ℕ
marshal_timestamp c t =
    c.write_array_length 2 ++ (c.write_uint t.dtn_time ++ c.write_uint t.sequence_number)

unfoldable pub unmarshal_timestamp : Codec → Reader CreationTimestamp
unmarshal_timestamp c = do
  n ← c.read_array_length
  guard (n == 2) wrong_length
  time ← c.read_uint
  number ← c.read_uint
  pure (record { dtn_time = time; sequence_number = number })
