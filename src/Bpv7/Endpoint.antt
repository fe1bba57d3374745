-- ===== src/Bpv7/Endpoint.antt =====
-- pkg/bpv7/endpoint.go, endpoint_dtn.go and endpoint_ipn.go: endpoint IDs. A string is its bytes.
use dtn7_gold.Prelude.{
  ℕ, Bool, true, false, not, ◌&&◌, ◌||◌, List, [], ◌∷◌, ◌++◌, ◌==◌, leb, ltb, if◌then◌else◌,
}
use dtn7_gold.Prelude.Bytes.{equal}

pub record DtnEndpoint : Type 0 where
  pub node_name : List ℕ
  pub demux : List ℕ
  pub is_dtn_none : Bool

pub record IpnEndpoint : Type 0 where
  pub node : ℕ
  pub service : ℕ

-- `EndpointID` has an endpoint of one of the schemes, or nil.
pub data EndpointId : Type 0 where
  no_endpoint : EndpointId
  dtn : DtnEndpoint → EndpointId
  ipn : IpnEndpoint → EndpointId

abbrev pub dtn_none : EndpointId
dtn_none = dtn (record { node_name = []; demux = []; is_dtn_none = true })

abbrev pub between : ℕ → ℕ → ℕ → Bool
between a b c = leb a c && leb c b

-- The class `[\w-._]` of the regular expression.
unfoldable pub is_name_char : ℕ → Bool
is_name_char c =
    between 0x30 0x39 c
    || (between 0x41 0x5A c || (between 0x61 0x7A c || (c == 0x5F || (c == 0x2D || c == 0x2E))))

-- `.*$`: no line break.
unfoldable pub is_one_line : List ℕ → Bool
is_one_line [] = true
is_one_line (c ∷ cs) = if c == 0x0A then false else is_one_line cs

-- `[\w-._]*/(.*)$`.
unfoldable pub matches_tail : List ℕ → Bool
unfolding is_name_char is_one_line
matches_tail [] = false
matches_tail (c ∷ cs) =
    let more = matches_tail cs in
    if c == 0x2F then is_one_line cs else if is_name_char c then more else false

-- `^([\w-._]+)/(.*)$`, what follows `dtn://`.
unfoldable pub matches_ssp : List ℕ → Bool
unfolding matches_tail is_name_char
matches_ssp [] = false
matches_ssp (c ∷ cs) = if is_name_char c then matches_tail cs else false

-- `CheckValid` of the endpoint, on the string that it prints.
unfoldable pub endpoint_is_valid : EndpointId → Bool
endpoint_is_valid no_endpoint = false
endpoint_is_valid (dtn e) =
    if e.is_dtn_none then true else matches_ssp (e.node_name ++ 0x2F ∷ e.demux)
endpoint_is_valid (ipn e) = not (ltb e.node 1 || ltb e.service 1)

-- Go's `==` on endpoint IDs.
abbrev pub same_flag : Bool → Bool → Bool
same_flag true b = b
same_flag false b = not b

unfoldable pub same_endpoint : EndpointId → EndpointId → Bool
same_endpoint no_endpoint no_endpoint = true
same_endpoint (dtn a) (dtn b) =
    equal a.node_name b.node_name
    && (equal a.demux b.demux && same_flag a.is_dtn_none b.is_dtn_none)
same_endpoint (ipn a) (ipn b) = a.node == b.node && a.service == b.service
same_endpoint other another = false

-- `Authority` of a dtn endpoint; that of an ipn endpoint is its node, printed.
unfoldable pub dtn_authority : DtnEndpoint → List ℕ
dtn_authority e = if e.is_dtn_none then 0x6E ∷ 0x6F ∷ 0x6E ∷ 0x65 ∷ [] else e.node_name

abbrev pub is_the_null_endpoint : EndpointId → Bool
is_the_null_endpoint e = same_endpoint e dtn_none

-- `SameNode`.
unfoldable pub same_node : EndpointId → EndpointId → Bool
unfolding dtn_authority same_endpoint
same_node no_endpoint no_endpoint = true
same_node no_endpoint (dtn b) = is_the_null_endpoint (dtn b)
same_node no_endpoint (ipn b) = false
same_node (dtn a) no_endpoint = is_the_null_endpoint (dtn a)
same_node (ipn a) no_endpoint = false
same_node (dtn a) (dtn b) = equal (dtn_authority a) (dtn_authority b)
same_node (ipn a) (ipn b) = a.node == b.node
same_node (dtn a) (ipn b) = false
same_node (ipn a) (dtn b) = false
