-- ===== src/Lib.antt =====
-- dtn7-gold, a delay-tolerant networking daemon: the model of its bundles, the numbers
-- that it gives them, and its convergence layers. Paths are from the repository's root.
--
-- The program exchanges bundles between nodes. pkg/bpv7 has the bundles: their blocks, the checks that
-- decide which bundles are valid, and the fragments that a bundle is cut into. pkg/routing keeps the
-- bundles of a node and numbers those that it sends. A convergence layer (pkg/cla) carries the bytes
-- of a bundle over one link: it cuts them into pieces that the link can take, and puts the pieces of
-- the peer together again. Two of them are modelled, bbc and tcpclv4.
--
-- Bpv7: pkg/bpv7. Bpv7/Flags has the control flags (bundle_control_flags.go, block_control_flags.go),
--   Bpv7/Endpoint the endpoint IDs (endpoint.go, endpoint_dtn.go, endpoint_ipn.go), Bpv7/Blocks the
--   primary, canonical and extension blocks with their own checks, Bpv7/Bundle the bundle and the
--   operations on its blocks (bundle.go, canonical_block_sort.go), Bpv7/Validity `CheckValid` and
--   `IsLifetimeExceeded`, Bpv7/Typed the bundles on which no type assertion fails, Bpv7/Reassembly `ReassembleFragments` (fragmentation.go). Bpv7/Cbor has
--   `MarshalCbor` and `UnmarshalCbor` of endpoint IDs, blocks (with their checksums, crc.go) and bundles,
--   and Bpv7/Fragmentation `Fragment` (fragmentation.go) over it. Bpv7/Hops counts the hops of a bundle
--   (extension_block_hop_count.go), Bpv7/StatusReport has what a node tells of a bundle, and
--   Bpv7/Cbor/Reports its CBOR form (administrative_record_status_report.go, administrative_record.go,
--   bundle_id.go).
--   A list of errors stands for a multierror. The blocks of routing are generic blocks.
-- Storage: pkg/storage, the items of the bundles that a node keeps (store.go, bundle_item.go), over an
--   interface of the database and the files; Storage/Memory is an instance of it for the examples.
-- Routing: pkg/routing. Routing/IdKeeper numbers the bundles that a node sends (id_keeper.go),
--   Routing/Descriptor has the descriptor of a bundle and its `Sync` with the store
--   (bundle_descriptor.go, constraint.go), Routing/Algorithm the interface of the routing algorithms
--   (algorithm.go), with spray and wait and epidemic routing below it (algorithm_spray.go,
--   algorithm_epidemic.go), and Routing/Processing the steps of the core on a bundle (processing.go,
--   core.go, agent_manager.go): `forward` and `bundle_deletion` in Steps, `receive`, `dispatching` and
--   `local_delivery` in Reception, `send_bundle` and `transmit` in Sending.
--   The steps use the algorithm through the interface only.
-- Cla: pkg/cla. Cla/Manager has the manager of the convergence layers (manager.go, manager_elem.go):
--   `step` is a round of its handler or a call of its users, with the outcome of each `Start` as input.
-- Bbc: pkg/cla/bbc, bundle broadcasting over a modem with a small MTU. Bbc/Fragment has the two
--   header bytes (transmission_fragment.go), Bbc/Transmission a payload that is cut into fragments and
--   put together (transmission.go), Bbc/Connector the state machine of `Connector` (connector.go):
--   `handle_incoming_fragment` and `handler_read` for its reader, `send` for `Send`.
-- Wire: Go's io and encoding/binary: readers and writers, shared by Bpv7 and Tcpcl.
-- Tcpcl: pkg/cla/tcpclv4. Tcpcl/Messages has every message with `Marshal` and `Unmarshal` and `ReadMessage` (internal/msgs), Tcpcl/Transfer the
--   segments of a bundle (internal/utils/transfer_in.go, transfer_out.go), Tcpcl/Manager what
--   `TransferManager.handle` does with the messages of the peer (transfer_manager.go), and
--   Tcpcl/Manager/Bundles joins it with the CBOR form of bundles. Tcpcl/Stages has the stages of a session
--   (internal/stages): contact, session initialisation, and the established session with its keepalives.
-- Prelude: the shared names, lists and bits over the native numbers, bytes and maps.
--
-- State is passed explicitly: a method with a pointer receiver takes the struct and returns it. A
-- channel is the list of what was put into it. A goroutine's loop is a function on the list of what it
-- takes from its channels, so an interleaving is such a list. A Go map with number keys is a function
-- into Option. A byte is a number; a conversion to a w-bit integer is a remainder modulo 2 ^ w.
-- A panic (a slice bound, an allocation above `max_alloc`) is an error value of its own.
--
-- Bounds: `send_loop` runs on a schedule, one entry for each round, and `send_segments` on a number of
-- rounds; the theorems on delivery say how many are enough. `free_number` has a round for each block,
-- which is always enough. `unmarshal_blocks` has a round for each byte and one more, which is always
-- enough, and `fragment_loop` one for each byte of the payload, which is always enough. All other loops are structural.
--
-- Parameters: a `Disk` stands for badgerhold, the files and the hash of their names, with the laws of a disk
-- without errors in `IsWorking`; a `Node` for the outcome of sends, the clock and the endpoints of agents and
-- listeners, a `Core` also for `SendStatusReport` and the reader of records, `sign` for
-- the making of signatures; functions for printing and parsing the node ID of a session; a `Codec` stands for the CBOR items of github.com/dtn7/cboring and the two checksum
-- functions, with its laws in `CodecLaws`, and those on sizes in `SizeLaws`; `decode` for the bundle codec and xz on a whole payload,
-- `max_alloc` for the
-- longest slice that the Go runtime makes, `now` for the clock. Not modelled: the
-- security blocks, JSON, sockets, modems, timers, logging, the sending of status reports,
-- binary spray, PRoPHET, DTLSR, the sensor network's routing, agents, discovery and the commands.
pub mod Prelude
pub mod Wire
pub mod Bpv7
pub mod Storage
pub mod Routing
pub mod Cla
pub mod Bbc
pub mod Tcpcl
