-- ===== src/Lib.antt =====
-- A model of the billing core of Rita, the router program of this repository.
--
-- Rita keeps, for every neighbour, what the two nodes owe each other for forwarded traffic. The
-- debt keeper adds traffic to the debts, and once a round decides for each peer whether it is paid,
-- suspended or left alone. A payment goes through the payment controller onto the blockchain, its
-- transaction is handed to the neighbour, and the payment validator of either side waits until a
-- full node shows the transaction deep enough in the chain before it tells its debt keeper.
--
-- Around it stand the watchers that read the counters of tunnels and turn them into debts, the
-- managers of tunnels and addresses, the monitor of babeld that finds the routes and their prices,
-- the oracle that follows the chain and the settings server, and the bridge between currencies.
--
-- The actors are records, their message handlers functions on them; what a handler sends to other
-- actors is part of its result, so any order of delivery is a list of messages. Times are arguments.
--
-- - Num256: what is relied on of the crate num256, whose source is not here, as a record that every
--   modelled operation takes as a parameter; Num256.Sample is a concrete one for the tests.
-- - AltheaTypes: `Identity`, `PaymentTx` and other types of althea_types/src/interop.rs.
-- - Settings: the fields of `PaymentSettings` (settings/src/payment.rs) that are read.
-- - Time: `Instant` and `Duration` as numbers of nanoseconds.
-- - DebtKeeper: rita/src/rita_common/debt_keeper/mod.rs. Peer and Update have the methods on the
--   entry of one peer (`payment_received`, `traffic_update`, `send_update`, ...), Keeper the actor
--   with its handlers, the file and the start-up; Payments, Decision, Flight, Peers, Reload and
--   Rounds prove their laws.
-- - PaymentValidator: rita/src/rita_common/payment_validator/mod.rs and `make_payments` of
--   rita/src/rita_common/network_endpoints/mod.rs. Validator has the actor, Judging
--   `validate_transaction` and `handle_tx_messaging` on the answer of a full node; Spent, Replay,
--   Arrival and Timeout prove their laws. `handle_tx_messaging` is given our own address, since
--   `validate_transaction`, its caller here, panics when there is none.
-- - PaymentController: rita/src/rita_common/payment_controller/mod.rs; Outcomes proves what is reported
--   of a payment, Resend how the retries of its notification end, Validated which payments reach the
--   validator. The chain of retries runs on fuel;
--   sixteen steps are enough, as at most fifteen attempts are made.
-- - IpIncrement: rita/src/rita_common/utils/ip_increment.rs, the next address below a netmask;
--   Value relates it to the numbers of the addresses, Subnet to the netmask.
-- - LightClientManager: rita/src/rita_client/light_client_manager/mod.rs. The parent has `GetAddress` and
--   `return_addresses`, Watching the bills of `Watch`; Search and Addresses prove the laws of addresses,
--   Garbage of their return, Bills joins `Watch` to DebtKeeper, and Moved to the counters of the
--   clients. The search for an address runs on fuel, one step more than there are assigned addresses.
-- - PeerMessage: rita/src/rita_common/peer_listener/message.rs, the discovery packet; RoundTrip relates
--   `encode` and `decode`.
-- - TunnelManager: rita/src/rita_common/tunnel_manager/mod.rs and id_callback.rs. Tunnel has the lists
--   of tunnels, Manager the pool of ports, `open_tunnel` and the callback, Contact the peers that are
--   contacted, Expiry `TriggerGC` and the retries, Payment `TunnelStateChange` and `GotBloat`. The
--   manager among its messages is the step relation of Messages; Ports, Opening, Flight, Changes and
--   Lending show where a port can be, Collection and Closing how tunnels end, Limits what they may
--   use, Answers what a peer is told, and Effects and Billing join the manager to DebtKeeper. A search
--   for a port has eleven levels, as in the source.
-- - TokenBridge: rita/src/rita_common/token_bridge/mod.rs, which exchanges ether for the stablecoin and
--   back. Bridge has the state and the amounts, Futures what a tick or a withdrawal spawns, Handlers the
--   messages; Mailbox is the step relation of the bridge, its mailbox and its futures. Deposits and
--   Withdraws prove the laws of the futures, Wanted and Trace where ether can be sent.
-- - TrafficWatcher: rita/src/rita_common/traffic_watcher/mod.rs, the bills for a round of traffic. Watch
--   has `watch`, Bills relates its loops to sums, Debts the round to the debt keeper.
-- - ExitWatcher: rita/src/rita_exit/traffic_watcher/mod.rs and `prepare_usage_history` of
--   althea_kernel_interface/src/wg_iface_counter.rs, the bills of the clients of an exit; Rounds shows what
--   a round bills, the resets of counters included.
-- - Oracle: rita/src/rita_common/oracle/mod.rs, `json_merge` of settings/src/lib.rs and `merge` of
--   settings/src/client.rs. Json has the documents and their merge, Chain what a full node answers and
--   the gas price, Prices the answer of the settings server. The two futures that `Update`
--   spawns are values of the type `Task`. Paths and Merge prove which settings the
--   server can change, Gas joins the thresholds to DebtKeeper. Between settings and documents stands
--   code that serde derives, a parameter.
-- - DaoManager: rita/src/rita_common/dao_manager/mod.rs; Payments proves what a tick pays.
-- - Float32: the operations of `f32` that are used, as a record of them.
-- - BabelMonitor: babel_monitor/src/lib.rs. Records has routes and neighbours, Text the functions of
--   `str` that are used, Parsing the lines, Routes the searches, Socket an answer that is read in
--   pieces, as a function of the list of reads. Lines, Searches and Chunks prove their laws.
-- - ClientWatcher: rita/src/rita_client/traffic_watcher/mod.rs, the bill of a client and its question to
--   the exit; Rounds relates many rounds to the counters, Answers joins one to DebtKeeper.
-- - NetworkMonitor: rita/src/rita_common/network_monitor/mod.rs. Latency and Loss have the statistics,
--   Monitor the actor; BitCount, Windows and Reports prove their laws.
-- - UsageTracker: rita/src/rita_common/usage_tracker/mod.rs; History proves what an update does to the
--   history of its hour.
-- - SimulatedTxfee: rita/src/rita_common/simulated_txfee_manager/mod.rs, the fee that is owed to the
--   maintainers; Fees relates what is paid to what is owed.
--
-- A `HashMap` or `HashSet` is a list whose order stands for the order of iteration, which the source
-- leaves open: the theorems hold for every order. A panic is an outcome of its own. Loops run
-- over a list, except for that chain of retries and that search. The source does not say whether it is
-- built with checks for overflow. The sums of TunnelManager and of UsageTracker panic on one, as in a
-- checked build; the counters and products of ExitWatcher, ClientWatcher, NetworkMonitor and
-- LightClientManager wrap around, as in a release build.
--
-- Not modelled: logging, sockets and HTTP, the blockchain client, reading and writing of files (their
-- outcome is an argument), the commands to babeld, the parsers of addresses and floats, the kernel
-- interface, the dashboards, the registration with an exit and the exit database.
pub mod Prelude
pub mod Num256
pub mod AltheaTypes
pub mod Settings
pub mod Time
pub mod IpIncrement
pub mod DebtKeeper
pub mod PaymentValidator
pub mod PaymentController
pub mod LightClientManager
pub mod PeerMessage
pub mod TunnelManager
pub mod TokenBridge
pub mod TrafficWatcher
pub mod ExitWatcher
pub mod Oracle
pub mod DaoManager
pub mod Float32
pub mod BabelMonitor
pub mod ClientWatcher
pub mod NetworkMonitor
pub mod UsageTracker
pub mod SimulatedTxfee
