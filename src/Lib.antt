-- ===== src/Lib.antt =====
-- Ataraxia: mesh networking for Node.js and browsers. Nodes are joined by peers, which transports
-- connect; a node forwards messages to nodes that it has no peer for, and groups, states and
-- services are kept by messages between nodes.
--
-- The parts, from the bytes of a connection upwards, and how they meet:
--   * Ids (packages/transport/src/ids.ts): the text of an identifier and the comparison of two.
--     `encode_id`, `decode_id` and `same_id` are encodeId, decodeId and sameId. An identifier is the
--     list of its bytes, a text the list of its character codes.
--   * IdMap (packages/core/src/id): maps and sets of identifiers, `IdMap` and `IdSet`, which are maps
--     from the text of an identifier. Its Keys compares them with maps from identifiers.
--   * Framing (packages/transport-streams/src/binaryStreams.ts): packets in a stream of chunks.
--     `transform` is PeerPacketDecodingStream._transform with `scan` as its loop, `encode_packet`
--     is the header and the bytes that encodePeerPacket writes.
--   * Codec (packages/transport/src/binary, packages/transport/src/messages): the messages of peers
--     and their binary form, `encode_binary_peer_message` and `decode_binary_peer_message`. Its
--     Streams joins it to Framing. The CBOR library is the record `Cbor`, which says that an item
--     that was written is read back; an item of another type than the field that is read counts as
--     one at which the library throws.
--   * Peer (packages/transport/src/AbstractPeer.ts): a connection from HELLO to its end. `Peer` is
--     the state; each handler is a function to the next state and a list of effects: messages sent,
--     timers, events, and calls of an authentication flow. What such a call gives later comes back
--     as an `Event`, so that all orders of promises are orders of events.
--   * Auth (packages/transport/src/auth): the flows that a peer's negotiation runs, by a shared
--     secret or anonymous. The code of a message, `hmac`, is a parameter.
--   * Requests (packages/core/src/RequestReplyHelper.ts): requests and replies matched by a number.
--   * Messaging (packages/core/src/topology/Messaging.ts): messages sent, forwarded, acknowledged
--     and rejected. The routing is the record `Routes`: this node, the peer for a target and the
--     peer of an identifier; nothing is assumed of it but, where a theorem says so, that no peer is
--     the node itself. Serving of Topology makes that record from a topology.
--   * Topology (packages/core/src/topology): what a node knows of the network. Graph and Nodes are
--     TopologyNode.ts: an object goes by a number, `Graph` has each of its fields as a function of
--     the number, and the map of the known ones. Search and Routing are Routing.ts, `calculate_paths`
--     and `refresh`; Routing has the state `Topology`, Handlers the operations of Topology.ts, Events
--     their runs. The heap of @tyriar/fibonacci-heap is the record `Heap`: a list of entries of which
--     an entry of least key is extracted. Messages to peers, timers, events for nodes, and messages
--     that Messaging takes are effects. Entries to Paths follow the search, with ways edge by edge in
--     Ways; Routes, Available, Dropping and Refreshing what a refresh makes of it; Valid to Running
--     the invariant.
--   * Groups (packages/core/src/group): Shared is SharedGroup.ts, Manager is GroupManager.ts. A group
--     goes by its key, an instance by a number.
--   * NodeState (packages/core/src/state/PerNodeState.ts): Defs has the operations, Sender and
--     Receiver what each keeps of a node's value, Following two nodes and the messages in flight.
--   * Services (packages/services/src): the services that nodes offer to each other. Defs has the
--     state and MergedServiceReflect.ts, a list of instances; Handlers the operations of
--     Services.ts. An instance and a handler go by numbers, a method and an event by their names.
--   * BackOff (packages/transport/src/BackOff.ts): the delays between the attempts of a transport.
-- Base holds what all share: tests, lists, equality tests; Map is JavaScript's Map as a list of
-- entries in the order of insertion.
--
-- Conventions. Numbers are ℕ: a counter, a version or a time is below 2 ^ 53 in any run that ends, and
-- the bit operations of the source are written as quotients and remainders. A promise goes by the
-- number of its request, a timer by what it belongs to; that a promise settles, a timer goes off or
-- a send fails is an event of its own. The clock does not run backwards. Logging is left out.
--
-- Fuel. The loops of encodeId and decodeId that run while there is a carry get the carry itself: each
-- turn divides it. The loop over a buffer of the stream gets the buffer's length: each turn consumes
-- a byte. The loop of isEqual gets the number of its turns. The loop of calculatePaths on the heap,
-- the walks back from a node there, and that of toPath get the number of the known nodes: a turn of
-- the first takes an entry out, and the others go from a node to one that was taken out before it.
-- All other loops follow a list.
--
-- Not modelled: the wiring of transports, topology and nodes in Network.ts, the calls of methods of
-- services and their listeners, the builders of contracts (packages/service-contracts), the
-- transports themselves (TCP, WebSocket, hyperswarm, local sockets), which are input and output
-- around the parts above, the command line, and the tests.
pub mod Base
pub mod Map
pub mod Ids
pub mod IdMap
pub mod Framing
pub mod Codec
pub mod Requests
pub mod Messaging
pub mod Topology
pub mod Peer
pub mod Groups
pub mod NodeState
pub mod Auth
pub mod BackOff
pub mod Services
