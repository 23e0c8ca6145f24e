-- ===== src/Lib.antt =====
-- LinkMesh: a mesh VPN with a signaling and relay server, modelled component by component.
--
-- The clients (linkmesh-client) carry IP packets to each other in encrypted tunnel frames, directly
-- or through the server (linkmesh-server), which authenticates devices by certificates of the mesh
-- root, keeps a table of routes and relays frames it cannot read. linkmesh-shared has the frames,
-- the cryptography and the certificates of both.
--
-- Base and its children are the shared helpers: tests, lists, results, keys, finite maps, endian
-- numbers. The other modules model one part each.
--
-- Shared.Crypto: linkmesh-shared/src/crypto.rs, over the primitives of the crates x25519-dalek, hkdf
-- and chacha20poly1305, which are the record Primitives. Shared.Protocol: the frames of
-- linkmesh-shared/src/protocol.rs. Shared.Cert: device certificates and revocation lists of
-- linkmesh-shared/src/cert.rs, over ed25519-dalek and base64 (the record Signatures), with the other
-- statements of the root in Shared.Cert.Statements. Shared.Identity: device identities and
-- fingerprints of linkmesh-shared/src/identity.rs. Shared.Bodies: the types of message bodies.
-- Shared.Wire: linkmesh-shared/src/wire.rs; a zerocopy structure is a Layout, the list of its fields
-- in the order of repr(C), each a run of bytes, a byte, or a little-endian word.
--
-- Client.Tunnel: linkmesh-client/src/tunnel.rs. Client.Peer: the session of
-- linkmesh-client/src/peer.rs. Client.Outbox, Sending and Receiving: the functions of
-- linkmesh-client/src/connection.rs on one session: transport_send, relay_send, maybe_rekey,
-- send_ack; send_data, handle_ack, retransmit; handle_hello, handle_rekey, handle_peer_data. A
-- function takes the session and what comes from outside (the time, the socket, randomness: Env)
-- and gives the new session and the list of actions. Client.Reliable: reorder_deliver. Client.Link:
-- two such sessions and a network that loses, repeats and reorders, as a step relation; its sends
-- take part while fewer than 2^64 numbers were used, so that numbers do not wrap. A step runs
-- enqueue, retransmit, accept_data with send_ack, handle_ack, maybe_rekey or handle_rekey, and the
-- number of an acknowledgement travels as the one that send_ack was given; handle_hello, which
-- starts a new session, is no step of it: Client.Receiving.Restart is about it. Client.Responses:
-- decrypt_session_response. Client.Handshake: auth_handshake, on the datagrams that arrive until its
-- deadline. Client.Peers: prune_peers, on
-- the sessions and the three indexes to them. Client.Dns: linkmesh-client/src/dns.rs, whose resolvers are functions.
--
-- Server.Routes: RouteTable of linkmesh-server/src/signaling.rs. Server.Relay: relay_forward.
-- Server.Batches: batch_worker on a sequence of arrivals and ticks, and flush_batch.
-- Server.Guards: the nonce cache and the rate limit of the handshake. Server.Sessions: the table of
-- sessions, as handle_auth fills it, revocation and BYE. Server.Mesh: invites, addresses,
-- certificates and revocation of linkmesh-server/src/mesh.rs. Server.Rooms: rooms and aliases of
-- linkmesh-server/src/config.rs. Server.Auth: handle_auth, on a request that was decoded and a root
-- key that was read. Server.Signaling: the requests of handle_session_signaling, on bodies that were
-- decoded. Server.Join: handle_join and build_server_info. Server.Sweep: a round of cleanup_loop.
-- Server.Desk and Server.Dispatch: from the bytes of a packet to the datagrams that answer it, through
-- handle, handle_signaling, handle_keyquery with its cache, and notify_peer; the wording of errors is a
-- function, say. Server.Running: the server over time, from the
-- start of Signaling::new, which verify_integrity lets through, a step relation of packets of any bytes from
-- anyone, revocations, new invites and cleanups.
-- Server.Library is what the server takes from base64 and from Rust's standard library on texts and
-- socket addresses.
--
-- Examples applies the theorems to concrete data.
--
-- Numbers are natural numbers, with the wrap-around of u32 and u64 written out. A Rust String is the
-- list of its UTF-8 bytes. A HashMap is an association list, whose order stands for the iteration
-- order; a BTreeMap keeps the list sorted. Locks are not modelled: each function runs as a whole.
-- Times are milliseconds in the client, but seconds in Client.Dns and Client.Handshake, and seconds in
-- the server. The loop of reorder_deliver runs
-- on the length of its buffer, that of parse_relay_batch on the length of the body; both empty at
-- least one slot or byte in each round, so that this is enough.
--
-- read_name of the DNS responder runs on the length of the packet, which every label shortens.
--
-- Not modelled: settings and their files, control channels, command lines, logging, the threads and
-- channels between the socket and the handlers, the virtual interface, the client's sessions with
-- peers seen for the first time, the Android parts, and the counters of statistics.
pub mod Base
pub mod Shared
pub mod Client
pub mod Server
pub mod Examples
