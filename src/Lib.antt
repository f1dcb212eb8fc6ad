-- ===== src/Lib.antt =====
-- Wispers Access lets a host node share web apps with guest nodes over a peer-to-peer transport.
-- This library models the wire contract of both sides and the host node's core: the state
-- database of invites and guests, the config of a share, and what a connection, a stream and a
-- request may reach. Of the guests' SDK it models the store of joined shares, a guest's node with its
-- calls of the host's API, and how a browser is paired. Paths are from the repository's root.
--
-- How the parts interact: a connection (Host/Connection) looks its peer up in the state database
-- (Host/Store). An unknown peer gets one stream in which to activate. A stream (Host/Protocol) is
-- told apart by its first byte (Wire/Streams): data-plane streams reach an app of the config
-- (Host/Config) through Host/ReverseProxy or a tunnel, control streams carry a request to the
-- guest API (Host/GuestApi), which redeems invites and removes guests in the database. On the other
-- side a guest's node (Sdk/GuestNode) opens streams on its transport, makes those requests
-- (Sdk/GuestCalls) and keeps what it learns in its own store (Sdk/Store).
--
-- wire/src/lib.rs:
--   Wire/Transport, Wire/Invite   names of transports; `Invite::parse` and `to_code`
--   Wire/Streams                  `StreamType`, `FirstByte`, `Plane`, `CloseCode`
--   Wire/Activation               `ActivationError`, its statuses and names
--   Wire/Share, Wire/Origin, Wire/ConfigHash   what guests see of a share; origins; entity tags
--   Wire/Framing                  `write_message`, `read_message`
-- waserver/src/storage.rs:
--   Host/Store/Db, Host/Store/Calls   rows and statements; one function per method of `StateDb` on
--                                 invites and guests
--   Host/Store/Effects, Writes, Integrity, History   what a call changes, and the invariant
--   Host/Store/Redemption, Bindings, SingleUse, Guarantees, Revocation, Invitation   redeeming
-- waserver/src/config.rs:
--   Host/Config/Types, Parse, Names, Hash, Valid, Lookup   the file, its validation, lookups, the hash
-- waserver/src/protocol.rs and forward_proxy.rs: Host/Protocol, Host/Protocol/Guards
-- waserver/src/guest_api.rs: Host/GuestApi, Host/GuestApi/Writes, Host/GuestApi/Leave
-- waserver/src/reverse_proxy.rs: Host/ReverseProxy, Host/ReverseProxy/Identity
-- waserver/src/iroh_transport.rs and serving.rs: Host/Connection, Host/Connection/Reachable,
--   Host/Serving
-- sdk/src/pairing.rs: Sdk/Pairing, Sdk/Pairing/OneTime
-- sdk/src/storage.rs:
--   Sdk/Store/Db, Rows, Hostnames, Info, Shares   tables and statements; one function per method of
--                                 `DB` and `Row`; the loop of `write_deduped_hostname`; apps
--   Sdk/Store/Outcomes, Keeps, KeepsCalls, Reads, Valid, Constraints, Cascade, History   what methods
--                                 do to the tables, and the schema's constraints as an invariant
--   Sdk/Store/Replaced, InfoLaws, Sweep, Fresh, Hostnames/Ends, Loop, Claims   laws of single methods
-- sdk/src/guest_node.rs: Sdk/GuestCalls (`fetch_info`, `activate`, `leave`) and its child WithHost,
--   Sdk/GuestNode (`refresh`, `check_connection`, `open_stream_ungated`) and its children
--   Shared (calls that overlap), Dials, Dead, Refreshed, Stores, Unchanged
-- sdk/src/lib.rs, `Client::join` and `record_join`, and sdk/src/iroh_transport.rs, `join`: Sdk/Client and
--   its children Besides, Leftovers, FailedJoin, Labels
-- sdk/src/lib.rs, `Client::leave`, and `leave` of the transports: Sdk/Client/Leave and its
--   children Ends, Forgets
-- sdk/src/transports.rs: Sdk/Transports
-- sdk/src/reverse_proxy.rs: Sdk/Proxy, Sdk/Proxy/Hosts, Sdk/Proxy/Pairs
-- Prelude holds the shared names, lists, texts and lookups by key; Tests the theorems at concrete
-- inputs.
--
-- Conventions. hyper's `HeaderMap` is read as a list of names and values. A text is a list of code
-- points. A method of `StateDb` is a function from the database to a result and the database; beside
-- the tables the database holds a list that says which of the coming statements fail, so a theorem
-- for every such list holds whatever fails. Times are nanoseconds after 1970. The functions of
-- Sdk/GuestNode are calls of a node that no other call of it overlaps; Sdk/GuestNode/Shared has the
-- steps of calls that do. Other crates are parameters: SHA-256 and SQLite's row ids (`External`, with
-- fresh ids as a hypothesis), encodings of invites (`Encodings`), TOML, URLs, PEM and X.509
-- (`Crates`), JSON and versions (`Formats`), JSON lists of strings (`Json`), the connection to an
-- app, a guest's transport and the exchange of a request over it (`Far`, `Exchange`), what a join
-- meets: the dial of the host, the `slug` crate and the secret store (`Meeting`), and a departure with
-- its logout at the hub, which may not end (`Farewell`). The host's row numbers and ids are not
-- bounded by 2 ^ 63.
--
-- Fuel: the decimal digits of a u16 take five steps and those of a larger number as many as its
-- value at most, the lines of a PEM text one step for each character at most. The search for a free
-- hostname label has one step for each row and one more; a candidate that is refused is held by a row.
-- Every other loop is structural.
--
-- Not modelled: the SDK's client but for joining by an iroh invite and leaving, the connections of
-- its transports, the traffic of its proxies on the loopback, migrations of older files of the SDK's
-- store, the command lines, the daemon's IPC and status, the Wispers Connect transport and hub
-- client but for what the SDK's departure does with the row and the secrets, the desktop and mobile apps, and the copying of bytes once a tunnel or an upgrade is open. Closing a connection is one
-- step here, where the code asks the connection's task to close and waits.
pub mod Prelude
pub mod Wire
pub mod Host
pub mod Sdk
pub mod Tests
