-- ===== src/Lib.antt =====
-- The P2PT server: signalling, relaying and Git access for a self-hosted node, in Go. Every file of
-- the program stands at the repository's root, in one package.
--
-- The parts that are modelled, and where:
--
--   Prelude, GoMap, GoText, Clock, Net   what the parts share: tests on numbers, Go's maps, the texts
--                  of `strings`, `strconv` and `encoding/hex`, times and dates, net.SplitHostPort
--                  and net.ParseIP
--   Tracker        tracker.go, the WebTorrent tracker: HandleWebSocket is `step` on events, its
--                  handlers are `handle_announce`, `handle_scrape`, `forward_signal`, `remove_peer`
--   TurnMonitor    turn_monitor.go, the sessions and reputations of the TURN relay and its traffic
--                  (Charging), the AuthHandler of main.go that feeds it (AuthHandler), the routes
--                  /turn-credentials and /api/turn/revoke of main.go (Routes), and turn_meter.go (Meter)
--   Auth           auth.go, the administrator's password, sessions and lock-out, and who is let in at
--                  which route and from which network (Access); HandleLogin is `handle_login`, and
--                  `begin_login` and `end_login` where logins run at the same time (Lockout)
--   GitToken       git_token.go, the tokens for Git access
--   GitServer      git_server.go: claims and revocations (GitServer), authenticateRequest (Access),
--                  HandleGitCredentials (Credentials), the administrator's handlers (Admin), and runs
--                  of them with restarts (Run)
--   RelayRing      ring_relay.go: a port that allocations share (RelayRing), the ring of ports
--                  (Generator), and what runs at the same time, by the access to what is shared: at a
--                  port (Threads), and at a connection with its channel (Race)
--   PushManager    push_manager.go: subscriptions, HandleSend and HandleTest, whose call of the package
--                  webpush stands between `begin_send` and `finish_send`; the keys (Keys) and the
--                  tokens of senders (Tokens)
--   Broadcast      broadcast_relay.go: streams, and HandleWHIP and HandleWHEP cut where other handlers
--                  can come in between; Events has all that can come, in any order
--   ConfigStorage  config_storage.go, the file of settings; Settings is the start of main.go, which
--                  makes the configuration of flags and environment
--   Ddns           duckdns.go, the updates of the DuckDNS name, and the machine's IPv6 address (Ipv6);
--                  cloudhub_ddns.go (CloudHub); the routes of main.go that change settings (Api)
--   GoToSocial     gotosocial_proxy.go: the accounts of the Mastodon server (GoToSocial) and their list for
--                  the dashboard (Users)
--   Wifi           the Wi-Fi routes of main.go: scanWiFiNetworks and its parsers (Wifi), the handler of
--                  /api/wifi/configure (Configure)
--   Updater        updater.go: which version counts as newer, and what is downloaded
--   Upnp           upnp.go: DiscoverAndMap is `discover_and_map`, given what the routers answer
--   Signalling     SignalingServer of main.go, the messages of PeerJS: HandleWebSocket is
--                  `open_connection`, `on_message` and `close_connection`
--
-- Each part is a record for its state, and a function for each method that returns the new state and
-- what it answers or sends; names are the Go names in snake case. The proofs are in the modules
-- below a part, and its Examples module runs it on concrete inputs.
--
-- Go's maps are lists of entries with the operations of GoMap. Where a loop over a map stops at a
-- match or uses things up, so that the runtime's order matters, that order is an argument, and
-- `Visits` says that each entry is visited once. A time is a number of nanoseconds since the least
-- time that Go can hold, read from the clock by the caller and given to each method; monotonic
-- clock readings are not told apart. Texts are valid UTF-8. HMACs, SHA-256 and the TURN keys are
-- functions that the definitions take: nothing is assumed of them.
--
-- Loops over maps and slices are recursions on lists. Two take fuel: numbers are printed as int64s,
-- and twenty decimal digits are enough for one; the loop over the ports of the ring has `ring_loop`,
-- and `port_loop` says with how much it ends, and when it never does.
--
-- A handler is one step, save for HandleLogin in Lockout, for WriteTo, deliver and Close of the relay
-- ring in Threads and Race, and for what Broadcast, PushManager and Signalling cut: the locks are not
-- modelled outside the relay ring, nor, with these exceptions, what another handler does between two
-- critical sections of the same handler; HandleGitCredentials has several, and is one step. Counters
-- of the Go type int are numbers without a bound. Sockets, HTTP, JSON, files and HTML are not
-- modelled; requests come decoded. Not modelled are the download of updates, the certificates, the
-- proxy and the OAuth exchange of gotosocial_proxy.go, the wizard, the swarm announcer, mDNS, the
-- synchronisation of the clock, and the start of the program behind the making of its configuration.
mod Prelude
pub mod GoMap
pub mod GoText
pub mod Clock
pub mod Net
pub mod Tracker
pub mod GitToken
pub mod GitServer
pub mod Auth
pub mod Signalling
pub mod RelayRing
pub mod PushManager
pub mod Broadcast
pub mod Upnp
pub mod Updater
pub mod Wifi
pub mod GoToSocial
pub mod Ddns
pub mod ConfigStorage
pub mod TurnMonitor
