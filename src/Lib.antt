-- ===== src/Lib.antt =====
-- Shield Ghita's filtering core: the local DNS filter of src/modules/dns and the intrusion detection
-- of src/modules/security/mod.rs.
--
-- A query packet is parsed, its source is limited, blocked or quarantined by the security engine, which
-- also inspects its name; the name is judged by the rule filter, and the query is answered by a reply
-- that the filter builds, from the answer cache or by an upstream resolver, whose answer the rebinding
-- guard reads first. Block lists and the log, with the activity and the statistics that go with it,
-- stand around that path. The parts are modelled one by one, as functions on explicit states, and the
-- handler of a packet composes them on one state, as the source does.
--
-- Prelude and its children: numbers, Boolean tests, lists, keys, and HashMap and HashSet as lists whose
--   order stands for the iteration order; maps whose keys stand once; removal of the oldest entries.
-- Text: the byte-string functions of Rust's str that the code calls. Text is ASCII there:
--   to_lowercase and trim act on the ASCII letters and spaces only.
-- Outcome: results of code that indexes slices (a value, a panic, or a loop without rounds left).
--
-- Dns.Domain: validate_domain, is_safe_blocklist_domain, match_domain_hierarchy and
--   compact_covered_domains of src/modules/dns/mod.rs.
-- Dns.FastCache: hash_domain and FastDomainCache of src/modules/dns/disk_store.rs.
-- Dns.Builtin, Dns.Filter: the rule sets of DnsBlocker, their updates and should_block, with the lookup
--   in the disk store as a function.
-- Dns.DiskStore: the store of src/modules/dns/disk_store.rs on the bytes of its file: DiskBlocklist::open,
--   contains and, in Dns.DiskStore.Build, build. The binary search is given one round for each record,
--   which is enough since each round drops one at least. The file that is opened is the file that is
--   searched. A sort is an insertion sort there, of which the order and the items matter.
-- Dns.ListLine, Dns.Blocklist: parse_line, load_cache and load_blocklists, with the ends of the downloads,
--   in their order, as arguments. `lines` splits at line feeds; parse_line trims what is left of a carriage
--   return.
-- Dns.Wire: parse_query_info and build_a_query. The loop over the labels has the 128 rounds of the
--   source.
-- Dns.Reply: build_nxdomain, build_servfail, the two sinkhole builders, response_matches_query.
-- Dns.Rebinding: is_private_ip_record, is_legit_local_domain, forwarded_answer_hits_private_space,
--   take_rebind_incident_slot. A loop over a name is given one round for each byte of the response, and
--   one more.
-- Dns.ResponseCache: extract_min_ttl, cache_ttl_seconds, cached_response_for, store_cache_response.
--   The rounds are those of guard and label_guard.
--
-- Dns.ClientPolicy: ClientMode and AdBlockControls of src/modules/dns/client_policy.rs, with the printing and
--   parsing of addresses as parameters.
--
-- Dns.Handler: handle_dns_packet and what it calls on the way, on one state of the filter, the security
--   engine, the log, the activity and the statistics (Shield). Outside holds what a packet meets: the
--   clocks, the upstream bodies in their order, and the response policy. A packet reads one instant
--   before the upstream answers (now) and one after (answered). Dns.Handler.Route is the way of a query
--   through limits, inspection, policy and filter.
--
-- Security.Address: addresses and MAC addresses as they are normalized. An IPv4 address is its 32-bit
--   number.
-- Security.Quarantine: QuarantineInventory, update_quarantine_inventory, quarantine_ip,
--   unquarantine_ip, is_quarantined.
-- Security.Engine: SecurityEngine, its incidents, its temporary blocks and its score, and the request for
--   a quarantine with its incident.
-- Security.Flood: enforce_hard_rate_limit and evict_oldest_ips.
-- Security.Names, Security.Inspection: calc_entropy, is_dga_domain, is_darknet_pseudo_tld and the
--   inspections of queries, gateways, port probes and DHCP servers. The operations of f64 are parameters,
--   and the theorems hold for any.
-- Security.Hosts: inspect_hosts_file. The text of the file and the test for an address are arguments.
--
-- Monitor: the query log of src/modules/monitor/mod.rs with its filter, its groups and its export
--   (Monitor.Csv, Monitor.Logs), the activity of each device in lan_scanner.rs (Monitor.Activity), and the
--   counters by day and week of src/modules/stats.rs (Monitor.Stats).
--
-- Backup: the packages of src/modules/backup.rs, their checksum, their MAC, create_backup and load_backup, with
--   SHA-256, the key of the machine and the parsers as parameters. create_backup tries 100 names, as the
--   source does.
--
-- Service.Pipe: the frames of src/modules/service/protocol.rs and the session of pipe.rs (read_frame,
--   constant_time_eq, handle_client), with the JSON of the messages and dispatch as parameters. A session has
--   one round for each byte of its input, and each frame takes some.
--
-- An instant is a number of milliseconds, and a call takes the instant it reads as an argument.
-- Counters wrap at their width, and multiplications saturate or wrap, as in the source. Locks are taken
-- for granted: a poisoned lock is not modelled, and each call runs alone. The parsing and printing of
-- addresses, the calendar and the answers of the upstream resolvers are parameters. Log messages, the
-- translated texts of an incident, channels, sockets, tasks and the writing of files are left out. Of the rest of the
-- repository, the scanner of the network and its diagnostics, the file analysis, the worker of the service
-- and the user interface are not modelled: they are mostly calls of Windows and of libraries.
pub mod Prelude
pub mod Text
pub mod Outcome
pub mod Security
pub mod Monitor
pub mod Dns
pub mod Backup
pub mod Service
