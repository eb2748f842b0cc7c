-- ===== src/Lib.antt =====
-- The network tools of this repository: a stub resolver (http1.0/src/zdns.c), an HTTP/1.0 client on
-- top of it (http1.0/src/zhttp.c), a ping program (zping.c), the packet filter of a gateway
-- (firewall/zmfilter.c), two hash table experiments (hashmap_my/hash.c and hashmap_my/hashbak.c),
-- and, of the forwarder that the repository carries in http1.0/src/dnsmasq/dnsmasq-2.45, the
-- routines on names and messages, and the cache; and a scratch program (a.c).
--
-- How the parts interact: http_1_0_post, http_1_0_get and http_1_0_download build a header, ask
-- zdns_srv for the address of the host and exchange bytes with port 80 of it. zdns_srv keeps the
-- server in dns_servers and calls zgethostbyname, which packs a query with domain_format, waits for
-- one datagram, reads its records by read_name and _deal_recv, and hands out the first address. In
-- the filter, wfrom is the hook that the module registers; br_mac_hash_zm selects the chain that the
-- forwarding table lookups walk. In the forwarder, do_rfc1035_name writes the names that
-- extract_name reads, from which extract_request takes what a query asks for, and questions_crc is
-- over names that hostname_isequal compares, as do the lookups and the insertion of its cache: an
-- entry stands in the hash chain of its name and in the list by age, from whose end cache_insert
-- takes the entry for a new name. The ping program, the generator of rand16 and the hash tables stand
-- alone.
--
-- Files and code:
-- - Prelude: bytes, blocks of memory and the result of running C code. An access outside a block is
--   the result fault, and a loop that used up its fuel is no_fuel. A C string is the bytes of its
--   block in front of the first zero byte. Prelude/Xor: the bitwise exclusive or, by digits.
-- - Dns/Format: domain_format. Dns/ReadName: read_name. Dns/Answers: _deal_recv and _show_answers.
--   Dns/Resolver: _pack_dnshdr, is_ipaddr, isready_read, zgethostbyname, get_dns_servers, zdns_srv.
--   Dns/Labels, Dns/ReadName/Wire and Dns/Answers/Wire say what names and records in a message are
--   (RFC 1035), without the code.
-- - Ping/Checksum: _check_sum. Ping/Time: tv_sub and the loss figure. Ping/Send: send_icmp.
--   Ping/Receive: recv_icmp and the signal handlers, over a list of events. Ping/Setup: the functions
--   init_conf, init_icmp_signal, init_icmp_sock, init_icmp_ip, start_icmp_ping and main. The static
--   variable self is the record Pconf, which is passed from call to call.
-- - Http/Search: http_1_0_hdrlen. Http/Send: send_request. Http/Download: _process_download.
--   Http/Request: sock_stream_new, connect_to_server, _process_post_get, _process,
--   socket_adapter_request and the three functions of the interface. Http/Request/Answers says what
--   they hand out, without the code.
-- - Firewall/Address: pre_init and the tests of the networks. Firewall/Verdict: zmeng_filter and its
--   helpers, http_inject_hook. Firewall/Fdb: __br_fdb_get_zm and fdb_find_zm. Firewall/Jhash: the
--   macro __jhash_final_zm, jhash_3words_zm, jhash_1word_zm, br_mac_hash_zm and br_fdb_init_zm.
--   Firewall/Wfrom: wfrom, hooks, zmeng_filter_init and zmeng_filter_fini.
-- - Hashmap: BKDRHash, init_hash_map and search_hash of hash.c, with the lines that it prints.
--   Hashmap/Second: hash_map_init, python_hash and search_hash of hashbak.c.
-- - Dnsmasq/Names: legal_char, canonicalise, do_rfc1035_name and hostname_isequal of src/util.c.
--   Dnsmasq/Hex: print_mac, parse_hex and memcmp_masked of src/util.c. Dnsmasq/Extract: extract_name
--   of src/rfc1035.c. Dnsmasq/Skip: skip_name, skip_questions, skip_section, questions_crc and
--   resize_packet of src/rfc1035.c. Dnsmasq/Pseudo: find_pseudoheader, and Dnsmasq/Arpa:
--   in_arpa_name_2_addr, and Dnsmasq/Request: extract_request, of the same file. Dnsmasq/Rand: surf
--   and rand16 of src/util.c.
-- - Dnsmasq/Cache, for src/cache.c: Lru has cache_link, cache_unlink and the part of cache_free that
--   appends an entry, on the pointers of the list of entries by age, where the address of an entry
--   is a number. Chain has cache_hash on the entries of one hash chain, is_expired,
--   is_outdated_cname_pointer and both loops of cache_scan_free, which say what is kept in the chain
--   and what is given to cache_free. Bucket has hash_bucket and the size that rehash chooses. Find has
--   cache_find_by_addr, and ByName has cache_find_by_name. Insert has the static variables as a record,
--   rehash, cache_free and cache_scan_free in full, cache_start_insert, cache_insert and
--   cache_end_insert. Insert/Rounds follows the rounds of the loop of cache_insert, and Insert/Reach
--   has the steps that these calls are. In Find, ByName and Insert the list by age is the sequence of
--   its entries, which the operations of Lru keep, and a pointer to an
--   entry is the sequence that begins with it.
-- - Url: main of a.c, with what sscanf does in it.
-- - Tests: runs at concrete inputs.
--
-- Calls that leave the program (malloc, socket calls, strtol, atoi, sscanf in zdns.c, the resolver
-- of the C library, the verdicts of other kernel files) are fields of records or arguments, of
-- which nothing is assumed but what a theorem names: of malloc, that a block has the bytes asked
-- for, or more. So are JHASH_INITVAL, which a kernel header defines, and flag, which wfrom tests
-- and nothing declares, and the bytes of typestr, by which hash_bucket mixes. HAVE_IPV6 is defined.
-- inet_ntoa, strlen, strcpy, strstr, sscanf in a.c and the number formats of sprintf are written
-- out as they are documented. Texts are arrays of bytes, so no text holds a zero byte in front of
-- its end.
--
-- Bounds and fuel: the name loop of read_name has its rounds as fuel, since a compression pointer to
-- itself keeps it running; a name in wire form states how many rounds it takes. The loop that turns
-- lengths into dots runs 256 rounds at most, the size of its block. The loop that folds a
-- checksum has three rounds of fuel, which an int never exceeds. extract_name and the walks over
-- sections have rounds as fuel: a jump is counted, with 255 of them at most, and every other round
-- moves on in the packet, which bounds them. They read a few bytes behind the packet before they
-- compare with its length, so the block that holds the packet is 64 bytes longer than that length,
-- unless a theorem says otherwise. MAXDNAME is 1025 and MAXLABEL is 63. The loop of cache_insert
-- has its rounds as fuel, of which it takes three at most. Loops over events, over the calls of write
-- and over the reads of a download follow lists.
--
-- Not modelled: output to the terminal but for the lines of the ping program, of search_hash and
-- of a.c, and closing of sockets; the file http1.0/src/zdns_v1.0.c, which has the text of zdns.c;
-- firewall/a.h, a header of the Linux kernel; and the rest of dnsmasq, a copy of another project:
-- its DHCP and TFTP servers, its options, its main loop, in rfc1035.c the making of answers, and in
-- cache.c the first allocation, the entries of the hosts file and of DHCP and the statistics.
pub mod Prelude
pub mod Dns
pub mod Ping
pub mod Http
pub mod Firewall
pub mod Hashmap
pub mod Url
pub mod Dnsmasq
pub mod Tests
