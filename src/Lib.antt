-- ===== src/Lib.antt =====
-- wifi-cat is a captive portal for a router (a descendant of nodogsplash): it keeps a list of the
-- clients that have hit it, puts iptables rules in and takes them out as clients are authenticated,
-- blocked or time out, and is steered over a web page and over the socket of ndsctl. This library
-- models its core.
--
-- How the parts interact. A request of ndsctl (src/ndsctl_thread.c) or the portal registers a
-- client (src/client_list.c) and acts on it (src/auth.c), which changes the client list and runs
-- commands through src/fw_iptables.c, src/tc.c and src/util.c. A timer calls fw_refresh_client_list
-- (src/firewall.c), which reads the byte counters of the firewall, then drops clients. src/conf.c
-- holds the settings that all of them read.
--
-- Files:
--   Base: the shared names; Base.Tests and Base.Lists hold tests and list lemmas, Base.Int the C
--     `int`, Base.Text byte strings and format, Base.Scan the scanf formats, Base.Bits the bitwise
--     or.
--   ClientList: src/client_list.c and client_list.h. The list that starts at firstclient, each
--     node with its address, and the table client_arr of addresses by slot. Nodes, Slots and Unique
--     hold the lemmas, Invariant the invariant and client_list_delete, Register
--     client_list_add_client.
--   Auth: src/auth.c, auth_client_action on the state that the threads share; Auth.Action its
--     theorem, Auth.Refines its abstract counterpart on ClientList.View.
--   Firewall: src/firewall.c, fw_refresh_client_list and (Firewall.Arp) arp_get; Firewall.Refresh
--     its theorem, Firewall.StateNames fw_connection_state_as_string.
--   Shell: src/util.c execute and the retry loop of iptables_do_command, as a log of commands.
--     What a command replies and what a listing prints is any function of the commands so far.
--     Shell.Trace tells which commands a script runs.
--   Iptables: src/fw_iptables.c. The marks and the rules on MACs; Iptables.Setup is
--     iptables_fw_init, Access iptables_fw_access, Teardown iptables_fw_destroy and
--     iptables_fw_destroy_mention, Counters iptables_fw_counters_update, Counters.Totals the totals
--     of upload and download.
--   Tc: src/tc.c.
--   Conf: src/conf.h, the configuration record; Conf.Init and Conf.Rulesets the defaults and the
--     rulesets of src/conf.c, Conf.Words its cutting of lines into words, Conf.Opcodes the
--     keywords, Conf.File config_read (Options the switch, with Accepted and Keeps; Sound what a
--     whole file comes to), Conf.Rules _parse_firewall_rule (Safe, Plain and RoundTrip its lemmas),
--     Conf.Formats the checks of addresses, Conf.Mac the lists of MAC addresses, Conf.FreeIp the
--     free addresses.
--   Center: src/centerserver.c, over a network that is an argument; Center.Bounds its loops.
--   Http: src/http.c and http.h, the data of a request; Http.Pages the pages and redirections,
--     Http.Callbacks the callbacks and token_verify (Laws what they decide, Keeps what they leave
--     of the list), Http.Passwords http_nodogsplash_check_userpass and data_extract_bw.
--   System: the daemon as one step relation over the callbacks, the requests of ndsctl and the
--     timer, each of which runs in one piece; Invariant, Timeouts, Views and Granted are about the
--     states that it reaches.
--   Remote: config_from_server of src/conf.c, on the tokens of jsmn; Remote.Sound what an answer
--     can do.
--   Startup: src/commandline.c and main of src/gateway.c up to the main loop; Startup.Ready what
--     it comes to.
--   Ndsctl: src/ndsctl_thread.c, the requests and their dispatch; Ndsctl.Read the loop that reads
--     one, Client src/ndsctl.c (Sent: what becomes of what it sends), Macs, Clients and Dispatch
--     the theorems.
--   Examples: a small system on which the theorems are applied.
--
-- Conventions. A char pointer that may be NULL is an Option; a text is the list of its bytes
-- without the NUL; an int is a ℤ whose products wrap around where the code multiplies, an unsigned
-- int a number below 2 ^ 32. The configuration says of its three paths whether they may be freed. A
-- read through a bad pointer, out of a table or of memory that was not written is the result
-- `fault`. Locks are not modelled: each operation runs as the code runs it, under its lock. The
-- handler of an action gives the lock back between its search and its action; here it runs in one
-- piece.
--
-- Fuel. refresh_loop has one more than the nodes of the list, config_loop one more than the lines
-- of the file, keys_loop one more than the tokens, counters_loop, total_loop and arp_loop one more
-- than the bytes that are left, each of which a round shortens; read_response has one more than the
-- bytes of its buffer; ask_again has the attempts to reach the server that are waited for;
-- read_request has as many rounds as the buffer has room for bytes. iptables_fw_destroy_mention and
-- resolve_host have the fuel that the caller gives; how much is enough depends on what iptables and
-- the name servers do.
--
-- Parameters. What the caller of token_verify takes for a value where the function returns none,
-- the kernel's ARP table, the clock, the random numbers, malloc's addresses, the network, the URL
-- encoding of libhttpd, the tokens of jsmn, gethostbyname, inet_aton, atoi, the options that getopt
-- gives, what the files hold, and the replies of commands are arguments.
--
-- Not modelled: the status page (http_callback_status of src/http.c) and the status reports of
-- src/util.c, threads and signals (rest of src/gateway.c), logging and allocation (src/debug.c,
-- src/safe.c), what src/ndsctl.c prints of an answer, and the third-party libhttpd and src/jsmn.c.
-- A rule whose protocol word holds a percent sign, a read() that fails, and a word of a listing
-- that does not fit its buffer are outside too.
mod Base
pub mod Shell
pub mod Conf
pub mod Tc
pub mod ClientList
pub mod Iptables
pub mod Auth
pub mod Startup
pub mod Center
pub mod Http
pub mod Remote
pub mod System
pub mod Firewall
pub mod Ndsctl
pub mod Examples
