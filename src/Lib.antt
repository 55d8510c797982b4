-- ===== src/Lib.antt =====
-- A model of the C code of this repository: the lwIP stack under lwip-1.4.1, as it is configured by
-- lwip-1.4.1/src/include/lwip/lwipopts.h and include/arch, and the port under cwrap. The file
-- cwrap/build_lwip.ps1 compiles a part of the stack and the port into one DLL; that part is the
-- program here. The configuration that the model follows: a little-endian host, MEM_SIZE 16000,
-- MEM_ALIGNMENT 4, u16_t for mem_size_t, statistics on, and LWIP_ASSERT and LWIP_ERROR abort
-- (include/arch/cc.h). NO_SYS is 1 for the stack and 0 for cwrap/sys_arch.c.
--
-- The parts, and the files that model them:
-- - Base: numbers, tests, lists, words of 8, 16 and 32 bits with their wrap-around, and Outcome, what
--   a call with assertions and bounded loops comes to.
-- - Def: core/def.c, the byte order of words (lwip_htons and its kin). It serves Chksum.
-- - Chksum: core/ipv4/inet_chksum.c. The routines over a buffer (standard_chksum is
--   lwip_standard_chksum, version 2), over a chain (inet_chksum_pbuf) and with a pseudo header. A
--   buffer is the parity of its address and its bytes. Chksum/Spec has the ones' complement sum of
--   RFC 1071, and the other files relate the code to it.
-- - Mem: core/mem.c, the heap. Mem.antt has the state (ram as a function from offsets to headers,
--   lfree, the counters), mem_init, mem_free, plug_holes and mem_trim; Mem/Malloc has mem_malloc and
--   mem_calloc. Mem/Blocks has the abstract view, the list of blocks and of allocated areas, and the
--   invariant Inv; one file for each operation shows what it does to them, and Mem/Reach follows a
--   client from mem_init on.
-- - Etharp: netif/etharp.c, the ARP table. Etharp has the table and its operations, with the search of
--   etharp_find_entry as a loop that keeps the candidates for recycling; Etharp/Query has the packets
--   that leave or wait for an address. Ten entries, as configured; the loops run over the ten. The
--   address tests, ip_route and the hwaddr_len of the interfaces are parameters; what pbuf_alloc gives
--   and linkoutput returns are arguments. A packet that is to be queued is a list of the pbufs of Pbuf;
--   sending and freeing are events of the model.
-- - Memp: core/memp.c, the pools of elements of one size: memp_init, memp_malloc and memp_free, with a
--   linked list for each pool. Memp/Client has their specification, in terms of what clients own, and
--   the invariant; Lists, Carve, Return and Runs lead to it. The entries of IpFrag and the references
--   of ip_frag are elements of such pools: IpFrag counts those that are free.
-- - Pbuf: core/pbuf.c, packet buffers. Pbuf.antt and Pbuf/Search have the functions that read and fill
--   a packet, on the list of its pbufs; Pbuf/Bytes has the bytes laid end to end, which Copy, Fill,
--   Compare and Find relate them to. Pbuf/Chain has the functions that change links and reference
--   counts, on a memory of pbufs; Pbuf/Links has the invariant of tot_len, and Cat, Release and
--   Dechain what pbuf_cat, pbuf_free and pbuf_dechain do to chains. Pbufs of the heap lie in the
--   blocks of Mem, and inet_chksum_pbuf walks a chain.
-- - IpAddr: core/ipv4/ip_addr.c, addresses as text: ipaddr_aton, its loops and its switch, and
--   ipaddr_ntoa_r. Bits has what `|` does to bytes, Decimal the form of one byte, Text the whole. It
--   takes lwip_htonl of Def.
-- - IpFrag: core/ipv4/ip_frag.c, with the header of include/ipv4/lwip/ip.h. IpFrag/Place has
--   ip_reass_chain_frag_into_datagram_and_validate, IpFrag/Queue the list of datagrams, ip_reass_tmr
--   and ip_reass_remove_oldest_datagram, IpFrag/Input ip_reass and IpFrag/Fragment ip_frag. Chain,
--   Complete, Gaps and Join say what becomes of the fragments of one datagram; Inv has the invariant
--   of the list, which Aging, Oldest, Removal, Steps and Preserve keep; Crowded has a call that
--   aborts; Cut, InOrder, Pieces, NextPiece, RoundTrip and Delivery lead from ip_frag to ip_reass.
--   A packet is its header, its number of pbufs and its bytes, as Pbuf has them; the checksum of the
--   header is inet_chksum of Chksum.
-- - Sys: cwrap/sys_arch.c. Sys/Timer has the timers and the timer thread: sys_timeout, sys_untimeout,
--   the wait and the loop over expired timers (Order, Expire, Wrap), and what the thread does with the
--   mutex (Lock). Sys/Mbox has the mailboxes as linked nodes, one pass through the lock for each call
--   (Queue, Passes), and Sys/History the calls of all threads in the order in which they hold the
--   lock.
--
-- Bounds and fuel. The loops of mem_malloc are given as much fuel as the heap has bytes: each block
-- takes 20 bytes at least. The loop of pbuf_memfind is given a round for each value of a u16_t; it
-- moves on by one at least. The loop of ip_frag is given a round for each byte and one more;
-- ip_reass_remove_oldest_datagram one more round than there are entries for datagrams
-- (MEMP_NUM_REASSDATA is 5, IP_REASS_MAX_PBUFS 10, IP_REASS_MAXAGE 3). The loops along a chain of
-- pbufs, and the loop over expired timers, take their fuel as an argument; one more round than the
-- list has items is enough. Every other loop is structural.
--
-- Parameters: the numbers and sizes of the elements of the pools, what malloc returns to the port (an
-- address, or whether it gives one), what sys_now reads, what a timer's handler does, what the free
-- function of a custom pbuf does, for ip_frag which of its allocations gives memory, and for the ARP
-- table what Etharp is given.
--
-- Not modelled: of core/pbuf.c pbuf_alloc, pbuf_realloc, pbuf_copy and pbuf_coalesce; of
-- core/ipv4/ip_addr.c ip4_addr_isbroadcast and ip4_addr_netmask_valid; of cwrap/sys_arch.c the
-- threads, semaphores and critical sections, which only call the operating system; of
-- netif/etharp.c the reading and writing of headers and the copying of packets; core/netif.c and the
-- rest of core/ipv4; and what the build leaves out: TCP, UDP, the socket interface, DHCP, DNS, SNMP,
-- PPP, IPv6.
pub mod Base
pub mod Def
pub mod Chksum
pub mod Mem
pub mod Memp
pub mod Sys
pub mod Pbuf
pub mod Etharp
pub mod IpAddr
pub mod IpFrag
