-- ===== src/IpFrag.antt =====
-- lwip-1.4.1/src/core/ipv4/ip_frag.c, with include/ipv4/lwip/ip.h and ip_frag.h: the fragments of IPv4
-- datagrams. A packet is its IP header, the number of its pbufs and the bytes behind the header.
pub mod Place
pub mod Queue
pub mod Input
pub mod Chain
pub mod Complete
pub mod Gaps
pub mod Inv
pub mod Aging
pub mod Oldest
pub mod Removal
pub mod Crowded
pub mod Join
pub mod Steps
pub mod Preserve
pub mod Fragment
pub mod Cut
pub mod InOrder
pub mod Pieces
pub mod NextPiece
pub mod RoundTrip
pub mod Delivery
mod Tests
use my_lwip_poc.Base.{ℕ, ◌+◌, ◌-◌, ◌*◌, ◌/◌, ◌%◌, Bool, false, List, [], ◌∷◌, ◌&&◌, ◌==◌}
use my_lwip_poc.Base.Word.{add16, sub16}
use my_lwip_poc.Chksum.{inet_chksum}

-- struct ip_hdr, its words of 16 bits read with ntohs, but for the checksum.
pub record IpHdr : Type 0 where
  pub v_hl : ℕ
  pub tos : ℕ
  pub len : ℕ
  pub id : ℕ
  pub offset : ℕ
  pub ttl : ℕ
  pub proto : ℕ
  pub chksum : ℕ
  pub src : ℕ
  pub dest : ℕ

abbrev pub ip_hlen : ℕ
ip_hlen = 20

-- IPH_HL
abbrev pub iph_hl : IpHdr → ℕ
iph_hl h = h.v_hl % 16

-- `ntohs(IPH_OFFSET(h)) & IP_OFFMASK`
abbrev pub offset_of : IpHdr → ℕ
offset_of h = h.offset % 8192

-- `ntohs(IPH_OFFSET(h)) & IP_MF`, as a bit.
abbrev pub more_fragments : IpHdr → ℕ
more_fragments h = h.offset / 8192 % 2

-- The header in memory.
abbrev pub header_bytes : IpHdr → List ℕ
header_bytes h =
    h.v_hl
    ∷ h.tos
    ∷ (h.len / 256)
    ∷ (h.len % 256)
    ∷ (h.id / 256)
    ∷ (h.id % 256)
    ∷ (h.offset / 256)
    ∷ (h.offset % 256)
    ∷ h.ttl
    ∷ h.proto
    ∷ (h.chksum % 256)
    ∷ (h.chksum / 256)
    ∷ (h.src % 256)
    ∷ (h.src / 256 % 256)
    ∷ (h.src / 65536 % 256)
    ∷ (h.src / 16777216)
    ∷ (h.dest % 256)
    ∷ (h.dest / 256 % 256)
    ∷ (h.dest / 65536 % 256)
    ∷ (h.dest / 16777216)
    ∷ []

-- IPH_CHKSUM_SET(h, 0); IPH_CHKSUM_SET(h, inet_chksum(h, IP_HLEN)), at an even address.
unfoldable pub set_chksum : IpHdr → IpHdr
set_chksum h = record h {
  chksum = inet_chksum false (header_bytes (record h { chksum = 0 })) ip_hlen;
}

pub record Packet : Type 0 where
  pub hdr : IpHdr
  pub clen : ℕ
  pub body : List ℕ

-- A fragment that waits: its struct ip_reass_helper, which overwrites the header, and its pbufs.
pub record Frag : Type 0 where
  pub start : ℕ
  pub end_ : ℕ
  pub clen : ℕ
  pub body : List ℕ

-- `ntohs(IPH_LEN(h)) - IPH_HL(h) * 4`, in a u16_t.
abbrev pub payload_len : IpHdr → ℕ
payload_len h = sub16 h.len (iph_hl h * 4)

abbrev pub frag_of : Packet → Frag
frag_of p = record {
  start = offset_of p.hdr * 8;
  end_ = add16 (offset_of p.hdr * 8) (payload_len p.hdr);
  clen = p.clen;
  body = p.body;
}

-- struct ip_reassdata, with the list at p; `last_seen` is IP_REASS_FLAG_LASTFRAG of flags.
pub record Datagram : Type 0 where
  pub frags : List Frag
  pub iphdr : IpHdr
  pub datagram_len : ℕ
  pub last_seen : Bool
  pub timer : ℕ

-- IP_ADDRESSES_AND_ID_MATCH
abbrev pub matching : IpHdr → IpHdr → Bool
matching a b = a.src == b.src && a.dest == b.dest && a.id == b.id

-- reassdatagrams, ip_reass_pbufcount, the free entries of MEMP_REASSDATA, and the headers of the
-- datagrams for which icmp_time_exceeded was called, the last one first.
pub record Reass : Type 0 where
  pub datagrams : List Datagram
  pub pbufcount : ℕ
  pub free_entries : ℕ
  pub time_exceeded : List IpHdr

-- As at the start: MEMP_NUM_REASSDATA is 5.
abbrev pub no_datagrams : Reass
no_datagrams = record { datagrams = []; pbufcount = 0; free_entries = 5; time_exceeded = [] }
