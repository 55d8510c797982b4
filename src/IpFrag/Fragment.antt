-- ===== src/IpFrag/Fragment.antt =====
-- ip_frag.c: ip_frag. The packet is a chain of pbufs, the first of which holds the IP header; a pbuf is
-- its bytes.
use my_lwip_poc.Base.{
  ℕ, zero, suc, ◌+◌, ◌-◌, ◌*◌, ◌/◌, ◌%◌, min, Bool, not, List, [], ◌∷◌, ◌++◌, if◌then◌else◌, leb,
  ◌==◌, length, take, drop,
}
use my_lwip_poc.Base.Word.{add16, sub16, u8_mod, u16_mod}
use my_lwip_poc.Base.Outcome.{Outcome, ok, assert_failed, out_of_fuel, ◌>>=◌, asserting}
use my_lwip_poc.IpFrag.{IpHdr, ip_hlen, offset_of, more_fragments, set_chksum, Packet}

-- ERR_OK, ERR_MEM
pub data FragErr : Type 0 where
  err_ok : FragErr
  err_mem : FragErr

abbrev pub Bytes : Type 0
Bytes = List ℕ

-- nfb, a u16_t that a negative quotient wraps round.
unfoldable pub blocks : (mtu : ℕ) → ℕ
blocks mtu =
    if leb ip_hlen mtu then (mtu - ip_hlen) / 8 else (u16_mod - (ip_hlen - mtu) / 8) % u16_mod

-- `last`
abbrev pub is_last : (mtu left : ℕ) → Bool
is_last mtu left = leb (left + ip_hlen) mtu

-- `cop`
unfoldable pub copied_len : (mtu left : ℕ) → ℕ
copied_len mtu left = if is_last mtu left then left else blocks mtu * 8 % u16_mod

-- The header of a fragment with this offset.
unfoldable pub frag_hdr : IpHdr → (mtu left ofo : ℕ) → IpHdr
frag_hdr hdr mtu left ofo = set_chksum (record hdr {
  offset = ofo % 8192 + 8192 * (if is_last mtu left then more_fragments hdr else 1);
  len = add16 (copied_len mtu left) ip_hlen;
})

-- What the loop that makes PBUF_REFs comes to: the bytes they refer to, the pbufs from `p` on, poff,
-- and how many allocations there have been; or no memory for one.
pub data Refs : Type 0 where
  refs : List Bytes → (rest : List Bytes) → (poff allocs : ℕ) → Refs
  no_memory : Refs

abbrev pub with_ref : Bytes → Refs → Refs
with_ref b (refs bs rest poff n) = refs (b ∷ bs) rest poff n
with_ref b no_memory = no_memory

abbrev pub add_ref : Bytes → Outcome Refs → Outcome Refs
add_ref b o = o >>= λ r. ok (with_ref b r)

abbrev pub flat : List Bytes → Bytes
flat [] = []
flat (b ∷ bs) = b ++ flat bs

-- The variables of ip_frag that its rounds change, `left` apart: ofo, poff, newpbuflen, the number of
-- allocations and the pbufs from `p` on.
pub record Progress : Type 0 where
  pub ofo : ℕ
  pub poff : ℕ
  pub newpbuflen : ℕ
  pub allocs : ℕ
  pub pbufs : List Bytes

abbrev pub Sent : Type 0
Sent = FragErr × List Packet

abbrev pub send : Packet → Outcome Sent → Outcome Sent
send p o = o >>= λ r. ok (r.0, p ∷ r.1)

-- Whether the n-th call of pbuf_alloc or memp_malloc gives memory. pbuf_alloced_custom does not fail
-- for the arguments it is given.
module _ (memory : ℕ → Bool) where
  -- The loop that makes PBUF_REFs; NULL would be read behind the last pbuf.
  unfoldable pub make_refs : (left_to_copy poff allocs : ℕ) → List Bytes → Outcome Refs
  make_refs zero poff n ps = ok (refs [] ps poff n)
  make_refs (suc k) poff n [] = assert_failed
  make_refs (suc k) poff n (p ∷ ps) =
      let newpbuflen = min (suc k) (length p) in
      let left = suc k - newpbuflen in
      let more = make_refs left newpbuflen (if newpbuflen == 0 then n else n + 1) ps in
      if newpbuflen == 0
      then more
      else if not (memory n)
      then ok no_memory
      else if left == 0
      then ok (refs (take newpbuflen p ∷ []) (p ∷ ps) newpbuflen (n + 1))
      else add_ref (take newpbuflen p) more

  -- One fragment is sent, and `next` goes on with the bytes that are left.
  abbrev pub send_refs :
      (ℕ → Progress → Outcome Sent) → IpHdr → (mtu left ofo : ℕ) → Refs → Outcome Sent
  send_refs next hdr mtu left ofo no_memory = ok (err_mem, [])
  send_refs next hdr mtu left ofo (refs bs rest poff n) =
      send
        (record {
          hdr = frag_hdr hdr mtu left ofo;
          clen = suc (length bs) % u8_mod;
          body = flat bs;
        })
        (next (sub16 left (copied_len mtu left)) (record {
          ofo = add16 ofo (blocks mtu);
          poff = poff;
          newpbuflen = poff;
          allocs = n;
          pbufs = rest;
        }))

  -- From `p->payload += poff` on.
  abbrev pub cut_front :
      (ℕ → Progress → Outcome Sent) → IpHdr → (mtu left : ℕ) → Progress → List Bytes → Outcome Sent
  cut_front next hdr mtu left s [] = assert_failed
  cut_front next hdr mtu left s (p ∷ ps) = asserting (leb ip_hlen (length p)) (
      make_refs (copied_len mtu left) s.newpbuflen (s.allocs + 1) (drop s.poff p ∷ ps)
      >>= send_refs next hdr mtu left s.ofo)

  -- One round, whose first allocation is that of the pbuf for the header.
  unfoldable pub frag_round :
      (ℕ → Progress → Outcome Sent) → IpHdr → (mtu left : ℕ) → Progress → Outcome Sent
  frag_round next hdr mtu left s =
      if memory s.allocs then cut_front next hdr mtu left s s.pbufs else ok (err_mem, [])

  -- `while (left)`
  unfoldable pub frag_loop : ℕ → IpHdr → (mtu left : ℕ) → Progress → Outcome Sent
  frag_loop zero hdr mtu left s = out_of_fuel
  frag_loop (suc fuel) hdr mtu zero s = ok (err_ok, [])
  frag_loop (suc fuel) hdr mtu (suc k) s = frag_round (frag_loop fuel hdr mtu) hdr mtu (suc k) s

  -- `hdr` is the header at the front of the packet, whose pbufs hold `tot_len` bytes. A u16_t of bytes
  -- takes fewer rounds than its value, unless the interface has no room for a block.
  unfoldable pub ip_frag : IpHdr → (mtu tot_len : ℕ) → List Bytes → Outcome Sent
  ip_frag hdr mtu tot_len pbufs =
      frag_loop (suc (sub16 tot_len ip_hlen)) hdr mtu (sub16 tot_len ip_hlen)
        (record { ofo = offset_of hdr; poff = ip_hlen; newpbuflen = 0; allocs = 0; pbufs = pbufs })
