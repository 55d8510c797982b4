-- ===== src/IpFrag/Cut.antt =====
-- ip_frag.c: ip_frag on a packet in one pbuf. The fragments that it sends.
use my_lwip_poc.Base.{
  ℕ, zero, suc, ◌+◌, ◌-◌, ◌*◌, ◌/◌, ◌%◌, ◌≤◌, ◌<◌, ◌≡◌, refl, min, Bool, true, false, List, [], ◌∷◌,
  ◌++◌, ◌⊎◌, inl, inr, length, take, drop, arith, ap, sym, ◌∙◌, subst, ne→==, le→leb, Bool-cases,
  append-nil, length-drop, length-append, leb→lt,
}
use my_lwip_poc.Pbuf.Bytes.{drop-append_ge}
use my_lwip_poc.Base.Word.{add16, sub16, u16_mod}
use my_lwip_poc.Base.Outcome.{Outcome, ok}
use my_lwip_poc.IpFrag.{IpHdr, ip_hlen, Packet, offset_of}
use my_lwip_poc.IpFrag.Fragment.{
  Bytes, err_ok, refs, Progress, Sent, send, blocks, is_last, copied_len, frag_hdr, make_refs,
  cut_front, frag_round, frag_loop, ip_frag,
}

-- Fragments of the data, from this offset on, one after the other.
abbrev pub Cut : IpHdr → (mtu ofo : ℕ) → Bytes → List Packet → Type 0
Cut hdr mtu ofo bytes [] = bytes ≡ []
Cut hdr mtu ofo bytes (p ∷ ps) =
    (0 < length bytes)
    × (p.hdr ≡ frag_hdr hdr mtu (length bytes) ofo)
    × (p.body ≡ take (copied_len mtu (length bytes)) bytes)
    × (p.clen ≡ 2)
    × Cut hdr mtu (add16 ofo (blocks mtu)) (drop (copied_len mtu (length bytes)) bytes) ps

-- How much one round copies of what is left, when the link carries 48 bytes or more.
pub copied_len-cases :
    (mtu left : ℕ)
    → 48 ≤ mtu
    → mtu < u16_mod
    → ((is_last mtu left ≡ true) × (copied_len mtu left ≡ left))
      ⊎ ((is_last mtu left ≡ false)
          × (copied_len mtu left ≡ blocks mtu * 8)
          × (copied_len mtu left < left)
          × (20 ≤ copied_len mtu left))
unfolding copied_len blocks
copied_len-cases mtu left h b =
    let size : blocks mtu ≡ (mtu - ip_hlen) / 8 = rw (le→leb ip_hlen mtu (omega (arith, h))) refl in
    let wrap : blocks mtu * 8 % u16_mod ≡ blocks mtu * 8 = omega (arith, size, b) in
    elim (Bool-cases (is_last mtu left)) [
      | inl t ↦ inl (t, rw t refl)
      | inr t ↦
          let lt = leb→lt (left + ip_hlen) mtu t in
          let c : copied_len mtu left ≡ blocks mtu * 8 = rw t wrap in
          inr (t, c, omega (arith, c, size, lt), omega (arith, c, size, h))
    ]

module _ (memory : ℕ → Bool) (all : (n : ℕ) → memory n ≡ true) where
  make_refs_one :
      (k nl n : ℕ) (d : Bytes)
      → suc k ≤ length d
      → make_refs memory (suc k) nl n (d ∷ [])
        ≡ ok (refs (take (suc k) d ∷ []) (d ∷ []) (suc k) (n + 1))
  unfolding make_refs
  make_refs_one k nl n d h =
      let e : min (suc k) (length d) ≡ suc k = omega (arith, h) in
      let z : suc k - suc k ≡ 0 = omega arith in
      rw (e, ne→== (suc k) 0 (omega arith), all n, z) refl

  -- One round sends the first bytes.
  one_round :
      (next : ℕ → Progress → Outcome Sent) (hdr : IpHdr) (mtu left : ℕ) (s : Progress) (p : Bytes)
      → s.pbufs ≡ p ∷ []
      → ip_hlen ≤ length p
      → (k : ℕ) → copied_len mtu left ≡ suc k
      → suc k ≤ length (drop s.poff p)
      → frag_round memory next hdr mtu left s
        ≡ send
            (record {
              hdr = frag_hdr hdr mtu left s.ofo;
              clen = 2;
              body = take (copied_len mtu left) (drop s.poff p);
            })
            (next (sub16 left (copied_len mtu left)) (record {
              ofo = add16 s.ofo (blocks mtu);
              poff = copied_len mtu left;
              newpbuflen = copied_len mtu left;
              allocs = s.allocs + 1 + 1;
              pbufs = drop s.poff p ∷ [];
            }))
  unfolding frag_round
  one_round next hdr mtu left s p e h k c le =
      let d = drop s.poff p in
      let run : make_refs memory (copied_len mtu left) s.newpbuflen (s.allocs + 1) (d ∷ [])
          ≡ ok (
              refs (take (copied_len mtu left) d ∷ []) (d ∷ []) (copied_len mtu left)
                (s.allocs + 1 + 1)) =
        subst
          (λ j.
            make_refs memory j s.newpbuflen (s.allocs + 1) (d ∷ [])
            ≡ ok (refs (take j d ∷ []) (d ∷ []) j (s.allocs + 1 + 1)))
          (sym c) (make_refs_one k s.newpbuflen (s.allocs + 1) d le) in
      let body = append-nil (take (copied_len mtu left) d) in
      let step : cut_front memory next hdr mtu left s (p ∷ [])
          ≡ send
              (record {
                hdr = frag_hdr hdr mtu left s.ofo;
                clen = 2;
                body = take (copied_len mtu left) d;
              })
              (next (sub16 left (copied_len mtu left)) (record {
                ofo = add16 s.ofo (blocks mtu);
                poff = copied_len mtu left;
                newpbuflen = copied_len mtu left;
                allocs = s.allocs + 1 + 1;
                pbufs = d ∷ [];
              })) =
        rw (le→leb ip_hlen (length p) h, run, body) refl in
      rw (all s.allocs) (ap (cut_front memory next hdr mtu left s) e ∙ step)

  frag_loop-Cut :
      (fuel left : ℕ) (hdr : IpHdr) (mtu : ℕ) (s : Progress) (p : Bytes)
      → 48 ≤ mtu
      → mtu < u16_mod
      → left < fuel
      → left < u16_mod
      → s.pbufs ≡ p ∷ []
      → (0 < left → ip_hlen ≤ length p)
      → length (drop s.poff p) ≡ left
      → (ps : List Packet) × (frag_loop memory fuel hdr mtu left s ≡ ok (err_ok, ps))
        × Cut hdr mtu s.ofo (drop s.poff p) ps
  unfolding frag_loop
  frag_loop-Cut zero left hdr mtu s p h b lt w e hp l = absurd (omega (arith, lt))
  frag_loop-Cut (suc fuel) zero hdr mtu s p h b lt w e hp l = ([], refl, empty (drop s.poff p) l)
    where
      empty : (d : Bytes) → length d ≡ 0 → d ≡ []
      empty [] q = refl
      empty (x ∷ d) q = absurd (omega (arith, q))
  frag_loop-Cut (suc fuel) (suc left) hdr mtu s p h b lt w e hp l =
      let d = drop s.poff p in
      let c = copied_len mtu (suc left) in
      let t : Progress = record {
        ofo = add16 s.ofo (blocks mtu);
        poff = c;
        newpbuflen = c;
        allocs = s.allocs + 1 + 1;
        pbufs = d ∷ [];
      } in
      let bounds : (0 < c) × (c ≤ suc left) = elim (copied_len-cases mtu (suc left) h b) [
        | inl q ↦ (omega (arith, q.1), omega (arith, q.1))
        | inr q ↦ (omega (arith, q.3), omega (arith, q.2))
      ] in
      let rest : sub16 (suc left) c ≡ suc left - c = omega (arith, w, bounds.1) in
      let next : (ps : List Packet) × (frag_loop memory fuel hdr mtu (suc left - c) t
            ≡ ok (err_ok, ps))
          × Cut hdr mtu t.ofo (drop c d) ps =
        frag_loop-Cut fuel (suc left - c) hdr mtu t d h b (omega (arith, lt, bounds.0))
          (omega (arith, w)) refl
          (λ more. elim (copied_len-cases mtu (suc left) h b) [
            | inl q ↦ absurd (omega (arith, more, q.1))
            | inr q ↦ omega (arith, l, q.2, q.3)
          ])
          (omega (arith, length-drop {0} c d, l)) in
      let (ps, run, cut) = next in
      (
        record { hdr = frag_hdr hdr mtu (suc left) s.ofo; clen = 2; body = take c d } ∷ ps,
        one_round (frag_loop memory fuel hdr mtu) hdr mtu (suc left) s p e (hp (omega arith))
              (c - 1) (omega (arith, bounds.0)) (omega (arith, bounds, l))
            ∙ ap
                (send
                  (record { hdr = frag_hdr hdr mtu (suc left) s.ofo; clen = 2; body = take c d }))
                (ap (λ k. frag_loop memory fuel hdr mtu k t) rest ∙ run),
        (
          omega (arith, l),
          ap (λ k. frag_hdr hdr mtu k s.ofo) (sym l),
          ap (λ k. take (copied_len mtu k) d) (sym l),
          refl,
          subst (λ k. Cut hdr mtu t.ofo (drop (copied_len mtu k) d) ps) (sym l) cut,
        ),
      )

  -- The packet in one pbuf, its header of 20 bytes in front of `bytes`.
  pub ip_frag-Cut :
      (hdr : IpHdr) (mtu : ℕ) (front bytes : Bytes)
      → 48 ≤ mtu
      → mtu < u16_mod
      → length front ≡ ip_hlen
      → length bytes + ip_hlen < u16_mod
      → (ps : List Packet) × (ip_frag memory hdr mtu
            (length bytes + ip_hlen)
            ((front ++ bytes) ∷ [])
          ≡ ok (err_ok, ps))
        × Cut hdr mtu (offset_of hdr) bytes ps
  unfolding ip_frag
  ip_frag-Cut hdr mtu front bytes h b f w =
      let left : sub16 (length bytes + ip_hlen) ip_hlen ≡ length bytes = omega (arith, w) in
      let none_left : ip_hlen - length front ≡ 0 = omega (arith, f) in
      let rest : drop ip_hlen (front ++ bytes) ≡ bytes =
        drop-append_ge ip_hlen front bytes (omega (arith, f)) ∙ ap (λ k. drop k bytes) none_left in
      let s : Progress = record {
        ofo = offset_of hdr;
        poff = ip_hlen;
        newpbuflen = 0;
        allocs = 0;
        pbufs = (front ++ bytes) ∷ [];
      } in
      let enough : 0 < length bytes → ip_hlen ≤ length (front ++ bytes) =
        λ q. omega (arith, f, length-append {0} front bytes) in
      let one_more : length bytes < suc (length bytes) = omega arith in
      let below : length bytes < u16_mod = omega (arith, w) in
      let (ps, run, cut) =
        frag_loop-Cut (suc (length bytes)) (length bytes) hdr mtu s (front ++ bytes) h b one_more
          below refl enough (ap length rest) in
      (
        ps,
        ap (λ k. frag_loop memory (suc k) hdr mtu k s) left ∙ run,
        subst (λ d. Cut hdr mtu (offset_of hdr) d ps) rest cut,
      )
