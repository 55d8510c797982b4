-- ===== src/Etharp/Sweep.antt =====
-- netif/etharp.c: what the loop of etharp_find_entry comes to.
use my_lwip_poc.Base.{
  ℕ, ==→ne, ◌||◌, ◌&&◌, zero, suc, ◌+◌, ◌≤◌, ◌<◌, ◌≡◌, ◌≢◌, refl, true, false, ◌⊎◌, inl, inr, leb,
  ◌==◌, arith, Bool-cases, subst,
}
use my_lwip_poc.Base.Outcome.{Outcome, ok, ◌>>=◌}
use my_lwip_poc.Etharp.{ArpEntry, Candidates, no_candidates, remember, visit, sweep}
use my_lwip_poc.Etharp.Ages.{Ages, Remembered, Ages-pass, remember-Ages, up_to}

-- What the loop knows after the first `n` entries.
pub record Seen (t : ℕ → ArpEntry) (ipaddr n : ℕ) (c : Candidates) : Type 0 where
  pub first :
      ((c.first_empty < n) × ((t c.first_empty).state ≡ 0))
      ⊎ ((c.first_empty ≡ 10) × ((j : ℕ) → j < n → (t j).state ≢ 0))
  pub absent : (j : ℕ) → j < n → (t j).state ≢ 0 → (t j).ipaddr ≢ ipaddr
  pub ages : Ages t n c

-- The entry of the address, or the candidates of a table without one.
pub data Swept (t : ℕ → ArpEntry) (ipaddr n : ℕ) : Outcome (ℕ ⊎ Candidates) → Type 0 where
  matched :
      (i : ℕ) → i < 10 → (t i).state ≢ 0 → (t i).ipaddr ≡ ipaddr → Swept t ipaddr n (ok (inl i))
  searched : (c : Candidates) → Seen t ipaddr n c → Swept t ipaddr n (ok (inr c))

module _ (t : ℕ → ArpEntry) (ipaddr : ℕ) where
  no_age : (i : ℕ) (c : Candidates) → Seen t ipaddr i c → (t i).state ≡ 0 → Remembered t i c c
  no_age i c s e =
      Ages-pass t i c s.ages (λ x. omega (arith, x.0, e)) (λ x. omega (arith, x.0, e))
        (λ x. omega (arith, x.0, e))

  idle :
      (i : ℕ) (c : Candidates)
      → Seen t ipaddr i c
      → (t i).state ≡ 0
      → Seen t ipaddr (suc i) (record c { first_empty = i })
  idle i c s e = record {
    first = inl (omega arith, e);
    absent = up_to (λ j. (t j).state ≢ 0 → (t j).ipaddr ≢ ipaddr) i s.absent (λ x. absurd (x e));
    ages =
        let a = (no_age i c s e).ages in
        record { stable = a.stable; pending = a.pending; queue = a.queue };
  }

  first_later :
      (i : ℕ) (c d : Candidates)
      → Seen t ipaddr i c
      → d.first_empty ≡ c.first_empty
      → (c.first_empty ≢ 10) ⊎ ((t i).state ≢ 0)
      → ((d.first_empty < suc i) × ((t d.first_empty).state ≡ 0))
        ⊎ ((d.first_empty ≡ 10) × ((j : ℕ) → j < suc i → (t j).state ≢ 0))
  first_later i c d s e w = rw e (elim s.first [
    | inl f ↦ inl (omega (arith, f.0), f.1)
    | inr f ↦
        inr
          (f.0, up_to (λ j. (t j).state ≢ 0) i f.1 (elim w [ inl x ↦ absurd (x f.0) | inr x ↦ x ]))
  ])

  quiet :
      (i : ℕ) (c : Candidates)
      → ((t i).state == 0) ≡ false
      → ((c.first_empty == 10) && ((t i).state == 0)) ≡ false
  quiet i c e = ground arith

  in_use :
      (i : ℕ) → (t i).state ≤ 4 → (t i).state ≢ 0 → (((t i).state == 1) || leb 2 (t i).state) ≡ true
  in_use i known used = ground arith

  next :
      (n i : ℕ) (r : Outcome (ℕ ⊎ Candidates))
      → Swept t ipaddr (suc i) r
      → ((d : Candidates)
          → Seen t ipaddr (suc i) d
          → Swept t ipaddr 10 (sweep t ipaddr n (suc i) d))
      → Swept t ipaddr 10
          (r >>= λ x. elim x [ inl j ↦ ok (inl j) | inr d ↦ sweep t ipaddr n (suc i) d ])
  next n i _ (matched j lt used same) go = matched j lt used same
  next n i _ (searched d s) go = go d s

  visit-Swept :
      (i : ℕ) (c : Candidates)
      → i < 10
      → (t i).state ≤ 4
      → Seen t ipaddr i c
      → Swept t ipaddr (suc i) (visit ipaddr i (t i) c)
  unfolding visit
  visit-Swept i c lt known s = elim (Bool-cases ((t i).state == 0)) [
    | inl e ↦ elim (Bool-cases (c.first_empty == 10)) [
      | inl f ↦ rw f (rw e (searched (record c { first_empty = i }) (idle i c s (ground arith))))
      | inr f ↦ rw f (
          rw e (
            searched c (record {
              first = first_later i c c s refl (inl (ground arith));
              absent =
                  up_to (λ j. (t j).state ≢ 0 → (t j).ipaddr ≢ ipaddr) i s.absent
                    (λ x. ground arith);
              ages = (no_age i c s (ground arith)).ages;
            })))
    ]
    | inr e ↦ rw (quiet i c e) (
        rw e (
          rw (in_use i known (==→ne (t i).state 0 e)) (elim (Bool-cases (ipaddr == (t i).ipaddr)) [
            | inl m ↦ rw m (matched i lt (ground arith) (ground arith))
            | inr m ↦ rw m (
                let r = remember-Ages t i c s.ages in
                searched (remember i (t i) c) (record {
                  first = first_later i c (remember i (t i) c) s r.first (inr (ground arith));
                  absent =
                      up_to (λ j. (t j).state ≢ 0 → (t j).ipaddr ≢ ipaddr) i s.absent
                        (λ x. ground arith);
                  ages = r.ages;
                }))
          ])))
  ]

  ten : (i : ℕ) → 0 + i ≡ 10 → i ≡ 10
  ten i e = omega arith

  sweep-Swept :
      (n i : ℕ) (c : Candidates)
      → n + i ≡ 10
      → ((j : ℕ) → j < 10 → (t j).state ≤ 4)
      → Seen t ipaddr i c
      → Swept t ipaddr 10 (sweep t ipaddr n i c)
  unfolding sweep
  sweep-Swept zero i c e known s = searched c (subst (λ k. Seen t ipaddr k c) (ten i e) s)
  sweep-Swept (suc n) i c e known s =
      next n i (visit ipaddr i (t i) c) (visit-Swept i c (omega arith) (known i (omega arith)) s)
        (λ d. sweep-Swept n (suc i) d (omega arith) known)

  -- The whole loop.
  pub sweep_all :
      ((j : ℕ) → j < 10 → (t j).state ≤ 4) → Swept t ipaddr 10 (sweep t ipaddr 10 0 no_candidates)
  sweep_all known = sweep-Swept 10 0 no_candidates refl known (record {
    first = inr (refl, λ j lt. absurd (omega (arith, lt)));
    absent = λ j lt. absurd (omega (arith, lt));
    ages = record {
      stable = inl (refl, refl, λ j lt. absurd (omega (arith, lt)));
      pending = inl (refl, refl, λ j lt. absurd (omega (arith, lt)));
      queue = inl (refl, refl, λ j lt. absurd (omega (arith, lt)));
    };
  })
