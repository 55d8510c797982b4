-- ===== src/Etharp/Ages.antt =====
-- netif/etharp.c: the candidates that the loop of etharp_find_entry remembers.
use my_lwip_poc.Base.{
  ℕ, ◌&&◌, suc, ◌≤◌, ◌<◌, ◌≡◌, ◌≢◌, refl, ◌⊎◌, inl, inr, ltb, leb, ◌==◌, arith, Bool-cases, subst,
}
use my_lwip_poc.Etharp.{ArpEntry, Candidates, remember}

-- The entries that may be recycled.
abbrev pub Stable : ArpEntry → Type 0
Stable e = (2 ≤ e.state) × (e.state < 4)

abbrev pub Bare : ArpEntry → Type 0
Bare e = (e.state ≡ 1) × (e.q ≡ 0)

abbrev pub Queued : ArpEntry → Type 0
Queued e = (e.state ≡ 1) × (e.q ≢ 0)

-- Of the first `n` entries `b` is an oldest of its kind, or 10 if there is none.
abbrev pub Oldest : (ArpEntry → Type 0) → (ℕ → ArpEntry) → (n b age : ℕ) → Type 0
Oldest K t n b age =
    ((b ≡ 10) × (age ≡ 0) × ((j : ℕ) → j < n → ¬ K (t j)))
    ⊎ ((b < n) × K (t b) × (age ≡ (t b).ctime) × ((j : ℕ) → j < n → K (t j) → (t j).ctime ≤ age))

up_to_last : (n j : ℕ) → j < suc n → n ≤ j → n ≡ j
up_to_last n j lt le = omega arith

pub up_to : (P : ℕ → Type 0) (n : ℕ) → ((j : ℕ) → j < n → P j) → P n → (j : ℕ) → j < suc n → P j
up_to P n h p j lt = elim (Bool-cases (ltb j n)) [
  | inl e ↦ h j (ground arith)
  | inr e ↦ subst P (up_to_last n j lt (ground arith)) p
]

Oldest-take :
    (K : ArpEntry → Type 0) (t : ℕ → ArpEntry) (n b age : ℕ)
    → Oldest K t n b age
    → K (t n)
    → age ≤ (t n).ctime
    → Oldest K t (suc n) n (t n).ctime
Oldest-take K t n b age (inl o) k le = inr (
  omega arith,
  k,
  refl,
  up_to (λ j. K (t j) → (t j).ctime ≤ (t n).ctime) n (λ j lt kj. absurd (o.2 j lt kj))
      (λ kn. omega arith),
)
Oldest-take K t n b age (inr o) k le = inr (
  omega arith,
  k,
  refl,
  up_to (λ j. K (t j) → (t j).ctime ≤ (t n).ctime) n (λ j lt kj. omega (arith, o.3 j lt kj, le))
      (λ kn. omega arith),
)

Oldest-pass :
    (K : ArpEntry → Type 0) (t : ℕ → ArpEntry) (n b age : ℕ)
    → Oldest K t n b age
    → (K (t n) → (t n).ctime < age)
    → Oldest K t (suc n) b age
Oldest-pass K t n b age (inl o) less =
    inl (o.0, o.1, up_to (λ j. ¬ K (t j)) n o.2 (λ k. omega (arith, less k, o.1)))
Oldest-pass K t n b age (inr o) less = inr (
  omega (arith, o.0),
  o.1,
  o.2,
  up_to (λ j. K (t j) → (t j).ctime ≤ age) n o.3 (λ k. omega (arith, less k)),
)

-- What the candidates are of the first `n` entries.
pub record Ages (t : ℕ → ArpEntry) (n : ℕ) (c : Candidates) : Type 0 where
  pub stable : Oldest Stable t n c.old_stable c.age_stable
  pub pending : Oldest Bare t n c.old_pending c.age_pending
  pub queue : Oldest Queued t n c.old_queue c.age_queue

pub record Remembered (t : ℕ → ArpEntry) (i : ℕ) (c d : Candidates) : Type 0 where
  pub first : d.first_empty ≡ c.first_empty
  pub ages : Ages t (suc i) d

-- An entry that is of less kind of interest.
pub Ages-pass :
    (t : ℕ → ArpEntry) (i : ℕ) (c : Candidates)
    → Ages t i c
    → (Stable (t i) → (t i).ctime < c.age_stable)
    → (Bare (t i) → (t i).ctime < c.age_pending)
    → (Queued (t i) → (t i).ctime < c.age_queue)
    → Remembered t i c c
Ages-pass t i c a s p q = record {
  first = refl;
  ages = record {
    stable = Oldest-pass Stable t i c.old_stable c.age_stable a.stable s;
    pending = Oldest-pass Bare t i c.old_pending c.age_pending a.pending p;
    queue = Oldest-pass Queued t i c.old_queue c.age_queue a.queue q;
  };
}

module _ (t : ℕ → ArpEntry) (i : ℕ) (c : Candidates) (a : Ages t i c) where
  take-Stable :
      Stable (t i)
      → c.age_stable ≤ (t i).ctime
      → Remembered t i c (record c { old_stable = i; age_stable = (t i).ctime })
  take-Stable k le = record {
    first = refl;
    ages = record {
      stable = Oldest-take Stable t i c.old_stable c.age_stable a.stable k le;
      pending =
          Oldest-pass Bare t i c.old_pending c.age_pending a.pending (λ x. omega (arith, x.0, k.0));
      queue = Oldest-pass Queued t i c.old_queue c.age_queue a.queue (λ x. omega (arith, x.0, k.0));
    };
  }

  take-Bare :
      Bare (t i)
      → c.age_pending ≤ (t i).ctime
      → Remembered t i c (record c { old_pending = i; age_pending = (t i).ctime })
  take-Bare k le = record {
    first = refl;
    ages = record {
      stable =
          Oldest-pass Stable t i c.old_stable c.age_stable a.stable (λ x. omega (arith, x.0, k.0));
      pending = Oldest-take Bare t i c.old_pending c.age_pending a.pending k le;
      queue = Oldest-pass Queued t i c.old_queue c.age_queue a.queue (λ x. absurd (x.1 k.1));
    };
  }

  take-Queued :
      Queued (t i)
      → c.age_queue ≤ (t i).ctime
      → Remembered t i c (record c { old_queue = i; age_queue = (t i).ctime })
  take-Queued k le = record {
    first = refl;
    ages = record {
      stable =
          Oldest-pass Stable t i c.old_stable c.age_stable a.stable (λ x. omega (arith, x.0, k.0));
      pending = Oldest-pass Bare t i c.old_pending c.age_pending a.pending (λ x. absurd (k.1 x.1));
      queue = Oldest-take Queued t i c.old_queue c.age_queue a.queue k le;
    };
  }

  pub remember-Ages : Remembered t i c (remember i (t i) c)
  unfolding remember
  remember-Ages = elim (Bool-cases ((t i).state == 1)) [
    | inl e ↦ rw e (elim (Bool-cases ((t i).q == 0)) [
      | inl z ↦ rw z (elim (Bool-cases (leb c.age_pending (t i).ctime)) [
        | inl le ↦ rw le (take-Bare (ground arith, ground arith) (ground arith))
        | inr gt ↦
            rw gt (Ages-pass t i c a (λ x. ground arith) (λ x. ground arith) (λ x. ground arith))
      ])
      | inr z ↦ rw z (elim (Bool-cases (leb c.age_queue (t i).ctime)) [
        | inl le ↦ rw le (take-Queued (ground arith, ground arith) (ground arith))
        | inr gt ↦
            rw gt (Ages-pass t i c a (λ x. ground arith) (λ x. ground arith) (λ x. ground arith))
      ])
    ])
    | inr e ↦
        rw e
          (elim (Bool-cases
            (leb 2 (t i).state && (ltb (t i).state 4 && leb c.age_stable (t i).ctime))) [
              | inl y ↦ rw y (take-Stable (ground arith, ground arith) (ground arith))
              | inr y ↦
                  rw y
                    (Ages-pass t i c a (λ x. ground arith) (λ x. ground arith) (λ x. ground arith))
            ])
  ]
