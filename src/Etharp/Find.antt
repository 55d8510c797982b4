-- ===== src/Etharp/Find.antt =====
-- netif/etharp.c: the table in order, and what etharp_find_entry does to it.
use my_lwip_poc.Base.{
  ℕ, ◌≤◌, ◌<◌, ◌≡◌, ◌≢◌, refl, ◌⊎◌, inl, inr, ◌==◌, arith, Bool-cases, sym, ap, ◌∙◌, ==_refl, ne→==,
}
use my_lwip_poc.Memp.{set_at}
use my_lwip_poc.Etharp.{ArpEntry}

-- An entry in order: packets wait on pending entries only, and no entry is older than the timer lets it.
pub record Sound (e : ArpEntry) : Type 0 where
  pub known : e.state ≤ 4
  pub waiting : e.state ≢ 1 → e.q ≡ 0
  pub old : e.state ≢ 0 → e.ctime < 240
  pub young : e.state ≡ 1 → e.ctime < 2

-- The table in order: no two entries in use have the same address.
pub record Inv (t : ℕ → ArpEntry) : Type 0 where
  pub sound : (i : ℕ) → i < 10 → Sound (t i)
  pub unique :
      (i j : ℕ)
      → i < 10
      → j < 10
      → (t i).state ≢ 0
      → (t j).state ≢ 0
      → (t i).ipaddr ≡ (t j).ipaddr
      → i ≡ j

-- No other entry in use has the address.
abbrev pub Alone : (ℕ → ArpEntry) → (ipaddr i : ℕ) → Type 0
Alone t ipaddr i = (j : ℕ) → j < 10 → j ≢ i → (t j).state ≢ 0 → (t j).ipaddr ≢ ipaddr

pub set_at_there : {A : Type 0} (f : ℕ → A) (i : ℕ) (v : A) → set_at f i v i ≡ v
set_at_there f i v = rw (==_refl i) refl

pub set_at_other : {A : Type 0} (f : ℕ → A) (i j : ℕ) (v : A) → j ≢ i → set_at f i v j ≡ f j
set_at_other f i j v ne = rw (ne→== j i ne) refl

abbrev state_of : ArpEntry → ℕ
state_of e = e.state

abbrev ipaddr_of : ArpEntry → ℕ
ipaddr_of e = e.ipaddr

-- One entry changes.
module _ (t : ℕ → ArpEntry) (i : ℕ) (e : ArpEntry) where
  pub set_at-all : (P : ArpEntry → Type 0) (j : ℕ) → P e → (j ≢ i → P (t j)) → P (set_at t i e j)
  set_at-all P j here there = elim (Bool-cases (j == i)) [
    | inl y ↦ rw y here
    | inr y ↦ rw y (there (ground arith))
  ]

  same_or_not : (j : ℕ) → ((j ≡ i) × (set_at t i e j ≡ e)) ⊎ ((j ≢ i) × (set_at t i e j ≡ t j))
  same_or_not j = elim (Bool-cases (j == i)) [
    | inl y ↦ inl (ground arith, rw y refl)
    | inr y ↦ inr (ground arith, rw y refl)
  ]

  pub set_at-Inv : Inv t → Sound e → (e.state ≢ 0 → Alone t e.ipaddr i) → Inv (set_at t i e)
  set_at-Inv inv s alone = record {
    sound = λ j lt. set_at-all Sound j s (λ ne. inv.sound j lt);
    unique = λ j k lj lk uj uk same. elim (same_or_not j) [
      | inl a ↦ elim (same_or_not k) [
        | inl b ↦ a.0 ∙ sym b.0
        | inr b ↦ absurd (
            alone (λ z. uj (ap state_of a.1 ∙ z)) k lk b.0 (λ z. uk (ap state_of b.1 ∙ z))
              (sym (ap ipaddr_of b.1) ∙ sym same ∙ ap ipaddr_of a.1))
      ]
      | inr a ↦ elim (same_or_not k) [
        | inl b ↦ absurd (
            alone (λ z. uk (ap state_of b.1 ∙ z)) j lj a.0 (λ z. uj (ap state_of a.1 ∙ z))
              (sym (ap ipaddr_of a.1) ∙ same ∙ ap ipaddr_of b.1))
        | inr b ↦
            inv.unique j k lj lk (λ z. uj (ap state_of a.1 ∙ z)) (λ z. uk (ap state_of b.1 ∙ z))
              (sym (ap ipaddr_of a.1) ∙ same ∙ ap ipaddr_of b.1)
      ]
    ];
  }
