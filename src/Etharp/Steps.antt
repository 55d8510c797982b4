-- ===== src/Etharp/Steps.antt =====
-- netif/etharp.c: the operations keep the table in order.
use my_lwip_poc.Base.{
  ℕ, ◌<◌, ◌≡◌, refl, Option, none, some, inl, inr, ◌==◌, arith, Bool-cases, sym, ◌∙◌, subst,
  ==_refl, ne→==,
}
use my_lwip_poc.Base.Outcome.{Outcome, ok, ◌>>=◌}
use my_lwip_poc.Memp.{set_at}
use my_lwip_poc.Etharp.{ArpEntry, Arp, etharp_free_entry, etharp_find_entry}
use my_lwip_poc.Etharp.Find.{Sound, Inv, Alone, set_at-Inv}
use my_lwip_poc.Etharp.Choice.{
  Choice, present, unused, recycled, refused, Absent, entered, etharp_find_entry-Choice,
}

-- The entries are in order, and the cached index is one of the table.
pub record InOrder (s : Arp) : Type 0 where
  pub inv : Inv s.table
  pub cached : s.cached < 10

-- A call that returns, with the table in order.
pub data Keeps {A : Type 0} : Outcome (A × Arp) → Type 0 where
  keeps : (a : A) (s : Arp) → InOrder s → Keeps (ok (a, s))

-- The entry that etharp_find_entry gives.
pub record Ready (i : ℕ) (s : Arp) : Type 0 where
  pub within : i < 10
  pub order : InOrder s
  pub alone : Alone s.table (s.table i).ipaddr i
  pub fresh : (s.table i).state ≡ 0 → (s.table i).ctime ≡ 0

pub free-InOrder : (i : ℕ) (s : Arp) → InOrder s → InOrder (etharp_free_entry i s)
unfolding etharp_free_entry
free-InOrder i s o = record {
  inv =
      set_at-Inv s.table i (record (s.table i) { q = 0; state = 0 }) o.inv
        (record {
          known = omega arith;
          waiting = λ x. refl;
          old = λ x. absurd (x refl);
          young = λ x. absurd (omega (arith, x));
        })
        (λ x. absurd (x refl));
  cached = o.cached;
}

pub entered-Ready :
    (ipaddr i : ℕ) (s : Arp)
    → i < 10
    → InOrder s
    → (s.table i).state ≡ 0
    → Absent s.table ipaddr
    → Ready i (entered ipaddr i s)
entered-Ready ipaddr i s lt o z absent =
    let e : ArpEntry = record (s.table i) { ipaddr = ipaddr; ctime = 0 } in
    record {
      within = lt;
      order = record {
        inv =
            set_at-Inv s.table i e o.inv
              (record {
                known = omega (arith, z);
                waiting = (o.inv.sound i lt).waiting;
                old = λ x. absurd (x z);
                young = λ x. absurd (omega (arith, x, z));
              })
              (λ x. absurd (x z));
        cached = o.cached;
      };
      alone = λ j lj ne. rw (==_refl i) (rw (ne→== j i ne) (absent j lj));
      fresh = λ x. rw (==_refl i) refl;
    }

pub free-Absent :
    (ipaddr i : ℕ) (s : Arp) → Absent s.table ipaddr → Absent (etharp_free_entry i s).table ipaddr
unfolding etharp_free_entry
free-Absent ipaddr i s absent j lj = elim (Bool-cases (j == i)) [
  | inl e ↦ rw e (λ x. absurd (x refl))
  | inr e ↦ rw e (absent j lj)
]

pub freed_state : (i : ℕ) (s : Arp) → ((etharp_free_entry i s).table i).state ≡ 0
unfolding etharp_free_entry
freed_state i s = rw (==_refl i) refl

-- A call that goes on with what etharp_find_entry gives.
module _ {A : Type 0} (go : Option ℕ × Arp → Outcome (A × Arp))
    (with_none : (s : Arp) → InOrder s → Keeps (go (none, s)))
    (with_entry : (i : ℕ) (s : Arp) → Ready i s → Keeps (go (some i, s))) where
  chosen :
      (ipaddr flags : ℕ) (s : Arp) (r : Outcome (Option ℕ × Arp))
      → InOrder s
      → Choice ipaddr flags s r
      → Keeps (r >>= go)
  chosen ipaddr flags s _ o (present i lt used same) = with_entry i s (record {
    within = lt;
    order = o;
    alone = λ j lj ne uj e. ne (o.inv.unique j i lj lt uj used e);
    fresh = λ x. absurd (used x);
  })
  chosen ipaddr flags s _ o (unused i lt z absent f) =
      with_entry i (entered ipaddr i s) (entered-Ready ipaddr i s lt o z absent)
  chosen ipaddr flags s _ o (recycled i lt absent full f h v) =
      with_entry i (entered ipaddr i (etharp_free_entry i s)) (
        entered-Ready ipaddr i (etharp_free_entry i s) lt (free-InOrder i s o) (freed_state i s)
          (free-Absent ipaddr i s absent))
  chosen ipaddr flags s _ o (refused absent why) = with_none s o

  pub find-Keeps :
      (ipaddr flags : ℕ) (s : Arp) → InOrder s → Keeps (etharp_find_entry ipaddr flags s >>= go)
  find-Keeps ipaddr flags s o =
      chosen ipaddr flags s (etharp_find_entry ipaddr flags s) o
        (etharp_find_entry-Choice ipaddr flags s o.inv)

-- An entry in use takes the place of one that is ready.
pub put-InOrder :
    (i : ℕ) (s s' : Arp) (e : ArpEntry)
    → Ready i s
    → s'.table ≡ set_at s.table i e
    → s'.cached < 10
    → Sound e
    → e.ipaddr ≡ (s.table i).ipaddr
    → InOrder s'
put-InOrder i s s' e r now within sound same = record {
  inv =
      subst Inv (sym now) (
        set_at-Inv s.table i e r.order.inv sound (λ x j lj ne uj q. r.alone j lj ne uj (q ∙ same)));
  cached = within;
}
