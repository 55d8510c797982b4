-- ===== src/Sys/Queue.antt =====
-- The mailbox of cwrap/sys_arch.c holds a queue: its linked nodes are a list of messages.
use my_lwip_poc.Base.{
  ℕ, ◌+◌, ◌-◌, ◌≤◌, ◌<◌, ◌≡◌, ◌≢◌, refl, true, List, [], ◌∷◌, ◌++◌, if◌then◌else◌, ◌==◌, arith, ap,
  sym, ◌∙◌, length, length-append, ne→==, ==_refl, ==_of_eq, map, subst,
}
use my_lwip_poc.Sys.Mbox.{
  Node, node, Store, Mbox, write_node, mbox_append, mbox_take, returns, message,
}

-- An address and the message of its node.
abbrev pub Entry : Type 0
Entry = ℕ × ℕ

abbrev pub Fresh : ℕ → List Entry → Type 0
Fresh a [] = Unit
Fresh a (x ∷ xs) = (x.0 ≢ a) × Fresh a xs

abbrev pub last_address : ℕ → List Entry → ℕ
last_address d [] = d
last_address d (x ∷ xs) = last_address x.0 xs

-- From `h` the nodes of `xs` are linked in this order, and the last one's next is NULL.
abbrev pub Linked : Store → ℕ → List Entry → Type 0
Linked s h [] = h ≡ 0
Linked s h (x ∷ xs) =
    (h ≡ x.0) × (x.0 ≢ 0) × ((s x.0).msg ≡ x.1) × Fresh x.0 xs × Linked s (s x.0).next xs

pub record Queue (m : Mbox) (xs : List Entry) : Type 0 where
  pub linked : Linked m.nodes m.head xs
  pub last : m.tail ≡ last_address 0 xs
  pub counted : m.count ≡ length xs
  pub bounded : m.count ≤ m.capacity
  pub open_ : m.valid ≡ true

abbrev pub messages : List Entry → List ℕ
messages xs = map (λ (x : Entry). x.1) xs

Linked-frame :
    (s : Store) (h a : ℕ) (v : Node) (xs : List Entry)
    → Fresh a xs
    → Linked s h xs
    → Linked (write_node s a v) h xs
Linked-frame s h a v [] f l = l
Linked-frame s h a v (x ∷ xs) f l =
    rw (ne→== x.0 a f.0) (l.0, l.1, l.2, l.3, Linked-frame s (s x.0).next a v xs f.1 l.4)

Fresh-snoc : (a n msg : ℕ) (xs : List Entry) → Fresh a xs → n ≢ a → Fresh a (xs ++ (n, msg) ∷ [])
Fresh-snoc a n msg [] f ne = (ne, tt)
Fresh-snoc a n msg (x ∷ xs) f ne = (f.0, Fresh-snoc a n msg xs f.1 ne)

Fresh-last : (a : ℕ) (x : Entry) (xs : List Entry) → Fresh a (x ∷ xs) → last_address x.0 xs ≢ a
Fresh-last a x [] f = f.0
Fresh-last a x (y ∷ ys) f = Fresh-last a y ys f.1

-- The node `n` is linked in behind the last one.
abbrev grown : Store → (last n msg : ℕ) → Store
grown s last n msg =
    let fresh = write_node s n (node 0 msg) in write_node fresh last (node n (fresh last).msg)

Linked-snoc :
    (s : Store) (h n msg : ℕ) (x : Entry) (xs : List Entry)
    → n ≢ 0
    → Fresh n (x ∷ xs)
    → Linked s h (x ∷ xs)
    → Linked (grown s (last_address x.0 xs) n msg) h (x ∷ xs ++ (n, msg) ∷ [])
Linked-snoc s h n msg x [] nz f l =
    rw (==_refl x.0, ne→== x.0 n f.0, ne→== n x.0 (λ e. f.0 (sym e)), ==_refl n)
      (l.0, l.1, l.2, ((λ e. f.0 (sym e)), tt), (refl, nz, refl, tt, refl))
Linked-snoc s h n msg x (y ∷ ys) nz f l =
    rw (ne→== x.0 (last_address y.0 ys) (λ e. Fresh-last x.0 y ys l.3 (sym e)), ne→== x.0 n f.0)
      (
        l.0,
        l.1,
        l.2,
        Fresh-snoc x.0 n msg (y ∷ ys) l.3 (λ e. f.0 (sym e)),
        Linked-snoc s (s x.0).next n msg y ys nz f.1 l.4,
      )

last-nonzero :
    (s : Store) (h : ℕ) (x : Entry) (xs : List Entry)
    → Linked s h (x ∷ xs)
    → last_address x.0 xs ≢ 0
last-nonzero s h x [] l = l.1
last-nonzero s h x (y ∷ ys) l = last-nonzero s (s x.0).next y ys l.4

last-snoc : (d n msg : ℕ) (xs : List Entry) → last_address d (xs ++ (n, msg) ∷ []) ≡ n
last-snoc d n msg [] = refl
last-snoc d n msg (x ∷ xs) = last-snoc x.0 n msg xs

abbrev first_in : Mbox → (n msg : ℕ) → Mbox
first_in m n msg = record m {
  nodes = write_node m.nodes n (node 0 msg);
  head = n;
  tail = n;
  count = m.count + 1;
}

abbrev behind : Mbox → (last n msg : ℕ) → Mbox
behind m last n msg = record m { nodes = grown m.nodes last n msg; tail = n; count = m.count + 1 }

append_first :
    (m : Mbox) (n msg : ℕ) → n ≢ 0 → m.tail ≡ 0 → mbox_append m n msg ≡ returns (first_in m n msg)
unfolding mbox_append
append_first m n msg nz e = rw (ne→== n 0 nz, ==_of_eq m.tail 0 e) refl

append_behind :
    (m : Mbox) (last n msg : ℕ)
    → n ≢ 0
    → m.tail ≡ last
    → last ≢ 0
    → mbox_append m n msg ≡ returns (behind m last n msg)
unfolding mbox_append
append_behind m last n msg nz e ne = rw (ne→== n 0 nz, e, ne→== last 0 ne) refl

-- Where there is room, a node that malloc has just given goes to the end of the queue.
pub mbox_append-Queue :
    (m : Mbox) (n msg : ℕ) (xs : List Entry)
    → Queue m xs
    → n ≢ 0
    → Fresh n xs
    → m.count < m.capacity
    → (m' : Mbox) × (mbox_append m n msg ≡ returns m')
      × Queue m' (xs ++ (n, msg) ∷ [])
      × (m'.capacity ≡ m.capacity)
mbox_append-Queue m n msg [] q nz f lt = (
  first_in m n msg,
  append_first m n msg nz q.last,
  record {
    linked = (refl, nz, rw (==_refl n) refl, tt, rw (==_refl n) refl);
    last = refl;
    counted = omega (arith, q.counted);
    bounded = omega arith;
    open_ = q.open_;
  },
  refl,
)
mbox_append-Queue m n msg (x ∷ xs) q nz f lt = (
  behind m (last_address x.0 xs) n msg,
  append_behind m (last_address x.0 xs) n msg nz q.last (last-nonzero m.nodes m.head x xs q.linked),
  record {
    linked = Linked-snoc m.nodes m.head n msg x xs nz f q.linked;
    last = sym (last-snoc x.0 n msg xs);
    counted = omega (arith, q.counted, length-append {0} xs ((n, msg) ∷ []));
    bounded = omega arith;
    open_ = q.open_;
  },
  refl,
)

abbrev rest : Mbox → Mbox
rest m = record m {
  head = (m.nodes m.head).next;
  tail = if (m.nodes m.head).next == 0 then 0 else m.tail;
  count = m.count - 1;
}

new_last :
    (s : Store) (h last : ℕ) (x : Entry) (xs : List Entry)
    → Linked s h xs
    → last ≡ last_address x.0 xs
    → (if h == 0 then 0 else last) ≡ last_address 0 xs
new_last s h last x [] l e = rw (==_of_eq h 0 l) refl
new_last s h last x (y ∷ ys) l e = rw (ne→== h 0 (λ z. l.1 (sym l.0 ∙ z))) e

-- A queue that holds a message gives out its first one.
pub mbox_take-Queue :
    (m : Mbox) (x : Entry) (xs : List Entry)
    → Queue m (x ∷ xs)
    → (m' : Mbox) × (mbox_take m ≡ returns (message x.1, m'))
      × Queue m' xs
      × (m'.capacity ≡ m.capacity)
mbox_take-Queue m x xs q =
    let at : Linked m.nodes (m.nodes m.head).next xs =
      subst (λ a. Linked m.nodes (m.nodes a).next xs) (sym q.linked.0) q.linked.4 in
    (
      rest m,
      taken m x.1 (λ e. q.linked.1 (sym q.linked.0 ∙ e))
          (ap (λ a. (m.nodes a).msg) q.linked.0 ∙ q.linked.2),
      record {
        linked = at;
        last = new_last m.nodes _ m.tail x xs at q.last;
        counted = omega (arith, q.counted);
        bounded = omega (arith, q.bounded);
        open_ = q.open_;
      },
      refl,
    )
  where
    taken :
        (m : Mbox) (msg : ℕ)
        → m.head ≢ 0
        → (m.nodes m.head).msg ≡ msg
        → mbox_take m ≡ returns (message msg, rest m)
    taken m msg ne e = unfold mbox_take in (rw (ne→== m.head 0 ne, e) refl)
