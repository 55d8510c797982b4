-- ===== src/Sys/Passes.antt =====
-- cwrap/sys_arch.c: what each call on a mailbox does, by cases on the queue.
use my_lwip_poc.Base.{
  ℕ, ◌<◌, ◌≡◌, ◌≢◌, ◌⊎◌, inl, inr, refl, Bool, true, false, List, [], ◌∷◌, ◌++◌, not, ◌&&◌,
  if◌then◌else◌, leb, ◌==◌, arith, length, ne→==, ==_of_eq, leb→le, leb→lt, Bool-cases,
}
use my_lwip_poc.Sys.Mbox.{
  Mbox, Pass, returns, waits, Fetched, message, timed_out, err_ok, err_mem, mbox_take,
  sys_mbox_post, sys_mbox_trypost, sys_arch_mbox_fetch,
}
use my_lwip_poc.Sys.Queue.{Entry, Fresh, Linked, Queue, mbox_append-Queue, mbox_take-Queue}

-- An empty mailbox, with no time left or with time left.
abbrev pub give_up : Mbox → Bool → Pass (Fetched × Mbox)
give_up m true = returns (timed_out, m)
give_up m false = waits

-- What malloc promises of the address it gives: it is not NULL, and no linked node has it.
abbrev pub Unlinked : Mbox → ℕ → Type 0
Unlinked m n = (n ≢ 0) × ((xs : List Entry) → Linked m.nodes m.head xs → Fresh n xs)

-- On a mailbox that holds a queue, when malloc gives a node, which is not NULL and not linked: a post
-- waits exactly while the mailbox is full, and a trypost then returns ERR_MEM; else either puts its
-- message at the end of the queue.
pub post_cases :
    (m : Mbox) (n msg : ℕ) (xs : List Entry)
    → Queue m xs
    → Unlinked m n
    → ((m.capacity ≡ length xs)
        × (sys_mbox_post m n msg ≡ waits)
        × (sys_mbox_trypost m n msg ≡ returns (err_mem, m)))
      ⊎ ((length xs < m.capacity)
          × ((m' : Mbox) × (sys_mbox_post m n msg ≡ returns m')
              × (sys_mbox_trypost m n msg ≡ returns (err_ok, m'))
              × Queue m' (xs ++ (n, msg) ∷ [])))
unfolding sys_mbox_post sys_mbox_trypost
post_cases m n msg xs q f = elim (Bool-cases (leb m.capacity m.count)) [
  | inl t ↦
      inl (omega (arith, q.counted, q.bounded, leb→le m.capacity m.count t), rw t refl, rw t refl)
  | inr t ↦
      let lt = leb→lt m.capacity m.count t in
      let (m', run, q', c) = mbox_append-Queue m n msg xs q f.0 (f.1 xs q.linked) lt in
      inr (omega (arith, q.counted, lt), (m', rw t run, rw (t, run) refl, q'))
]

-- A fetch with no time limit waits exactly while the mailbox is empty. With a limit, it comes back
-- without a message when the mailbox is empty and the time is over. Else the first message comes out.
pub fetch_cases :
    (m : Mbox) (timeout : ℕ) (expired : Bool) (xs : List Entry)
    → Queue m xs
    → ((xs ≡ [])
        × (m.count ≡ 0)
        × (sys_arch_mbox_fetch m timeout expired ≡ give_up m (not (timeout == 0) && expired)))
      ⊎ ((x : Entry) × (ys : List Entry) × (xs ≡ x ∷ ys)
          × ((m' : Mbox) × (sys_arch_mbox_fetch m timeout expired ≡ returns (message x.1, m'))
              × Queue m' ys))
unfolding sys_arch_mbox_fetch
fetch_cases m timeout expired [] q = inl (
  refl,
  q.counted,
  go (m.count == 0) m.valid (timeout == 0) expired (mbox_take m) (==_of_eq m.count 0 q.counted)
      q.open_,
)
  where
    go :
        (c v t e : Bool) (r : Pass (Fetched × Mbox))
        → c ≡ true
        → v ≡ true
        → (if t
            then if c && v then waits else r
            else if c && v && not e
            then waits
            else if c
            then returns (timed_out, m)
            else r)
          ≡ give_up m (not t && e)
    go c v true e r h k = rw (h, k) refl
    go c v false true r h k = rw (h, k) refl
    go c v false false r h k = rw (h, k) refl
fetch_cases m timeout expired (x ∷ ys) q =
    let (m', run, q', c) = mbox_take-Queue m x ys q in
    inr (
      x,
      ys,
      refl,
      (
        m',
        rw (ne→== m.count 0 (omega (arith, q.counted)), run)
            (go (timeout == 0) (returns (message x.1, m'))),
        q',
      ),
    )
  where
    go : (t : Bool) (r : Pass (Fetched × Mbox)) → (if t then r else r) ≡ r
    go true r = refl
    go false r = refl
