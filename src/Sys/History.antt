-- ===== src/Sys/History.antt =====
-- The calls on one mailbox of cwrap/sys_arch.c, in the order in which they hold its lock.
use my_lwip_poc.Base.{
  ℕ, ◌≡◌, inl, inr, refl, Bool, true, false, List, [], ◌∷◌, ◌++◌, not, ◌&&◌, if◌then◌else◌, ◌==◌,
  arith, ap, sym, ◌∙◌, subst, some, append_assoc,
}
use my_lwip_poc.Sys.Mbox.{
  Store, Mbox, returns, waits, Fetched, message, timed_out, MboxErr, err_ok, err_mem, err_arg,
  sys_mbox_new, sys_mbox_post, sys_mbox_trypost, sys_arch_mbox_fetch,
}
use my_lwip_poc.Sys.Queue.{Entry, Queue, messages}
use my_lwip_poc.Sys.Passes.{Unlinked, give_up, post_cases, fetch_cases}

-- What a call adds to the history.
abbrev pub accept : MboxErr → ℕ → List ℕ → List ℕ
accept err_ok msg ps = ps ++ msg ∷ []
accept err_mem msg ps = ps
accept err_arg msg ps = ps

abbrev pub receive : Fetched → List ℕ → List ℕ
receive timed_out fs = fs
receive (message v) fs = fs ++ v ∷ []

-- The messages that have been posted and fetched, in the order of the calls.
pub data Run : Mbox → List ℕ → List ℕ → Type 0 where
  create :
      {m : Mbox} (size : ℕ) (positive : Bool) (s : Store)
      → sys_mbox_new size positive true s ≡ (err_ok, some m)
      → Run m [] []
  post :
      {m m' : Mbox} {ps fs : List ℕ} (n msg : ℕ)
      → Run m ps fs
      → Unlinked m n
      → sys_mbox_post m n msg ≡ returns m'
      → Run m' (ps ++ msg ∷ []) fs
  trypost :
      {m m' : Mbox} {ps fs : List ℕ} (n msg : ℕ) (e : MboxErr)
      → Run m ps fs
      → Unlinked m n
      → sys_mbox_trypost m n msg ≡ returns (e, m')
      → Run m' (accept e msg ps) fs
  fetch :
      {m m' : Mbox} {ps fs : List ℕ} (timeout : ℕ) (expired : Bool) (r : Fetched)
      → Run m ps fs
      → sys_arch_mbox_fetch m timeout expired ≡ returns (r, m')
      → Run m' ps (receive r fs)

-- What the history and the mailbox have in common.
abbrev pub Fifo : Mbox → List ℕ → List ℕ → Type 0
Fifo m ps fs = (xs : List Entry) × Queue m xs × (ps ≡ fs ++ messages xs)

returns_injective : {A : Type 0} {a b : A} → returns a ≡ returns b → a ≡ b
returns_injective e = cc

returns≢waits : {A B : Type 0} {a : A} → returns a ≡ waits → B
returns≢waits e = cc

err_mem≢err_ok : {m m' : Mbox} {B : Type 0} → ◌≡◌ {A = MboxErr × Mbox} (err_mem, m) (err_ok, m') → B
err_mem≢err_ok e = cc

messages-snoc :
    (xs : List Entry) (n msg : ℕ) → messages (xs ++ (n, msg) ∷ []) ≡ messages xs ++ msg ∷ []
messages-snoc [] n msg = refl
messages-snoc (x ∷ xs) n msg = ap (◌∷◌ x.1) (messages-snoc xs n msg)

new_Fifo :
    (m : Mbox) (size : ℕ) (positive : Bool) (s : Store)
    → sys_mbox_new size positive true s ≡ (err_ok, some m)
    → Fifo m [] []
unfolding sys_mbox_new
new_Fifo m size positive s e =
    let made : Mbox = record {
      capacity = if positive then size else 32;
      count = 0;
      head = 0;
      tail = 0;
      valid = true;
      nodes = s;
    } in
    let same : made ≡ m = cc in
    subst (λ k. Fifo k [] []) same
      (
        [],
        record { linked = refl; last = refl; counted = refl; bounded = omega arith; open_ = refl },
        refl,
      )

snoc_Fifo :
    (m' : Mbox) (n msg : ℕ) (ps fs : List ℕ) (xs : List Entry)
    → Queue m' (xs ++ (n, msg) ∷ [])
    → ps ≡ fs ++ messages xs
    → Fifo m' (ps ++ msg ∷ []) fs
snoc_Fifo m' n msg ps fs xs q e = (
  xs ++ (n, msg) ∷ [],
  q,
  rw (e, messages-snoc xs n msg) (append_assoc fs (messages xs) (msg ∷ [])),
)

post_Fifo :
    (m m' : Mbox) (ps fs : List ℕ) (n msg : ℕ)
    → Fifo m ps fs
    → Unlinked m n
    → sys_mbox_post m n msg ≡ returns m'
    → Fifo m' (ps ++ msg ∷ []) fs
post_Fifo m m' ps fs n msg (xs, q, e) f run = elim (post_cases m n msg xs q f) [
  | inl (full, w, t) ↦ returns≢waits (sym run ∙ w)
  | inr (room, (k, r, t, q')) ↦
      let same : k ≡ m' = returns_injective (sym r ∙ run) in
      subst (λ j. Fifo j (ps ++ msg ∷ []) fs) same (snoc_Fifo k n msg ps fs xs q' e)
]

trypost_Fifo :
    (m m' : Mbox) (ps fs : List ℕ) (n msg : ℕ) (c : MboxErr)
    → Fifo m ps fs
    → Unlinked m n
    → sys_mbox_trypost m n msg ≡ returns (c, m')
    → Fifo m' (accept c msg ps) fs
trypost_Fifo m m' ps fs n msg c (xs, q, e) f run = elim (post_cases m n msg xs q f) [
  | inl (full, w, t) ↦
      let same : ◌≡◌ {A = MboxErr × Mbox} (err_mem, m) (c, m') = returns_injective (sym t ∙ run) in
      subst (λ (j : MboxErr × Mbox). Fifo j.1 (accept j.0 msg ps) fs) same (xs, q, e)
  | inr (room, (k, r, t, q')) ↦
      let same : ◌≡◌ {A = MboxErr × Mbox} (err_ok, k) (c, m') = returns_injective (sym t ∙ run) in
      subst (λ (j : MboxErr × Mbox). Fifo j.1 (accept j.0 msg ps) fs) same
        (snoc_Fifo k n msg ps fs xs q' e)
]

unlimited :
    (m : Mbox) (b : Bool) (r : Fetched) (m' : Mbox)
    → give_up m b ≡ returns (r, m')
    → ◌≡◌ {A = Fetched × Mbox} (timed_out, m) (r, m')
unlimited m true r m' e = returns_injective e
unlimited m false r m' e = returns≢waits (sym e)

fetch_Fifo :
    (m m' : Mbox) (ps fs : List ℕ) (timeout : ℕ) (expired : Bool) (r : Fetched)
    → Fifo m ps fs
    → sys_arch_mbox_fetch m timeout expired ≡ returns (r, m')
    → Fifo m' ps (receive r fs)
fetch_Fifo m m' ps fs timeout expired r (xs, q, e) run = elim (fetch_cases m timeout expired xs q) [
  | inl (none_, count, w) ↦
      let same = unlimited m (not (timeout == 0) && expired) r m' (sym w ∙ run) in
      subst (λ (j : Fetched × Mbox). Fifo j.1 ps (receive j.0 fs)) same (xs, q, e)
  | inr (x, ys, d, (k, w, q')) ↦
      let same : ◌≡◌ {A = Fetched × Mbox} (message x.1, k) (r, m') =
        returns_injective (sym w ∙ run) in
      subst (λ (j : Fetched × Mbox). Fifo j.1 ps (receive j.0 fs)) same
        (ys, q', e ∙ ap (λ k. fs ++ messages k) d ∙ sym (append_assoc fs (x.1 ∷ []) (messages ys)))
]

-- After any calls on a mailbox, in any order and by any threads, the messages posted are those
-- fetched, in the same order, followed by those that its linked nodes hold; the count is their
-- number, and it does not exceed the capacity.
pub Run-Fifo : {m : Mbox} {ps fs : List ℕ} → Run m ps fs → Fifo m ps fs
Run-Fifo (create size positive s e) = new_Fifo _ size positive s e
Run-Fifo (post n msg r f e) = post_Fifo _ _ _ _ n msg (Run-Fifo r) f e
Run-Fifo (trypost n msg c r f e) = trypost_Fifo _ _ _ _ n msg c (Run-Fifo r) f e
Run-Fifo (fetch timeout expired v r e) = fetch_Fifo _ _ _ _ timeout expired v (Run-Fifo r) e
