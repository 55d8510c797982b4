-- ===== src/Sys/Mbox.antt =====
-- cwrap/sys_arch.c: mailboxes, a singly linked queue of nodes with a head and a tail pointer. A node is
-- addressed by a number, and 0 is NULL. The mutex makes each stretch between two waits one step, so a
-- function is modelled by what one pass through its lock does: it returns, it waits on its condition
-- variable, or it writes or reads through NULL. The handle that a caller gives points to a mailbox: the
-- functions return at once where it is NULL, which is left out here.
use my_lwip_poc.Base.{ℕ, ◌+◌, ◌-◌, Bool, true, false, not, ◌&&◌, if◌then◌else◌, leb, ◌==◌, Option}

-- mbox_node_t
pub record Node : Type 0 where
  pub next : ℕ
  pub msg : ℕ

abbrev pub node : ℕ → ℕ → Node
node next msg = record { next = next; msg = msg }

abbrev pub Store : Type 0
Store = ℕ → Node

-- mbox_t, with the nodes that it can reach.
pub record Mbox : Type 0 where
  pub capacity : ℕ
  pub count : ℕ
  pub head : ℕ
  pub tail : ℕ
  pub valid : Bool
  pub nodes : Store

-- One pass through the lock.
pub data Pass (A : Type 0) : Type 0 where
  returns : A → Pass A
  waits : Pass A
  null_pointer : Pass A

-- The err_t values and return values in use.
pub data MboxErr : Type 0 where
  err_ok : MboxErr
  err_mem : MboxErr
  err_arg : MboxErr

abbrev pub write_node : Store → ℕ → Node → Store
write_node s a v p = if p == a then v else s p

-- `size` is an int: a number and whether it is positive. malloc gives a mailbox, or not.
unfoldable pub sys_mbox_new : (size : ℕ) (positive malloc_ok : Bool) → Store → MboxErr × Option Mbox
sys_mbox_new size positive malloc_ok s =
    if malloc_ok
    then (
      err_ok,
      Option.some (record {
        capacity = if positive then size else 32;
        count = 0;
        head = 0;
        tail = 0;
        valid = true;
        nodes = s;
      }),
    )
    else (err_mem, Option.none)

-- The new node is linked in: the text that sys_mbox_post and sys_mbox_trypost share. `n` is the
-- address that malloc returns, whose result neither of them tests.
unfoldable pub mbox_append : Mbox → (n msg : ℕ) → Pass Mbox
mbox_append m n msg =
    let fresh = write_node m.nodes n (node 0 msg) in
    if n == 0
    then null_pointer
    else if not (m.tail == 0)
    then returns (record m {
      nodes = write_node fresh m.tail (node n (fresh m.tail).msg);
      tail = n;
      count = m.count + 1;
    })
    else returns (record m { nodes = fresh; head = n; tail = n; count = m.count + 1 })

unfoldable pub sys_mbox_post : Mbox → (n msg : ℕ) → Pass Mbox
sys_mbox_post m n msg = if leb m.capacity m.count then waits else mbox_append m n msg

abbrev pub with_ok : Pass Mbox → Pass (MboxErr × Mbox)
with_ok (returns m) = returns (err_ok, m)
with_ok waits = waits
with_ok null_pointer = null_pointer

unfoldable pub sys_mbox_trypost : Mbox → (n msg : ℕ) → Pass (MboxErr × Mbox)
sys_mbox_trypost m n msg =
    if leb m.capacity m.count then returns (err_mem, m) else with_ok (mbox_append m n msg)

-- What sys_arch_mbox_fetch hands over: SYS_ARCH_TIMEOUT and a message NULL, or 0 and a message.
pub data Fetched : Type 0 where
  timed_out : Fetched
  message : ℕ → Fetched

-- The head node is unlinked.
unfoldable pub mbox_take : Mbox → Pass (Fetched × Mbox)
mbox_take m =
    let next = (m.nodes m.head).next in
    if m.head == 0
    then null_pointer
    else returns (
      message (m.nodes m.head).msg,
      record m { head = next; tail = if next == 0 then 0 else m.tail; count = m.count - 1 },
    )

-- The POSIX branch. `expired` says whether pthread_cond_timedwait has come back with an error; for
-- timeout 0 the wait has no limit.
unfoldable pub sys_arch_mbox_fetch : Mbox → (timeout : ℕ) (expired : Bool) → Pass (Fetched × Mbox)
sys_arch_mbox_fetch m timeout expired =
    if timeout == 0
    then if m.count == 0 && m.valid then waits else mbox_take m
    else if m.count == 0 && m.valid && not expired
    then waits
    else if m.count == 0
    then returns (timed_out, m)
    else mbox_take m

-- What the lock's holder leaves before the mailbox itself is freed.
unfoldable pub sys_mbox_free : Mbox → Mbox
sys_mbox_free m = record m { valid = false; head = 0; tail = 0; count = 0 }
