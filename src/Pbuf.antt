-- ===== src/Pbuf.antt =====
-- lwip-1.4.1/src/core/pbuf.c: packet buffers. A chain is the list of its pbufs, and NULL is the empty
-- list. `payload` holds the memory from the payload pointer on; its first `len` bytes belong to the
-- packet. `room` holds the memory between the struct and the payload pointer, the last byte first. The
-- application's buffers are lists of bytes, and are not NULL. LWIP_ASSERT and LWIP_ERROR abort the
-- program.
pub mod Bytes
pub mod Header
pub mod Copy
pub mod Fill
pub mod Search
pub mod Compare
pub mod Find
pub mod Chain
pub mod Links
pub mod Cat
pub mod Release
pub mod Dechain
mod LinkTests
mod Tests
use my_lwip_poc.Base.{
  ℕ, zero, suc, ◌+◌, ◌-◌, ◌*◌, ◌/◌, Bool, true, false, not, ◌&&◌, List, [], ◌∷◌, ◌++◌, Option, none,
  some, if◌then◌else◌, ltb, leb, ◌==◌, take, drop, get_or, length,
}
use mathlib.Core.Option
use my_lwip_poc.Base.Word.{u16_mod, add16, sub16}

-- pbuf_type
pub data PbufType : Type 0 where
  pbuf_ram : PbufType
  pbuf_rom : PbufType
  pbuf_ref : PbufType
  pbuf_pool : PbufType

-- struct pbuf
pub record Pbuf : Type 0 where
  pub room : List ℕ
  pub payload : List ℕ
  pub tot_len : ℕ
  pub len : ℕ
  pub kind : PbufType

-- The loop of pbuf_copy_partial. It gives the bytes that it writes to `dataptr`, from the place
-- `left` on, and `copied_total`.
unfoldable pub copy_loop : List Pbuf → (len offset copied_total : ℕ) → List ℕ × ℕ
copy_loop [] len offset copied_total = ([], copied_total)
copy_loop (p ∷ ps) len offset copied_total =
    let room = sub16 p.len offset in
    let buf_copy_len = if ltb len room then len else room in
    let skip = copy_loop ps len (sub16 offset p.len) copied_total in
    let rest = copy_loop ps (sub16 len buf_copy_len) 0 (add16 copied_total buf_copy_len) in
    if len == 0
    then ([], copied_total)
    else if not (offset == 0) && leb p.len offset
    then skip
    else (take buf_copy_len (drop offset p.payload) ++ rest.0, rest.1)

-- The bytes written to `dataptr`, and the number that is returned; `none` is the abort of LWIP_ERROR
-- on NULL.
unfoldable pub pbuf_copy_partial : List Pbuf → (len offset : ℕ) → Option (List ℕ × ℕ)
pbuf_copy_partial [] len offset = none
pbuf_copy_partial (p ∷ ps) len offset = some (copy_loop (p ∷ ps) len offset 0)

-- The loop of pbuf_take; `none` is the abort on a chain that ends too soon.
unfoldable pub take_loop :
    List Pbuf → (dataptr : List ℕ) → (total_copy_len : ℕ) → Option (List Pbuf)
take_loop [] dataptr total_copy_len = if total_copy_len == 0 then some [] else none
take_loop (p ∷ ps) dataptr total_copy_len =
    let buf_copy_len = if ltb p.len total_copy_len then p.len else total_copy_len in
    let filled = record p { payload = take buf_copy_len dataptr ++ drop buf_copy_len p.payload } in
    let rest = take_loop ps (drop buf_copy_len dataptr) (sub16 total_copy_len buf_copy_len) in
    if total_copy_len == 0 then some (p ∷ ps) else Option.map (◌∷◌ filled) rest

-- The err_t values of pbuf_take.
pub data TakeErr : Type 0 where
  err_ok : TakeErr
  err_arg : TakeErr

-- `tot_len` of the first pbuf, 0 for NULL.
abbrev pub chain_len : List Pbuf → ℕ
chain_len [] = 0
chain_len (p ∷ ps) = p.tot_len

unfoldable pub pbuf_take : List Pbuf → List ℕ → ℕ → Option (TakeErr × List Pbuf)
pbuf_take [] dataptr len = none
pbuf_take (p ∷ ps) dataptr len =
    if ltb p.tot_len len
    then some (err_arg, p ∷ ps)
    else Option.map (λ qs. (err_ok, qs)) (take_loop (p ∷ ps) dataptr len)

-- `len` is a u8_t.
unfoldable pub pbuf_clen : List Pbuf → ℕ
pbuf_clen p = length p - length p / 256 * 256

-- The loop of pbuf_get_at.
unfoldable pub pbuf_get_at : List Pbuf → ℕ → ℕ
pbuf_get_at [] offset = 0
pbuf_get_at (q ∷ qs) offset =
    let rest = pbuf_get_at qs (sub16 offset q.len) in
    if leb q.len offset then rest else get_or q.payload offset 0
