-- ===== src/Pbuf/Header.antt =====
-- lwip-1.4.1/src/core/pbuf.c: pbuf_header, which hides or reveals bytes at the front of a pbuf.
use my_lwip_poc.Base.{
  ℕ, zero, suc, ◌+◌, ◌-◌, ◌≤◌, ◌<◌, ◌≡◌, ◌≢◌, refl, Bool, true, false, ◌&&◌, List, [], ◌∷◌, ◌++◌,
  Option, some, none, arith, ap, sym, ◌∙◌, if◌then◌else◌, ltb, leb, ◌==◌, take, drop, length, ne→==,
  le→ltb, length-take, length-drop, length-append, take-append-drop, le→leb, take-append_le,
  take-length,
}
use my_lwip_poc.Base.Word.{u16_mod, add16, sub16}
use my_lwip_poc.Pbuf.{Pbuf, PbufType, pbuf_ram, pbuf_rom, pbuf_ref, pbuf_pool}
use my_lwip_poc.Pbuf.Bytes.{segment, bytes, Valid, length-segment, drop-append_le, drop-take}

-- The payload pointer may move in front only in a pbuf with a buffer of its own.
abbrev pub has_buffer : PbufType → Bool
has_buffer pbuf_ram = true
has_buffer pbuf_rom = false
has_buffer pbuf_ref = false
has_buffer pbuf_pool = true

-- The items, turned round, in front of others.
abbrev pub turn : List ℕ → List ℕ → List ℕ
turn [] ys = ys
turn (x ∷ xs) ys = turn xs (x ∷ ys)

-- The payload pointer goes forward by `n`.
abbrev pub hide : Pbuf → ℕ → Pbuf
hide p n = record p {
  room = turn (take n p.payload) p.room;
  payload = drop n p.payload;
  len = sub16 p.len n;
  tot_len = sub16 p.tot_len n;
}

-- The payload pointer goes back by `n`.
abbrev pub reveal : Pbuf → ℕ → Pbuf
reveal p n = record p {
  room = drop n p.room;
  payload = turn (take n p.room) p.payload;
  len = add16 p.len n;
  tot_len = add16 p.tot_len n;
}

-- The increment, an s16_t, is a sign and a magnitude of at most 32767, or 32768 when it is negative. The result is what is returned, and the pbuf; `none` is the
-- abort of LWIP_ERROR.
unfoldable pub pbuf_header : Pbuf → (negative : Bool) → (magnitude : ℕ) → Option (ℕ × Pbuf)
pbuf_header p negative magnitude =
    if magnitude == 0
    then some (0, p)
    else if negative && ltb p.len magnitude
    then none
    else if negative
    then some (0, hide p magnitude)
    else if has_buffer p.kind && leb magnitude (length p.room)
    then some (0, reveal p magnitude)
    else some (1, p)

turn-append : (xs ys zs : List ℕ) → turn xs (ys ++ zs) ≡ turn xs ys ++ zs
turn-append [] ys zs = refl
turn-append (x ∷ xs) ys zs = turn-append xs (x ∷ ys) zs

turn-turn : (xs ys zs : List ℕ) → turn (turn xs ys) zs ≡ turn ys (xs ++ zs)
turn-turn [] ys zs = refl
turn-turn (x ∷ xs) ys zs = turn-turn xs (x ∷ ys) zs

length-turn : (xs ys : List ℕ) → length (turn xs ys) ≡ length xs + length ys
length-turn [] ys = omega arith
length-turn (x ∷ xs) ys = omega (arith, length-turn xs (x ∷ ys))

drop_all : (n : ℕ) (xs : List ℕ) → length xs ≤ n → drop n xs ≡ []
drop_all zero [] h = refl
drop_all zero (x ∷ xs) h = absurd (omega arith)
drop_all (suc n) [] h = refl
drop_all (suc n) (x ∷ xs) h = drop_all n xs (omega arith)

-- Going forward and back again finds the same bytes before and behind.
take-turn : (n : ℕ) (xs ys : List ℕ) → length xs ≡ n → take n (turn xs ys) ≡ turn xs []
take-turn n xs ys e =
    let l = length-turn xs [] in
    ap (take n) (turn-append xs [] ys)
    ∙ take-append_le n (turn xs []) ys (omega (arith, l))
    ∙ ap (λ k. take k (turn xs [])) (omega (arith, e, l))
    ∙ take-length (turn xs [])

drop-turn : (n : ℕ) (xs ys : List ℕ) → length xs ≡ n → drop n (turn xs ys) ≡ ys
drop-turn n xs ys e =
    let l = length-turn xs [] in
    ap (drop n) (turn-append xs [] ys)
    ∙ drop-append_le n (turn xs []) ys (omega (arith, e, l))
    ∙ ap (λ zs. zs ++ ys) (drop_all n (turn xs []) (omega (arith, e, l)))

reveal-hide :
    (p : Pbuf) (n : ℕ)
    → n ≤ p.len
    → p.len ≤ length p.payload
    → p.len < u16_mod
    → n ≤ p.tot_len
    → p.tot_len < u16_mod
    → reveal (hide p n) n ≡ p
reveal-hide p n le room w le' w' =
    let e : length (take n p.payload) ≡ n = omega (arith, length-take n p.payload) in
    let at_room = drop-turn n (take n p.payload) p.room e in
    let at_payload : turn (take n (turn (take n p.payload) p.room)) (drop n p.payload) ≡ p.payload =
      ap (λ zs. turn zs (drop n p.payload)) (take-turn n (take n p.payload) p.room e)
      ∙ turn-turn (take n p.payload) [] (drop n p.payload)
      ∙ take-append-drop n p.payload in
    let at_len : add16 (sub16 p.len n) n ≡ p.len = omega arith in
    let at_tot : add16 (sub16 p.tot_len n) n ≡ p.tot_len = omega arith in
    λ i. record {
      room = at_room i;
      payload = at_payload i;
      tot_len = at_tot i;
      len = at_len i;
      kind = p.kind;
    }

hide_run : (p : Pbuf) (n : ℕ) → n ≢ 0 → n ≤ p.len → pbuf_header p true n ≡ some (0, hide p n)
unfolding pbuf_header
hide_run p n nz le = rw (ne→== n 0 nz, le→ltb p.len n le) refl

reveal_run :
    (p : Pbuf) (n : ℕ)
    → n ≢ 0
    → has_buffer p.kind ≡ true
    → n ≤ length p.room
    → pbuf_header p false n ≡ some (0, reveal p n)
unfolding pbuf_header
reveal_run p n nz b le = rw (ne→== n 0 nz, b, le→leb n (length p.room) le) refl

-- Hiding the first bytes of a packet succeeds when the first pbuf has so many; the packet is then
-- valid and has the other bytes.
pub pbuf_header-hide :
    (p : Pbuf) (ps : List Pbuf) (n : ℕ)
    → Valid (p ∷ ps)
    → n ≢ 0
    → n ≤ p.len
    → (q : Pbuf) × (pbuf_header p true n ≡ some (0, q))
      × Valid (q ∷ ps)
      × (bytes (q ∷ ps) ≡ drop n (bytes (p ∷ ps)))
pbuf_header-hide p ps n v nz le =
    let seg = length-segment p v.0 in
    let both = length-append (segment p) (bytes ps) in
    let len : sub16 p.len n ≡ p.len - n = omega (arith, seg, both, v.1, v.2) in
    let tot : sub16 p.tot_len n ≡ p.tot_len - n = omega (arith, seg, both, v.1, v.2) in
    let front : segment (hide p n) ≡ drop n (segment p) =
      ap (λ k. take k (drop n p.payload)) len ∙ sym (drop-take n p.len p.payload) in
    let same : bytes (hide p n ∷ ps) ≡ drop n (bytes (p ∷ ps)) =
      ap (λ zs. zs ++ bytes ps) front
      ∙ sym (drop-append_le n (segment p) (bytes ps) (omega (arith, seg))) in
    (
      hide p n,
      hide_run p n nz le,
      (
        omega (arith, len, length-drop n p.payload, v.0),
        tot ∙ omega (arith, v.1, ap length same, length-drop n (bytes (p ∷ ps))),
        omega (arith, tot, v.2),
        v.3,
      ),
      same,
    )

-- In a pbuf with a buffer of its own, revealing as many bytes as have been hidden succeeds and brings
-- back the pbuf as it was.
pub pbuf_header-restores :
    (p : Pbuf) (ps : List Pbuf) (n : ℕ)
    → Valid (p ∷ ps)
    → n ≢ 0
    → n ≤ p.len
    → has_buffer p.kind ≡ true
    → (q : Pbuf) × (pbuf_header p true n ≡ some (0, q)) × (pbuf_header q false n ≡ some (0, p))
pbuf_header-restores p ps n v nz le b =
    let seg = length-segment p v.0 in
    let both = length-append (segment p) (bytes ps) in
    (
      hide p n,
      hide_run p n nz le,
      reveal_run (hide p n) n nz b
            (omega (arith, length-turn (take n p.payload) p.room, length-take n p.payload, v.0))
          ∙ ap (λ k. some (0, k))
              (reveal-hide p n le v.0 (omega (arith, seg, both, v.1, v.2))
                (omega (arith, seg, both, v.1)) v.2),
    )
