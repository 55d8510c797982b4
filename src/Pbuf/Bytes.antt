-- ===== src/Pbuf/Bytes.antt =====
-- The bytes of a packet, laid end to end.
use my_lwip_poc.Base.{
  ℕ, zero, suc, ◌+◌, ◌-◌, ◌≤◌, ◌<◌, ◌≡◌, refl, List, [], ◌∷◌, ◌++◌, arith, ap, sym, ◌∙◌, take, drop,
  length, length-take, length-drop, get_or, take-nil, take-append_le, take-append_ge,
}
use my_lwip_poc.Base.Word.{u16_mod}
use my_lwip_poc.Pbuf.{Pbuf}

abbrev pub segment : Pbuf → List ℕ
segment p = take p.len p.payload

abbrev pub bytes : List Pbuf → List ℕ
bytes [] = []
bytes (p ∷ ps) = segment p ++ bytes ps

-- Every pbuf has the bytes that it says, and `tot_len` is the sum of the lengths from it on.
abbrev pub Valid : List Pbuf → Type 0
Valid [] = Unit
Valid (p ∷ ps) =
    (p.len ≤ length p.payload)
    × (p.tot_len ≡ length (bytes (p ∷ ps)))
    × (p.tot_len < u16_mod)
    × Valid ps

pub length-segment : (p : Pbuf) → p.len ≤ length p.payload → length (segment p) ≡ p.len
length-segment p h = omega (arith, length-take {0} p.len p.payload)

module _ {ℓ} {A : Type ℓ} where
  pub drop-append_le :
      (n : ℕ) (xs ys : List A) → n ≤ length xs → drop n (xs ++ ys) ≡ drop n xs ++ ys
  drop-append_le zero xs ys h = refl
  drop-append_le (suc n) [] ys h = absurd (omega arith)
  drop-append_le (suc n) (x ∷ xs) ys h = drop-append_le n xs ys (omega arith)

  pub drop-append_ge :
      (n : ℕ) (xs ys : List A) → length xs ≤ n → drop n (xs ++ ys) ≡ drop (n - length xs) ys
  drop-append_ge n [] ys h = ap (λ k. drop k ys) (omega arith)
  drop-append_ge zero (x ∷ xs) ys h = absurd (omega arith)
  drop-append_ge (suc n) (x ∷ xs) ys h =
      drop-append_ge n xs ys (omega arith) ∙ ap (λ k. drop k ys) (omega arith)

  pub take-take : (n k : ℕ) (xs : List A) → n ≤ k → take n (take k xs) ≡ take n xs
  take-take zero k xs h = refl
  take-take (suc n) zero xs h = absurd (omega arith)
  take-take (suc n) (suc k) [] h = refl
  take-take (suc n) (suc k) (x ∷ xs) h = ap (◌∷◌ x) (take-take n k xs (omega arith))

  pub take-drop-take :
      (n off k : ℕ) (xs : List A)
      → off + n ≤ k
      → take n (drop off (take k xs)) ≡ take n (drop off xs)
  take-drop-take n zero k xs h = take-take n k xs (omega arith)
  take-drop-take n (suc off) zero xs h = absurd (omega arith)
  take-drop-take n (suc off) (suc k) [] h = refl
  take-drop-take n (suc off) (suc k) (x ∷ xs) h = take-drop-take n off k xs (omega arith)

  pub get_or-append_lt :
      (xs ys : List A) (i : ℕ) (d : A) → i < length xs → get_or (xs ++ ys) i d ≡ get_or xs i d
  get_or-append_lt [] ys i d h = absurd (omega arith)
  get_or-append_lt (x ∷ xs) ys zero d h = refl
  get_or-append_lt (x ∷ xs) ys (suc i) d h = get_or-append_lt xs ys i d (omega arith)

  pub get_or-append_ge :
      (xs ys : List A) (i : ℕ) (d : A)
      → length xs ≤ i
      → get_or (xs ++ ys) i d ≡ get_or ys (i - length xs) d
  get_or-append_ge [] ys i d h = ap (λ k. get_or ys k d) (omega arith)
  get_or-append_ge (x ∷ xs) ys zero d h = absurd (omega arith)
  get_or-append_ge (x ∷ xs) ys (suc i) d h =
      get_or-append_ge xs ys i d (omega arith) ∙ ap (λ k. get_or ys k d) (omega arith)

  pub get_or-take :
      (n : ℕ) (xs : List A) (i : ℕ) (d : A) → i < n → get_or (take n xs) i d ≡ get_or xs i d
  get_or-take zero xs i d h = absurd (omega arith)
  get_or-take (suc n) [] i d h = refl
  get_or-take (suc n) (x ∷ xs) zero d h = refl
  get_or-take (suc n) (x ∷ xs) (suc i) d h = get_or-take n xs i d (omega arith)

  pub drop-take : (n k : ℕ) (xs : List A) → drop n (take k xs) ≡ take (k - n) (drop n xs)
  drop-take zero k xs = ap (λ j. take j xs) (omega arith)
  drop-take (suc n) zero xs =
      let z : ◌≡◌ {A = ℕ} 0 (zero - suc n) = omega arith in ap (λ j. take j (drop (suc n) xs)) z
  drop-take (suc n) (suc k) [] = sym (take-nil (suc k - suc n))
  drop-take (suc n) (suc k) (x ∷ xs) = drop-take n k xs ∙ ap (λ j. take j (drop n xs)) (omega arith)

  pub take-split :
      (n k : ℕ) (xs : List A) → k ≤ n → take n xs ≡ take k xs ++ take (n - k) (drop k xs)
  take-split n zero xs h = ap (λ j. take j xs) (omega arith)
  take-split zero (suc k) xs h = absurd (omega arith)
  take-split (suc n) (suc k) [] h = sym (take-nil (suc n - suc k))
  take-split (suc n) (suc k) (x ∷ xs) h =
      ap (◌∷◌ x)
        (take-split n k xs (omega arith) ∙ ap (λ j. take k xs ++ take j (drop k xs)) (omega arith))

  -- A stretch inside the first `k` items.
  pub stretch_inside :
      (n off k : ℕ) (xs ys : List A)
      → off + n ≤ k
      → k ≤ length xs
      → take n (drop off (take k xs ++ ys)) ≡ take n (drop off xs)
  stretch_inside n off k xs ys h l =
      ap (take n) (drop-append_le off (take k xs) ys (omega (arith, length-take k xs)))
      ∙ take-append_le n (drop off (take k xs)) ys
          (omega (arith, length-drop off (take k xs), length-take k xs))
      ∙ take-drop-take n off k xs h

  -- A stretch that goes on behind the first `k` items.
  pub stretch_across :
      (n off k : ℕ) (xs ys : List A)
      → off ≤ k
      → k - off ≤ n
      → k ≤ length xs
      → take n (drop off (take k xs ++ ys))
        ≡ take (k - off) (drop off xs) ++ take (n - (k - off)) ys
  stretch_across n off k xs ys h m l =
      let len : length (take (k - off) (drop off xs)) ≡ k - off =
        omega (arith, length-take (k - off) (drop off xs), length-drop off xs) in
      ap (take n) (drop-append_le off (take k xs) ys (omega (arith, length-take k xs)))
      ∙ ap (λ zs. take n (zs ++ ys)) (drop-take off k xs)
      ∙ take-append_ge n (take (k - off) (drop off xs)) ys (omega (arith, len))
      ∙ ap (λ j. take (k - off) (drop off xs) ++ take (n - j) ys) len
