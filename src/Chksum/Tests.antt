-- ===== src/Chksum/Tests.antt =====
-- The checksum code on concrete bytes.
use my_lwip_poc.Base.{ℕ, ◌%◌, ◌/◌, ◌≡◌, refl, true, false, List, [], ◌∷◌, ◌++◌, arith}
use my_lwip_poc.Chksum.{
  Segment, standard_chksum, aligned_chksum, complement16, inet_chksum, inet_chksum_pbuf,
  inet_chksum_pseudo,
}
use my_lwip_poc.Chksum.Spec.{le_sum, ones}
use my_lwip_poc.Chksum.Standard.{standard_chksum-ones}
use my_lwip_poc.Chksum.Chain.{bytes_of}
use my_lwip_poc.Chksum.Pseudo.{pseudo_header, inet_chksum_pseudo-bytes_of}
use my_lwip_poc.Chksum.Verify.{inet_chksum_pbuf-inet_chksum, inet_chksum-verify}

-- The example of the wrapper's load test.
abbrev one_to_four : List ℕ
one_to_four = 1 ∷ 2 ∷ 3 ∷ 4 ∷ []

-- Three pbufs, two of odd length, one at an odd address.
abbrev three_pbufs : List Segment
three_pbufs =
    record { odd = false; payload = 1 ∷ 2 ∷ 3 ∷ [] }
    ∷ record { odd = true; payload = 255 ∷ [] }
    ∷ record { odd = false; payload = 7 ∷ 8 ∷ [] }
    ∷ []

even_address : standard_chksum false one_to_four ≡ 1540
unfolding standard_chksum aligned_chksum
even_address = refl

odd_address : standard_chksum true one_to_four ≡ 1540
unfolding standard_chksum aligned_chksum
odd_address = refl

standard_chksum-ones_example : standard_chksum true one_to_four ≡ ones (le_sum one_to_four)
standard_chksum-ones_example = standard_chksum-ones true one_to_four (omega arith) (omega arith)

inet_chksum_pbuf-inet_chksum_example :
    inet_chksum_pbuf three_pbufs ≡ inet_chksum true (1 ∷ 2 ∷ 3 ∷ 255 ∷ 7 ∷ 8 ∷ []) 6
inet_chksum_pbuf-inet_chksum_example =
    inet_chksum_pbuf-inet_chksum true three_pbufs (omega arith) (omega arith)

inet_chksum_pseudo-bytes_of_example :
    inet_chksum_pseudo three_pbufs 0x0100007f 0x0200007f 17 6
    ≡ complement16
        (ones (le_sum (pseudo_header 0x0100007f 0x0200007f 17 6 ++ bytes_of three_pbufs)))
inet_chksum_pseudo-bytes_of_example =
    inet_chksum_pseudo-bytes_of 0x0100007f 0x0200007f 17 6 (omega arith) (omega arith) (omega arith)
      (omega arith) three_pbufs (omega arith)

inet_chksum-verify_example :
    let c = inet_chksum false (69 ∷ 0 ∷ 0 ∷ 0 ∷ 9 ∷ []) 5 in
    inet_chksum true (69 ∷ 0 ∷ c % 256 ∷ c / 256 ∷ 9 ∷ []) 5 ≡ 0
inet_chksum-verify_example =
    inet_chksum-verify false true (69 ∷ 0 ∷ []) (9 ∷ []) (omega arith) (omega arith) (omega arith)
      (omega arith)
