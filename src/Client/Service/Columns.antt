-- ===== src/Client/Service/Columns.antt =====
-- The port that service shows.
use diald_top.Base.{
  ℕ, zero, suc, ◌+◌, ◌-◌, ◌*◌, ◌<◌, ◌≤◌, ◌≡◌, refl, ap, ◌∙◌, true, ◌&&◌, arith, if◌then◌else◌, none,
  List, [], ◌∷◌, ◌++◌, leb, length, length-append, take, decimal,
}
use diald_top.Base.Decimal.Read.{ReadsDigits, read-decimal, length-decimal}
use diald_top.Client.Printf.{blanks}
use diald_top.Client.Printf.Fields.{length-blanks}
use diald_top.Client.Service.{print_port, service}

-- The number at the front of a text, after `v`.
unfoldable number_from : ℕ → List ℕ → ℕ
number_from v [] = v
number_from v (c ∷ cs) =
    let rest = number_from (v * 10 + (c - 48)) cs in if leb 48 c && leb c 57 then rest else v

-- The number that the digits at the front of a text say.
pub number : List ℕ → ℕ
number text = number_from 0 text

number_from-digit : ReadsDigits number_from
unfolding number_from
number_from-digit v d cs lt =
    let low : leb 48 (d + 48) ≡ true = ground arith in
    let high : leb (d + 48) 57 ≡ true = ground arith in
    rw (low, high) (ap (λ x. number_from x cs) (omega arith))

take_all : (n : ℕ) (xs : List ℕ) → length xs ≡ n → take n xs ≡ xs
take_all zero [] e = refl
take_all zero (x ∷ xs) e = absurd (omega (arith, e))
take_all (suc n) [] e = refl
take_all (suc n) (x ∷ xs) e = ap (λ ys. x ∷ ys) (take_all n xs (omega (arith, e)))

number_from-blanks : (v n : ℕ) → number_from v (blanks n) ≡ v
unfolding number_from
number_from-blanks v zero = refl
number_from-blanks v (suc n) = refl

-- A port without a name is shown in five columns that say its number.
service_lem :
    (port : ℕ)
    → port < 65536
    → (length (service none true port) ≡ 5) × (number (service none true port) ≡ port)
unfolding service print_port number
service_lem port small =
    let short : length (decimal port) ≤ 5 = length-decimal port 4 (omega arith) in
    let whole = padded short in
    (
      ap length (take_all 5 _ whole) ∙ whole,
      ap number (take_all 5 _ whole) ∙ said (5 - length (decimal port)),
    )
  where
    padded :
        length (decimal port) ≤ 5 → length (decimal port ++ blanks (5 - length (decimal port))) ≡ 5
    padded short = omega (
      arith,
      length-append (decimal port) (blanks (5 - length (decimal port))),
      length-blanks (5 - length (decimal port)),
      short,
    )

    said : (n : ℕ) → number (decimal port ++ blanks n) ≡ port
    said n = read-decimal number_from number_from-digit port (blanks n) ∙ number_from-blanks port n
