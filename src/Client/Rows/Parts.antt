-- ===== src/Client/Rows/Parts.antt =====
-- Texts that are put together from parts, and where each part stands.
use diald_top.Base.{
  ℕ, zero, suc, ◌+◌, ◌≡◌, refl, ap, ◌∙◌, subst, arith, some, List, [], ◌∷◌, ◌++◌, length,
  length-append, take, drop, get_elem?,
}

abbrev pub flat : List (List ℕ) → List ℕ
flat [] = []
flat (t ∷ ts) = t ++ flat ts

-- The column of a part.
abbrev pub column : ℕ → List (List ℕ) → ℕ
column zero ts = 0
column (suc k) [] = 0
column (suc k) (t ∷ ts) = length t + column k ts

-- The bytes of a line from this column on, this many.
abbrev pub slice : ℕ → ℕ → List ℕ → List ℕ
slice from n line = take n (drop from line)

drop-append : (t rest : List ℕ) (n : ℕ) → drop (length t + n) (t ++ rest) ≡ drop n rest
drop-append [] rest n = let same : 0 + n ≡ n = omega arith in ap (λ k. drop k rest) same
drop-append (c ∷ t) rest n =
    let later : suc (length t) + n ≡ suc (length t + n) = omega arith in
    ap (λ k. drop k (c ∷ (t ++ rest))) later ∙ drop-append t rest n

take-append : (t rest : List ℕ) → take (length t) (t ++ rest) ≡ t
take-append [] rest = refl
take-append (c ∷ t) rest = ap (λ r. c ∷ r) (take-append t rest)

drop-flat : (k : ℕ) (ts : List (List ℕ)) → drop (column k ts) (flat ts) ≡ flat (drop k ts)
drop-flat zero ts = refl
drop-flat (suc k) [] = refl
drop-flat (suc k) (t ∷ ts) = drop-append t (flat ts) (column k ts) ∙ drop-flat k ts

slice-flat :
    (k : ℕ) (ts : List (List ℕ)) (t : List ℕ)
    → get_elem? ts k ≡ some t
    → slice (column k ts) (length t) (flat ts) ≡ t
slice-flat zero [] t at = ground arith
slice-flat zero (u ∷ ts) t at = let same : u ≡ t = cc in rw same (take-append t (flat ts))
slice-flat (suc k) [] t at = ground arith
slice-flat (suc k) (u ∷ ts) t at =
    ap (take (length t)) (drop-append u (flat ts) (column k ts)) ∙ slice-flat k ts t at

-- The same for a column and a length that are known.
pub slice_at :
    (k i n : ℕ) (ts : List (List ℕ)) (t : List ℕ)
    → get_elem? ts k ≡ some t
    → column k ts ≡ i
    → length t ≡ n
    → slice i n (flat ts) ≡ t
slice_at k i n ts t at c e =
    subst (λ j. slice j n (flat ts) ≡ t) c
      (subst (λ m. slice (column k ts) m (flat ts) ≡ t) e (slice-flat k ts t at))

pub drop_at : (k i : ℕ) (ts : List (List ℕ)) → column k ts ≡ i → drop i (flat ts) ≡ flat (drop k ts)
drop_at k i ts c = subst (λ j. drop j (flat ts) ≡ flat (drop k ts)) c (drop-flat k ts)

abbrev pub total : List (List ℕ) → ℕ
total [] = 0
total (t ∷ ts) = length t + total ts

pub length-flat : (ts : List (List ℕ)) → length (flat ts) ≡ total ts
length-flat [] = refl
length-flat (t ∷ ts) = omega (arith, length-append t (flat ts), length-flat ts)
