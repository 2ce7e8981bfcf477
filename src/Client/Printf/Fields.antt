-- ===== src/Client/Printf/Fields.antt =====
-- Directives whose width is printed into the format first, and how wide a field comes out.
use diald_top.Base.{
  ℕ, zero, suc, ◌+◌, ◌-◌, ◌*◌, ◌≤◌, ◌≡◌, refl, ap, ◌∙◌, Bool, true, false, ◌&&◌, arith, Option,
  none, some, List, [], ◌∷◌, ◌++◌, ℤ, pos, negsuc, leb, ◌==◌, length, length-append, take, decimal,
  Bool-cases, inl, inr,
}
use diald_top.Base.Decimal.Read.{ReadsDigits, read-decimal}
use diald_top.Client.Printf.{
  Arg, text, convert, plain, width, precision, print_int, blanks, before, cut, pad, format_step,
  print,
}

pub before_nothing : (o : Option (List ℕ)) → before [] o ≡ o
before_nothing none = refl
before_nothing (some t) = refl

width-digit : (left : Bool) (args : List Arg) → ReadsDigits (λ v fmt. print (width left v) fmt args)
unfolding print format_step
width-digit left args v d cs lt =
    let dash : ((d + 48) == b'-') ≡ false = ground arith in
    let digit : (leb b'0' (d + 48) && leb (d + 48) b'9') ≡ true = ground arith in
    let value : d + 48 - 48 ≡ d = omega arith in
    rw (dash, digit, value, print, format_step)
      (before_nothing (print (width left (v * 10 + d)) cs args))

precision-digit :
    (left : Bool) (w : ℕ) (args : List Arg)
    → ReadsDigits (λ v fmt. print (precision left w v) fmt args)
unfolding print format_step
precision-digit left w args v d cs lt =
    let digit : (leb b'0' (d + 48) && leb (d + 48) b'9') ≡ true = ground arith in
    let value : d + 48 - 48 ≡ d = omega arith in
    rw (digit, value, print, format_step)
      (before_nothing (print (precision left w (v * 10 + d)) cs args))

-- A width that has been printed into the format.
pub print-width :
    (left : Bool) (n : ℕ) (fmt : List ℕ) (args : List Arg)
    → print (width left 0) (decimal n ++ fmt) args ≡ print (width left n) fmt args
print-width left n fmt args =
    read-decimal (λ v fmt. print (width left v) fmt args) (width-digit left args) n fmt

pub print-precision :
    (left : Bool) (w n : ℕ) (fmt : List ℕ) (args : List Arg)
    → print (precision left w 0) (decimal n ++ fmt) args ≡ print (precision left w n) fmt args
print-precision left w n fmt args =
    read-decimal (λ v fmt. print (precision left w v) fmt args) (precision-digit left w args) n fmt

-- The minus of a negative number is the flag of the directive.
print-negative :
    (n : ℕ) (fmt : List ℕ) (args : List Arg)
    → print (width false 0) (print_int (negsuc n) ++ fmt) args ≡ print (width true (suc n)) fmt args
unfolding print format_step print_int
print-negative n fmt args =
    before_nothing (print (width true 0) (decimal (suc n) ++ fmt) args)
    ∙ print-width true (suc n) fmt args

pub length-blanks : (n : ℕ) → length (blanks n) ≡ n
length-blanks zero = refl
length-blanks (suc n) = ap suc (length-blanks n)

length-take : (n : ℕ) (xs : List ℕ) → length (take n xs) ≤ n
length-take zero xs = omega arith
length-take (suc n) [] = omega arith
length-take (suc n) (x ∷ xs) = omega (arith, length-take n xs)

-- A field is as wide as its text, cut, or as its width, whichever is more.
pub length-pad :
    (left : Bool) (w : ℕ) (p : Option ℕ) (t : List ℕ)
    → length (pad left w p t) ≡ length (cut p t) + (w - length (cut p t))
unfolding pad
length-pad left w p t =
    let fill = length-blanks (w - length (cut p t)) in
    elim (Bool-cases left) [
      | inl e ↦ rw e (omega (arith, fill, length-append (cut p t) (blanks (w - length (cut p t)))))
      | inr e ↦ rw e (omega (arith, fill, length-append (blanks (w - length (cut p t))) (cut p t)))
    ]

-- With a precision that is its width a field has that width.
pub length-pad_column : (left : Bool) (w : ℕ) (t : List ℕ) → length (pad left w (some w) t) ≡ w
unfolding cut
length-pad_column left w t = omega (arith, length-pad left w (some w) t, length-take w t)

append_nothing : (t : List ℕ) → t ++ [] ≡ t
append_nothing [] = refl
append_nothing (c ∷ t) = ap (λ r. c ∷ r) (append_nothing t)

-- A plain `%s`, or `%-s`.
pub pad_plain : (left : Bool) (t : List ℕ) → pad left 0 none t ≡ t
unfolding pad cut
pad_plain left t =
    let none_left : 0 - length t ≡ 0 = omega arith in
    elim (Bool-cases left) [
      | inl e ↦ rw (e, none_left) (append_nothing t)
      | inr e ↦ rw (e, none_left) refl
    ]

-- A field whose width is a printed number, negative or not.
abbrev pub pad_int : ℤ → List ℕ → List ℕ
pad_int (pos n) t = pad false n none t
pad_int (negsuc n) t = pad true (suc n) none t

pub print-pad_int :
    (n : ℤ) (t fmt : List ℕ) (args : List Arg)
    → print (width false 0) (print_int n ++ (b's' ∷ fmt)) (text t ∷ args)
      ≡ before (pad_int n t) (print plain fmt args)
unfolding print format_step convert print_int
print-pad_int (pos n) t fmt args = print-width false n (b's' ∷ fmt) (text t ∷ args)
print-pad_int (negsuc n) t fmt args = print-negative n (b's' ∷ fmt) (text t ∷ args)

pub length-pad_blank : (left : Bool) (n : ℕ) → length (pad left n none []) ≡ n
unfolding cut
length-pad_blank left n = omega (arith, length-pad left n none [])
