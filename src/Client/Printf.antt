-- ===== src/Client/Printf.antt =====
-- What printf makes of a format: `%s` with the flag `-`, a width and a precision, plain `%d`, `%%`,
-- and `*` for a width or a precision that is an argument.
pub mod Fields
use diald_top.Base.{
  ℕ, zero, suc, ◌+◌, ◌-◌, ◌*◌, Bool, true, false, ◌&&◌, if◌then◌else◌, Option, none, some, List, [],
  ◌∷◌, ◌++◌, ℤ, pos, negsuc, leb, ◌==◌, length, take, decimal,
}

pub data Arg : Type 0 where
  text : List ℕ → Arg
  number : ℤ → Arg

-- `%d`
unfoldable pub print_int : ℤ → List ℕ
print_int (pos n) = decimal n
print_int (negsuc n) = b'-' ∷ decimal (suc n)

abbrev pub blanks : ℕ → List ℕ
blanks zero = []
blanks (suc n) = b' ' ∷ blanks n

unfoldable pub cut : Option ℕ → List ℕ → List ℕ
cut none t = t
cut (some p) t = take p t

-- The precision cuts the text, and blanks make it as wide as the width, on its right with `-`.
unfoldable pub pad : (left : Bool) → (width : ℕ) → Option ℕ → List ℕ → List ℕ
unfolding cut
pad left width precision t =
    let fill = blanks (width - length (cut precision t)) in
    if left then cut precision t ++ fill else fill ++ cut precision t

-- Between two directives, or in one: in its flag and width, or in its precision.
pub data Mode : Type 0 where
  plain : Mode
  width : Bool → ℕ → Mode
  precision : Bool → ℕ → ℕ → Mode

pub record Next : Type 0 where
  pub mode : Mode
  pub output : List ℕ
  pub args : List Arg

abbrev next : Mode → List ℕ → List Arg → Option Next
next m out args = some (record { mode = m; output = out; args = args })

-- The letter that ends a directive; any other is not known here.
unfoldable pub convert : ℕ → Bool → ℕ → Option ℕ → List Arg → Option Next
convert c left w p [] = if c == b'%' then next plain (b'%' ∷ []) [] else none
convert c left w p (text t ∷ args) =
    if c == b's'
    then next plain (pad left w p t) args
    else if c == b'%'
    then next plain (b'%' ∷ []) (text t ∷ args)
    else none
convert c left w p (number n ∷ args) =
    if c == b'd' && (w == 0)
    then next plain (print_int n) args
    else if c == b'%'
    then next plain (b'%' ∷ []) (number n ∷ args)
    else none

-- A negative width is the flag `-` and a width; a negative precision is none.
unfoldable pub star_width : Bool → List Arg → Option Next
star_width left (number (pos n) ∷ args) = next (width left n) [] args
star_width left (number (negsuc n) ∷ args) = next (width true (suc n)) [] args
star_width left (text t ∷ args) = none
star_width left [] = none

unfoldable pub star_precision : Bool → ℕ → List Arg → Option Next
star_precision left w (number (pos n) ∷ args) = next (precision left w n) [] args
star_precision left w (number (negsuc n) ∷ args) = next (width left w) [] args
star_precision left w (text t ∷ args) = none
star_precision left w [] = none

-- One byte of the format. A `0` in front of a width is taken as a digit of it.
unfoldable pub format_step : Mode → ℕ → List Arg → Option Next
unfolding convert star_width star_precision
format_step plain c args =
    if c == b'%' then next (width false 0) [] args else next plain (c ∷ []) args
format_step (width left w) c args =
    if c == b'-'
    then (if w == 0 then next (width true 0) [] args else none)
    else if leb b'0' c && leb c b'9'
    then next (width left (w * 10 + (c - 48))) [] args
    else if c == b'.'
    then next (precision left w 0) [] args
    else if c == b'*'
    then star_width left args
    else convert c left w none args
format_step (precision left w p) c args =
    if leb b'0' c && leb c b'9'
    then next (precision left w (p * 10 + (c - 48))) [] args
    else if c == b'*'
    then star_precision left w args
    else convert c left w (some p) args

abbrev pub before : List ℕ → Option (List ℕ) → Option (List ℕ)
before out none = none
before out (some rest) = some (out ++ rest)

-- `none` is a directive that is not known, or that has no argument of its type.
unfoldable pub print : Mode → List ℕ → List Arg → Option (List ℕ)
unfolding format_step
print plain [] args = some []
print (width left w) [] args = none
print (precision left w p) [] args = none
print m (c ∷ fmt) args = elim (format_step m c args) [
  | none ↦ none
  | some n ↦ before n.output (print n.mode fmt n.args)
]

unfoldable pub sprintf : List ℕ → List Arg → Option (List ℕ)
unfolding print
sprintf fmt args = print plain fmt args
