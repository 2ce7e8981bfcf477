-- ===== src/Client/Rows/Fields.antt =====
-- The rows and the headers as the fields that they are printed from.
use diald_top.Base.{
  ℕ, ◌≡◌, refl, ◌∙◌, true, false, none, some, List, [], ◌∷◌, ◌++◌, pos, decimal, codes,
}
use diald_top.Client.Printf.{
  Arg, plain, width, print_int, before, cut, convert, text, pad, format_step, print, sprintf,
}
use diald_top.Client.Printf.Fields.{
  before_nothing, print-width, print-precision, pad_plain, print-pad_int,
}
use diald_top.Client.Rows.Parts.{flat}
use diald_top.Client.Rows.{Packet, row_args, header_args}

abbrev pub format_parts : ℕ → List (List ℕ)
format_parts w =
    codes "%-4.4s %"
    ∷ decimal w
    ∷ codes "."
    ∷ decimal w
    ∷ codes "s/%-8.8s %"
    ∷ decimal w
    ∷ codes "."
    ∷ decimal w
    ∷ codes "s/%-8.8s  %s\n"
    ∷ []

abbrev pub format_of : ℕ → List ℕ
format_of w = flat (format_parts w)

pub sprintf-format :
    (w : ℕ)
    → sprintf
        (codes "%%-4.4s %%%d.%ds/%%-8.8s %%%d.%ds/%%-8.8s  %%s\n")
        (Arg.number (pos w) ∷ Arg.number (pos w) ∷ Arg.number (pos w) ∷ Arg.number (pos w) ∷ [])
      ≡ some (format_of w)
unfolding sprintf print print_int format_step
sprintf-format w = refl

-- A directive with a printed width and a printed precision.
print-column :
    (w : ℕ) (t fmt : List ℕ) (args : List Arg)
    → print (width false 0) (decimal w ++ (b'.' ∷ (decimal w ++ (b's' ∷ fmt)))) (text t ∷ args)
      ≡ before (pad false w (some w) t) (print plain fmt args)
unfolding print format_step convert
print-column w t fmt args =
    print-width false w (b'.' ∷ (decimal w ++ (b's' ∷ fmt))) (text t ∷ args)
    ∙ (before_nothing _ ∙ print-precision false w w (b's' ∷ fmt) (text t ∷ args))

-- The fields of a row, and what is between them.
abbrev pub row_parts : ℕ → Packet → List (List ℕ)
row_parts w p =
    pad true 4 (some 4) p.protocol
    ∷ codes " "
    ∷ pad false w (some w) p.destination
    ∷ codes "/"
    ∷ pad true 8 (some 8) p.destports
    ∷ codes " "
    ∷ pad false w (some w) p.source
    ∷ codes "/"
    ∷ pad true 8 (some 8) p.sourceports
    ∷ codes "  "
    ∷ p.ttl
    ∷ codes "\n"
    ∷ []

pub sprintf-row :
    (w : ℕ) (p : Packet) → sprintf (format_of w) (row_args p) ≡ some (flat (row_parts w p))
unfolding sprintf print print_int format_step convert
sprintf-row w p =
    rw
      (
        print-column w p.destination _ _,
        before,
        print-column w p.source _ _,
        before,
        pad_plain false p.ttl,
      )
      refl

abbrev pub headers_parts : ℕ → List (List ℕ)
headers_parts w =
    codes "Type "
    ∷ pad false w none (codes "Destination")
    ∷ codes "          "
    ∷ pad false w none (codes "Source")
    ∷ codes "           "
    ∷ codes "TTL"
    ∷ []

abbrev pub headers_format : ℕ → List (List ℕ)
headers_format w =
    codes "%-4.4s %" ∷ decimal w ∷ codes "s          %" ∷ decimal w ∷ codes "s           %s" ∷ []

pub sprintf-headers_format :
    (w : ℕ)
    → sprintf
        (codes "%%-4.4s %%%ds          %%%ds           %%s")
        (Arg.number (pos w) ∷ Arg.number (pos w) ∷ [])
      ≡ some (flat (headers_format w))
unfolding sprintf print print_int format_step
sprintf-headers_format w = refl

pub sprintf-headers :
    (w : ℕ) → sprintf (flat (headers_format w)) header_args ≡ some (flat (headers_parts w))
unfolding sprintf print print_int format_step convert pad cut
sprintf-headers w =
    rw
      (
        print-pad_int (pos w) (codes "Destination") _ _,
        before,
        print-pad_int (pos w) (codes "Source") _ _,
        before,
      )
      refl
