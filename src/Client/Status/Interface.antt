-- ===== src/Client/Status/Interface.antt =====
-- The line of do_interface, as the parts that it is printed from.
use diald_top.Base.{
  ℕ, ◌+◌, ◌-◌, ◌/◌, ◌%◌, ◌^◌, ◌<◌, ◌≤◌, ◌≡◌, refl, true, false, arith, some, List, [], ◌∷◌, ltb,
  codes, ℤ, pos, negsuc,
}
use diald_top.Client.Printf.{number, before, print, print_int, sprintf, format_step, convert}
use diald_top.Client.Printf.Fields.{pad_int, print-pad_int, pad_plain}
use diald_top.Client.Rows.Parts.{flat}
use diald_top.Client.Status.{interface_spcs, interface_args, to_int}

pub to_int_pos : (n m : ℕ) → n % 2 ^ 32 ≡ m → m < 2 ^ 31 → to_int n ≡ pos m
to_int_pos n m e lt = let low : ltb m (2 ^ 31) ≡ true = ground arith in rw (e, low) refl

to_int_negsuc : (n m : ℕ) → n % 2 ^ 32 + m + 1 ≡ 2 ^ 32 → m < 2 ^ 31 → to_int n ≡ negsuc m
to_int_negsuc n m e lt =
    let high : ltb (n % 2 ^ 32) (2 ^ 31) ≡ false = ground arith in
    let value : 2 ^ 32 - 1 - n % 2 ^ 32 ≡ m = omega (arith, e) in rw (high, value) refl

-- The halves of what is left of the line, if the texts fit.
pub interface_spcs_room :
    (cols texts : ℕ)
    → 32 + texts ≤ cols
    → cols < 2_147_483_648
    → interface_spcs cols texts ≡ pos ((cols - (32 + texts)) / 2)
unfolding interface_spcs
interface_spcs_room cols texts le small = to_int_pos _ _ (omega arith) (omega arith)

-- They are negative otherwise, and rounded up.
pub interface_spcs_short :
    (cols texts : ℕ)
    → cols < 32 + texts
    → texts < 2_147_483_000
    → interface_spcs cols texts ≡ negsuc ((32 + texts - cols - 1) / 2)
unfolding interface_spcs
interface_spcs_short cols texts lt small = to_int_negsuc _ _ (omega arith) (omega arith)

unfoldable pub interface_format : ℤ → List (List ℕ)
interface_format spcs =
    codes "%-s%s%" ∷ print_int spcs ∷ codes "s%-s%s%" ∷ print_int spcs ∷ codes "s%-s%s" ∷ []

pub sprintf-interface_format :
    (spcs : ℤ)
    → sprintf (codes "%%-s%%s%%%ds%%-s%%s%%%ds%%-s%%s") (number spcs ∷ number spcs ∷ [])
      ≡ some (flat (interface_format spcs))
unfolding sprintf print format_step convert interface_format
sprintf-interface_format spcs = refl

abbrev pub interface_parts : ℤ → (interface local_ip remote_ip : List ℕ) → List (List ℕ)
interface_parts spcs interface local_ip remote_ip =
    codes "Interface: "
    ∷ interface
    ∷ pad_int spcs []
    ∷ codes "Local IP: "
    ∷ local_ip
    ∷ pad_int spcs []
    ∷ codes "Remote IP: "
    ∷ remote_ip
    ∷ []

pub sprintf-interface_parts :
    (spcs : ℤ) (interface local_ip remote_ip : List ℕ)
    → sprintf (flat (interface_format spcs)) (interface_args interface local_ip remote_ip)
      ≡ some (flat (interface_parts spcs interface local_ip remote_ip))
unfolding sprintf print format_step convert interface_format
sprintf-interface_parts spcs interface local_ip remote_ip =
    rw
      (
        print-pad_int spcs [] _ _,
        before,
        print-pad_int spcs [] _ _,
        before,
        pad_plain true (codes "Interface: "),
        pad_plain false interface,
        pad_plain true (codes "Local IP: "),
        pad_plain false local_ip,
        pad_plain true (codes "Remote IP: "),
        pad_plain false remote_ip,
      )
      refl
