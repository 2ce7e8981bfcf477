-- ===== src/Client/Service.antt =====
-- service of client/resolve.c, in its builds, and resolve without gethostbyaddr.
pub mod Columns
pub mod Builds
use diald_top.Base.{
  ℕ, zero, suc, ◌-◌, Bool, if◌then◌else◌, Option, none, some, List, [], ◌∷◌, ◌++◌, ◌==◌, c_str,
  length, take, decimal,
}
use diald_top.Client.Printf.{blanks}

-- `snprintf(sstr, 6, "%-5d", port)`
unfoldable pub print_port : ℕ → List ℕ
unfolding decimal
print_port port = take 5 (decimal port ++ blanks (5 - length (decimal port)))

-- Built with getservbyport and without obstacks. `name` is what getservbyport finds, and `allocated` whether malloc or strdup returns a string;
-- if not, the empty string is shown.
unfoldable pub service : Option (List ℕ) → Bool → ℕ → List ℕ
unfolding print_port
service name allocated port =
    if allocated then elim name [ none ↦ print_port port | some text ↦ text ] else []

-- The loop that copies a name to the obstack's growing object, a byte at a time.
unfoldable pub grow_name : List ℕ → List ℕ → List ℕ
grow_name [] object = object
grow_name (c ∷ p) object = if c == 0 then object else grow_name p (object ++ c ∷ [])

-- Built with getservbyport and with obstacks, which do not fail; the object ends in a NUL.
unfoldable pub service_obstack : Option (List ℕ) → ℕ → List ℕ
unfolding print_port grow_name c_str
service_obstack name port = elim name [
  | none ↦ print_port port
  | some text ↦ c_str (grow_name text [] ++ 0 ∷ [])
]

-- Built without getservbyport.
unfoldable pub service_number : Bool → ℕ → List ℕ
unfolding print_port
service_number allocated port = if allocated then print_port port else []

-- resolve without gethostbyaddr
unfoldable pub resolve_numeric : List ℕ → List ℕ
resolve_numeric aaddr = aaddr
