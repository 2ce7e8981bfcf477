-- ===== src/Client/Service/Builds.antt =====
-- The builds of service show the same.
use diald_top.Base.{
  ℕ, ◌≡◌, refl, ap, ◌∙◌, sym, true, Option, none, some, List, [], ◌∷◌, ◌++◌, c_str,
}
use mathlib.Core.List.{append_assoc, append-nil}
use diald_top.Client.Screen.Display.{IsText}
use diald_top.Client.Service.{service, grow_name, service_obstack, service_number}

grow_name-append : (text object : List ℕ) → IsText text → grow_name text object ≡ object ++ text
unfolding grow_name
grow_name-append [] object h = sym (append-nil object)
grow_name-append (c ∷ p) object h =
    rw h.0 (grow_name-append p (object ++ c ∷ []) h.1 ∙ append_assoc object (c ∷ []) p)

c_str-append : (text : List ℕ) → IsText text → c_str (text ++ 0 ∷ []) ≡ text
unfolding c_str
c_str-append [] h = refl
c_str-append (c ∷ text) h = rw h.0 (ap (λ t. c ∷ t) (c_str-append text h.1))

-- A name without NUL.
abbrev pub IsName : Option (List ℕ) → Type 0
IsName none = Unit
IsName (some text) = IsText text

-- The build with obstacks shows what the one with malloc shows where that does not fail, and the
-- build that knows no names what the others show of a port without one.
service_obstack-service :
    (name : Option (List ℕ)) (port : ℕ)
    → IsName name
    → (service_obstack name port ≡ service name true port)
      × (service_number true port ≡ service none true port)
unfolding service_obstack service service_number
service_obstack-service none port h = (refl, refl)
service_obstack-service (some text) port h =
    (ap (λ t. c_str (t ++ 0 ∷ [])) (grow_name-append text [] h) ∙ c_str-append text h, refl)
