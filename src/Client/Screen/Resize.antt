-- ===== src/Client/Screen/Resize.antt =====
-- When the terminal has changed its size.
use diald_top.Base.{
  ℕ, zero, suc, ◌<◌, ◌≤◌, ◌≡◌, refl, true, false, arith, inl, inr, ◌⊎◌, Bool-cases, Option, none,
  some, List, ltb, leb, length, for_while_inv, sym, ◌∙◌, subst, Option-cases,
}
use diald_top.Client.Screen.{Screen, maxbufs, allocate, put, release, screen_init, do_screen_resize}
use diald_top.Client.Screen.Buffers.{Ready, screen_init-Ready}

release_inside :
    (n : ℕ) (scr : ℕ → Option (List ℕ))
    → n < maxbufs
    → (new : ℕ → Option (List ℕ)) × (release n scr ≡ some new)
unfolding release
release_inside zero scr lt = (_, refl)
release_inside (suc n) scr lt =
    let inside : ltb (suc n) maxbufs ≡ true = ground arith in
    rw inside (release_inside n (put (suc n) none scr) (omega arith))

release_outside : (n : ℕ) (scr : ℕ → Option (List ℕ)) → maxbufs ≤ n → release n scr ≡ none
unfolding release
release_outside zero scr le = absurd (omega arith)
release_outside (suc n) scr le =
    let outside : ltb (suc n) maxbufs ≡ false = ground arith in rw outside refl

-- From a terminal of 255 lines or more do_screen_resize reads behind the end of `scrbuff`; from a
-- smaller one it makes the buffers ready for the new size, whatever that is.
pub do_screen_resize_lem :
    (lines cols : ℕ) (fresh : ℕ → List ℕ) (s : Screen)
    → ((i : ℕ) → length (fresh i) ≡ suc cols)
    → Ready s
    → ((255 ≤ s.lines) × (do_screen_resize lines cols fresh s ≡ none))
      ⊎ ((s.lines < 255)
          × ((t : Screen) × (do_screen_resize lines cols fresh s ≡ some t) × Ready t))
unfolding do_screen_resize
do_screen_resize_lem lines cols fresh s sized v = elim (Bool-cases (ltb s.numbuff maxbufs)) [
  | inl small ↦
      let (scr, run) = release_inside s.numbuff s.scrbuff ground arith in
      inr (
        ground (arith, v.enough),
        (
          after scr,
          rw (run, do_screen_resize) refl,
          screen_init-Ready lines cols fresh (record s { numbuff = 0; scrbuff = scr }) sized,
        ),
      )
  | inr large ↦ inl (
    ground (arith, v.enough),
    rw (release_outside s.numbuff s.scrbuff ground arith, do_screen_resize) refl,
  )
]
  where
    after : (ℕ → Option (List ℕ)) → Screen
    after scr = screen_init lines cols fresh (record s { numbuff = 0; scrbuff = scr })

-- What the new buffers leave: the size is the new one, and the packets counted are still counted.
pub record Resized (new_lines new_cols counted : ℕ) (t : Screen) : Type 0 where
  pub lines : t.lines ≡ new_lines
  pub cols : t.cols ≡ new_cols
  pub count : t.count ≡ counted

screen_init-Resized :
    (lines cols : ℕ) (fresh : ℕ → List ℕ) (s : Screen)
    → Resized lines cols s.count (screen_init lines cols fresh s)
unfolding screen_init
screen_init-Resized lines cols fresh s =
    let (j, le, h, end) =
      for_while_inv (λ i t. Resized lines cols s.count t) (λ t. leb t.numbuff t.lines)
        (allocate fresh) (λ i t go h. record { lines = h.lines; cols = h.cols; count = h.count })
        maxbufs 0 (record s { lines = lines; cols = cols; numbuff = 0 })
        (record { lines = refl; cols = refl; count = refl }) in
    h

pub do_screen_resize-Resized :
    (lines cols : ℕ) (fresh : ℕ → List ℕ) (s t : Screen)
    → do_screen_resize lines cols fresh s ≡ some t
    → Resized lines cols s.count t
unfolding do_screen_resize
do_screen_resize-Resized lines cols fresh s t e =
    elim (Option-cases (release s.numbuff s.scrbuff)) [
      | inl f ↦ absurd (some_none (sym e ∙ rw (f, do_screen_resize) refl))
      | inr (scr, f) ↦
          let run : some t
              ≡ some (screen_init lines cols fresh (record s { numbuff = 0; scrbuff = scr })) =
            sym e ∙ rw (f, do_screen_resize) refl in
          subst (Resized lines cols s.count) (sym (some-injective run))
            (screen_init-Resized lines cols fresh (record s { numbuff = 0; scrbuff = scr }))
    ]
  where
    some_none : some t ≡ none → ⊥
    some_none h = ground arith

    some-injective : {u : Screen} → some t ≡ some u → t ≡ u
    some-injective h = cc
