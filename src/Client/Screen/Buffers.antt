-- ===== src/Client/Screen/Buffers.antt =====
-- Where the lines of the queue stay within their buffers.
use diald_top.Base.{
  strncpy, ℕ, zero, suc, ◌+◌, ◌<◌, ◌≤◌, ◌≡◌, refl, ap, ◌∙◌, true, false, arith, inl, inr, ◌⊎◌,
  Bool-cases, if◌then◌else◌, Option, some, List, [], ◌∷◌, ltb, leb, ◌==◌, set, length,
  for_while_inv,
}
use diald_top.Client.Screen.{Screen, maxbufs, put, allocate, screen_init, blank, do_queue, strncpy}

-- The buffers below `n` are there, of a size for a line of `cols` bytes and its NUL.
abbrev pub Allocated : ℕ → ℕ → (ℕ → Option (List ℕ)) → Type 0
Allocated n cols scr = (i : ℕ) → i < n → (b : List ℕ) × (scr i ≡ some b) × (length b ≡ suc cols)

-- There is a buffer for each line of the terminal and one more, so far as there may be.
pub record Ready (s : Screen) : Type 0 where
  pub enough : (s.numbuff ≡ suc s.lines) ⊎ ((s.numbuff ≡ maxbufs) × (maxbufs ≤ suc s.lines))
  pub within : s.numbuff ≤ maxbufs
  pub buffers : Allocated s.numbuff s.cols s.scrbuff

length-set_self : (b : List ℕ) (i v : ℕ) → length (set b i v) ≡ length b
length-set_self [] i v = refl
length-set_self (x ∷ b) zero v = refl
length-set_self (x ∷ b) (suc i) v = ap suc (length-set_self b i v)

pub length-strncpy : (n : ℕ) (b text : List ℕ) → length (strncpy n b text) ≡ length b
length-strncpy zero b text = refl
length-strncpy (suc n) [] text = refl
length-strncpy (suc n) (x ∷ b) [] = ap suc (length-strncpy n b [])
length-strncpy (suc n) (x ∷ b) (c ∷ text) = ap suc (length-strncpy n b text)

pub Allocated-put :
    (n i cols : ℕ) (b : List ℕ) (scr : ℕ → Option (List ℕ))
    → ((j : ℕ) → j < n → (j == i) ≡ false → (b : List ℕ) × (scr j ≡ some b) × (length b ≡ suc cols))
    → length b ≡ suc cols
    → Allocated n cols (put i (some b) scr)
Allocated-put n i cols b scr others e j lt = elim (Bool-cases (j == i)) [
  | inl same ↦ rw same (b, refl, e)
  | inr other ↦ rw other (others j lt other)
]

-- The loop of screen_init after `n` rounds.
record Filled (cols lines n : ℕ) (s : Screen) : Type 0 where
  number : s.numbuff ≡ n
  kept : (s.lines ≡ lines) × (s.cols ≡ cols)
  buffers : Allocated n cols s.scrbuff
  below : n ≤ suc lines

allocate-Filled :
    (fresh : ℕ → List ℕ) (cols lines n : ℕ) (s : Screen)
    → ((i : ℕ) → length (fresh i) ≡ suc cols)
    → leb s.numbuff s.lines ≡ true
    → Filled cols lines n s
    → Filled cols lines (suc n) (allocate fresh n s)
allocate-Filled fresh cols lines n s sized go h = record {
  number = refl;
  kept = h.kept;
  buffers =
      Allocated-put (suc n) n cols (set (fresh n) 0 0) s.scrbuff
        (λ j lt other. h.buffers j ground arith) (length-set_self (fresh n) 0 0 ∙ sized n);
  below = ground (arith, h.number, h.kept.0);
}

-- screen_init makes the buffers ready, whatever was there before.
pub screen_init-Ready :
    (lines cols : ℕ) (fresh : ℕ → List ℕ) (s : Screen)
    → ((i : ℕ) → length (fresh i) ≡ suc cols)
    → Ready (screen_init lines cols fresh s)
unfolding screen_init
screen_init-Ready lines cols fresh s sized =
    let (j, le, h, end) =
      for_while_inv (Filled cols lines) (λ t. leb t.numbuff t.lines) (allocate fresh)
        (λ i t go h. allocate-Filled fresh cols lines i t sized go h) maxbufs 0
        (record s { lines = lines; cols = cols; numbuff = 0 })
        (record {
          number = refl;
          kept = (refl, refl);
          buffers = λ i lt. absurd (omega arith);
          below = omega arith;
        }) in
    record {
      enough = ground (arith, h.number, h.kept, h.below, end);
      within = ground (arith, h.number, le);
      buffers = λ i lt. ground (arith, h.number, h.kept, h.buffers i);
    }

-- The buffer begins with its NUL.
abbrev pub Blank : (ℕ → Option (List ℕ)) → ℕ → Type 0
Blank scr i = (rest : List ℕ) × (scr i ≡ some (0 ∷ rest))

record Blanked (cols total i n : ℕ) (old new : ℕ → Option (List ℕ)) : Type 0 where
  buffers : Allocated total cols new
  before : (j : ℕ) → j < i → new j ≡ old j
  empty : (j : ℕ) → i ≤ j → j < i + n → Blank new j

set_nul : (b : List ℕ) (cols : ℕ) → length b ≡ suc cols → (rest : List ℕ) × (set b 0 0 ≡ 0 ∷ rest)
set_nul [] cols e = absurd (omega (arith, e))
set_nul (x ∷ b) cols e = (b, refl)

blank-Blanked :
    (cols total n i : ℕ) (scr : ℕ → Option (List ℕ))
    → i + n ≤ total
    → Allocated total cols scr
    → (new : ℕ → Option (List ℕ)) × (blank n i scr ≡ some new) × Blanked cols total i n scr new
unfolding blank
blank-Blanked cols total zero i scr le h = (
  scr,
  refl,
  record { buffers = h; before = λ j lt. refl; empty = λ j a b. absurd (omega arith) },
)
blank-Blanked cols total (suc n) i scr le h =
    let (b, e, size) = h i (omega arith) in
    let (rest, nul) = set_nul b cols size in
    let (new, run, done) =
      blank-Blanked cols total n (suc i) (put i (some (set b 0 0)) scr) (omega arith) (
        Allocated-put total i cols (set b 0 0) scr (λ j lt _. h j lt)
          (length-set_self b 0 0 ∙ size)) in
    (
      new,
      rw (e, blank) run,
      record {
        buffers = done.buffers;
        before = λ j lt. ground (arith, done.before j);
        empty = λ j ge lt. elim (Bool-cases (ltb i j)) [
          | inl later ↦ done.empty j ground arith (omega arith)
          | inr at ↦
              let same : (j == i) ≡ true = ground arith in
              let first : new j ≡ some (set b 0 0) =
                done.before j ground arith ∙ ap (λ z. if z then some (set b 0 0) else scr j) same in
              (rest, first ∙ ap some nul)
        ];
      },
    )

-- do_queue empties every line and counts from 0 again.
pub do_queue-Ready :
    (s : Screen)
    → Ready s
    → (t : Screen) × (do_queue s ≡ some t)
      × Ready t
      × (t.count ≡ 0)
      × ((t.lines ≡ s.lines) × (t.cols ≡ s.cols))
      × ((i : ℕ) → i < s.numbuff → Blank t.scrbuff i)
unfolding do_queue
do_queue-Ready s v =
    let (new, run, done) =
      blank-Blanked s.cols s.numbuff s.numbuff 0 s.scrbuff (omega arith) v.buffers in
    (
      record s { scrbuff = new; count = 0 },
      rw (run, do_queue) refl,
      record { enough = v.enough; within = v.within; buffers = done.buffers },
      refl,
      (refl, refl),
      λ i lt. done.empty i (omega arith) (omega arith),
    )
