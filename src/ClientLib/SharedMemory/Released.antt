-- ===== src/ClientLib/SharedMemory/Released.antt =====
-- Shared memory that is got and removed leaves nothing behind.
use diald_top.Base.{
  ℕ, zero, suc, ◌≡◌, ◌==◌, ==_iff, refl, ap, ◌∙◌, Bool, true, false, arith, Option, none, some,
  List, [], ◌∷◌, ◌⊎◌, inl, inr, sym,
}
use diald_top.ClientLib.SharedMemory.{
  Build, pthread, librt, shmget, Buffer, null, failed, at, System, Held, one_more, one_less, opens,
  closes, allocates, shared_memory_get, shared_memory_remove, shared_memory_destroy, exit_calls,
  exits,
}

-- A program gets so many bytes, with these answers of the system, or removes a buffer that it has,
-- by its index among them, the latest first.
pub data Op : Type 0 where
  get : System → ℕ → Op
  remove : ℕ → Op

abbrev pub take_out : ℕ → List Buffer → Option (Buffer × List Buffer)
take_out i [] = none
take_out zero (buffer ∷ buffers) = some (buffer, buffers)
take_out (suc i) (buffer ∷ buffers) = elim (take_out i buffers) [
  | none ↦ none
  | some (taken, rest) ↦ some (taken, buffer ∷ rest)
]

-- `none` where the program removes what it does not have.
abbrev pub runs : Build → List Op → List Buffer → Held → Option (List Buffer × Held)
runs b [] buffers h = some (buffers, h)
runs b (get sys size ∷ ops) buffers h =
    let got = shared_memory_get b sys size h in runs b ops (got.0 ∷ buffers) got.1
runs b (remove i ∷ ops) buffers h = elim (take_out i buffers) [
  | none ↦ none
  | some (buffer, rest) ↦ runs b ops rest (shared_memory_remove b buffer h)
]

abbrev pub nothing : Held
nothing = record {
  blocks = 0;
  fds = 0;
  mapped = 0;
  named = false;
  attached = 0;
  segments = [];
  at_exit = [];
}

abbrev live : List Buffer → ℕ
live [] = 0
live (buffer ∷ buffers) = one_more buffer (live buffers)

abbrev ids : List (Option ℕ) → List ℕ
ids [] = []
ids (none ∷ args) = ids args
ids (some id ∷ args) = id ∷ ids args

-- What is held with `d` buffers of memory in use, with these arguments noted, and with the name or
-- without it.
abbrev holds : Build → ℕ → List (Option ℕ) → Bool → Held
holds pthread d args name = record nothing { blocks = d }
holds librt d args name = record nothing { mapped = d; named = name }
holds shmget d args name = record nothing { attached = d; segments = ids args; at_exit = args }

opens-closes :
    (fd : Option ℕ) (buffer : Buffer) (d : ℕ) (name : Bool)
    → (name_after : Bool) × (closes fd
          (record (opens fd (record nothing { mapped = d; named = name })) {
            mapped =
                one_more buffer (opens fd (record nothing { mapped = d; named = name })).mapped;
          })
        ≡ record nothing { mapped = one_more buffer d; named = name_after })
opens-closes none buffer d name = (name, refl)
opens-closes (some fd) buffer d name = (true, refl)

allocates-holds :
    (fd : Option ℕ) (buffer : Buffer) (d : ℕ) (args : List (Option ℕ))
    → record (allocates fd (holds shmget d args false)) {
      attached = one_more buffer (allocates fd (holds shmget d args false)).attached;
      at_exit = fd ∷ (allocates fd (holds shmget d args false)).at_exit;
    }
      ≡ holds shmget (one_more buffer d) (fd ∷ args) false
allocates-holds none buffer d args = refl
allocates-holds (some fd) buffer d args = refl

get-holds :
    (b : Build) (sys : System) (size d : ℕ) (args : List (Option ℕ)) (name : Bool)
    → (after : List (Option ℕ)) × (name_after : Bool) × ((shared_memory_get b sys size
          (holds b d args name)).1
        ≡ holds b
            (one_more (shared_memory_get b sys size (holds b d args name)).0 d)
            after
            name_after)
unfolding shared_memory_get
get-holds pthread sys size d args name = (args, name, refl)
get-holds librt sys size d args name =
    let (name_after, e) = opens-closes sys.shm_open _ d name in (args, name_after, e)
get-holds shmget sys size d args name =
    (sys.shmget size ∷ args, name, allocates-holds (sys.shmget size) _ d args)

one_less-one_more : (buffer : Buffer) (d : ℕ) → one_less buffer (one_more buffer d) ≡ d
one_less-one_more null d = refl
one_less-one_more failed d = refl
one_less-one_more (at _) d = omega arith

remove-holds :
    (b : Build) (buffer : Buffer) (d : ℕ) (args : List (Option ℕ)) (name : Bool)
    → shared_memory_remove b buffer (holds b (one_more buffer d) args name) ≡ holds b d args false
unfolding shared_memory_remove
remove-holds pthread buffer d args name = rw (one_less-one_more buffer d) refl
remove-holds librt buffer d args name = rw (one_less-one_more buffer d) refl
remove-holds shmget buffer d args name = rw (one_less-one_more buffer d) refl

one_more_comm : (x y : Buffer) (d : ℕ) → one_more x (one_more y d) ≡ one_more y (one_more x d)
one_more_comm null y d = refl
one_more_comm failed y d = refl
one_more_comm (at _) null d = refl
one_more_comm (at _) failed d = refl
one_more_comm (at _) (at _) d = refl

take_out-cases :
    (i : ℕ) (buffers : List Buffer)
    → (take_out i buffers ≡ none)
      ⊎ ((buffer : Buffer) × (rest : List Buffer) × (take_out i buffers ≡ some (buffer, rest))
          × (live buffers ≡ one_more buffer (live rest)))
take_out-cases i [] = inl refl
take_out-cases zero (buffer ∷ buffers) = inr (buffer, buffers, refl, refl)
take_out-cases (suc i) (buffer ∷ buffers) = elim (take_out-cases i buffers) [
  | inl out ↦ inl (simp out refl)
  | inr (taken, rest, e, counts) ↦ inr (
    taken,
    buffer ∷ rest,
    simp e refl,
    ap (one_more buffer) counts ∙ one_more_comm buffer taken (live rest),
  )
]

-- The name, where no buffer is in use.
abbrev unused : List Buffer → Bool → Bool
unused [] name = name
unused (_ ∷ _) name = false

unused-false : (buffers : List Buffer) → unused buffers false ≡ false
unused-false [] = refl
unused-false (_ ∷ _) = refl

runs-holds :
    (b : Build) (ops : List Op) (buffers : List Buffer) (args : List (Option ℕ)) (name : Bool)
    → unused buffers name ≡ false
    → {h : Held} → runs b ops buffers (holds b (live buffers) args name) ≡ some ([], h)
    → (after : List (Option ℕ)) × (h ≡ holds b 0 after false)
runs-holds b [] [] args name unnamed {h} e =
    let same : holds b 0 args name ≡ h = cc e in (args, sym same ∙ ap (holds b 0 args) unnamed)
runs-holds b [] (buffer ∷ buffers) args name unnamed e = absurd (cc e)
runs-holds b (get sys size ∷ ops) buffers args name unnamed e =
    let (after, name_after, held) = get-holds b sys size (live buffers) args name in
    let got = shared_memory_get b sys size (holds b (live buffers) args name) in
    runs-holds b ops (got.0 ∷ buffers) after name_after refl
      (ap (runs b ops (got.0 ∷ buffers)) (sym held) ∙ e)
runs-holds b (remove i ∷ ops) buffers args name unnamed e = elim (take_out-cases i buffers) [
  | inl out ↦ absurd (cc (rw (out, runs) at e))
  | inr (buffer, rest, out, counts) ↦
      let left = remove-holds b buffer (live rest) args name in
      let e2 = rw (out, counts, left, runs) at e in
      runs-holds b ops rest args false (unused-false rest) e2
]

exit_calls_shmget :
    (args noted : List (Option ℕ))
    → exit_calls shmget args (record nothing { segments = ids args; at_exit = noted }) ≡ nothing
unfolding exit_calls shared_memory_destroy
exit_calls_shmget [] noted = refl
exit_calls_shmget (none ∷ args) noted = exit_calls_shmget args noted
exit_calls_shmget (some id ∷ args) noted =
    let same : (id == id) ≡ true = (==_iff id id).1 refl in rw same (exit_calls_shmget args noted)

exits-holds : (b : Build) (args : List (Option ℕ)) → exits b (holds b 0 args false) ≡ nothing
unfolding exit_calls shared_memory_destroy
exits-holds pthread args = refl
exits-holds librt args = refl
exits-holds shmget args = exit_calls_shmget args args

starts : (b : Build) → nothing ≡ holds b 0 [] false
starts pthread = refl
starts librt = refl
starts shmget = refl

-- In each build, whatever buffers are got and removed, in any order, and whatever the system answers:
-- if nothing was held before, and each buffer that SharedMemoryGet has returned is removed, also one
-- that is NULL or (char *)-1, then nothing is held at the exit of the program, and no name is left.
pub exits-runs :
    (b : Build) (ops : List Op) {h : Held}
    → runs b ops [] nothing ≡ some ([], h)
    → exits b h ≡ nothing
exits-runs b ops e =
    let (args, held) =
      runs-holds b ops [] [] false refl (ap (runs b ops []) (sym (starts b)) ∙ e) in
    ap (exits b) held ∙ exits-holds b args
