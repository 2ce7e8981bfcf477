-- ===== src/ClientLib/SharedMemory.antt =====
-- client-lib/shared_memory.c, in its builds: with pthreads, with librt, or with shmget.
pub mod Released
use diald_top.Base.{
  ℕ, zero, suc, ◌-◌, ◌==◌, Bool, true, false, if◌then◌else◌, Option, none, some, List, [], ◌∷◌, ℤ,
  pos, negsuc,
}

pub data Build : Type 0 where
  pthread : Build
  librt : Build
  shmget : Build

-- A pointer: NULL, (char *)-1, or one to memory.
pub data Buffer : Type 0 where
  null : Buffer
  failed : Buffer
  at : ℕ → Buffer

-- What the system answers; `none` is -1. mmap is asked for so many bytes with `fd` and `offset`.
pub record System : Type 0 where
  pub malloc : ℕ → Buffer
  pub shm_open : Option ℕ
  pub mmap : (size : ℕ) → (fd : ℕ) → (offset : ℤ) → Buffer
  pub shmget : ℕ → Option ℕ
  pub shmat : Option ℕ → Buffer

-- What the system holds for the program: blocks of malloc, descriptors, mappings and attachments, by
-- their number; whether "/diald-top" is there; segments of shmget, the latest first, and the arguments
-- of the calls of SharedMemoryDestroy that on_exit has noted.
pub record Held : Type 0 where
  pub blocks : ℕ
  pub fds : ℕ
  pub mapped : ℕ
  pub named : Bool
  pub attached : ℕ
  pub segments : List ℕ
  pub at_exit : List (Option ℕ)

-- A call that returns this adds memory to as much, and one that is given it takes it away.
abbrev pub one_more : Buffer → ℕ → ℕ
one_more null n = n
one_more failed n = n
one_more (at _) n = suc n

abbrev pub one_less : Buffer → ℕ → ℕ
one_less null n = n
one_less failed n = n
one_less (at _) n = n - 1

-- shm_open with O_CREAT, on what it returns, and close.
abbrev pub opens : Option ℕ → Held → Held
opens none h = h
opens (some fd) h = record h { named = true; fds = suc h.fds }

abbrev pub closes : Option ℕ → Held → Held
closes none h = h
closes (some fd) h = record h { fds = h.fds - 1 }

abbrev pub as_off_t : Option ℕ → ℤ
as_off_t none = negsuc 0
as_off_t (some fd) = pos fd

abbrev pub allocates : Option ℕ → Held → Held
allocates none h = h
allocates (some fd) h = record h { segments = fd ∷ h.segments }

-- SharedMemoryGet. The code gives mmap the descriptor 0, and `fd` as the offset.
unfoldable pub shared_memory_get : Build → System → (size : ℕ) → Held → Buffer × Held
shared_memory_get pthread sys size h =
    (sys.malloc size, record h { blocks = one_more (sys.malloc size) h.blocks })
shared_memory_get librt sys size h =
    let fd = sys.shm_open in
    let buffer = sys.mmap size 0 (as_off_t fd) in
    let u = opens fd h in (buffer, closes fd (record u { mapped = one_more buffer u.mapped }))
shared_memory_get shmget sys size h =
    let fd = sys.shmget size in
    let buffer = sys.shmat fd in
    let u = allocates fd h in
    (buffer, record u { attached = one_more buffer u.attached; at_exit = fd ∷ u.at_exit })

-- SharedMemoryRemove: free; or munmap and shm_unlink; or shmdt.
unfoldable pub shared_memory_remove : Build → Buffer → Held → Held
shared_memory_remove pthread buffer h = record h { blocks = one_less buffer h.blocks }
shared_memory_remove librt buffer h = record h { mapped = one_less buffer h.mapped; named = false }
shared_memory_remove shmget buffer h = record h { attached = one_less buffer h.attached }

-- The segments without the first of this id: shmctl with IPC_RMID.
abbrev pub shmctl_rmid : Option ℕ → List ℕ → List ℕ
shmctl_rmid none segments = segments
shmctl_rmid (some id) [] = []
shmctl_rmid (some id) (segment ∷ segments) =
    if id == segment then segments else segment ∷ shmctl_rmid (some id) segments

-- SharedMemoryDestroy, on its second argument.
unfoldable pub shared_memory_destroy : Build → Option ℕ → Held → Held
shared_memory_destroy pthread arg h = h
shared_memory_destroy librt arg h = h
shared_memory_destroy shmget arg h = record h { segments = shmctl_rmid arg h.segments }

-- The exit of the program: what on_exit has noted, the latest first.
unfoldable pub exit_calls : Build → List (Option ℕ) → Held → Held
unfolding shared_memory_destroy
exit_calls b [] h = record h { at_exit = [] }
exit_calls b (arg ∷ args) h = exit_calls b args (shared_memory_destroy b arg h)

abbrev pub exits : Build → Held → Held
exits b h = exit_calls b h.at_exit h
