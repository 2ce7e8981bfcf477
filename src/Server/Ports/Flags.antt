-- ===== src/Server/Ports/Flags.antt =====
-- The bit operations on the flags of ports.h, over the eight values that occur.
use diald_top.Base.{
  ℕ, ◌<◌, ◌≡◌, refl, Bool, true, false, ◌&&◌, arith, ltb, all_below, all_below_sound,
}
use diald_top.Server.Ports.{flag_read, flag_write, flag_monitor, has_flag, raise, lower}

abbrev eqb : Bool → Bool → Bool
eqb true true = true
eqb true false = false
eqb false true = false
eqb false false = true

-- `g` is `f` but for the monitor flag, which is `on`.
pub record Toggled (on : Bool) (f g : ℕ) : Type 0 where
  pub monitor : has_flag g flag_monitor ≡ on
  pub write : has_flag g flag_write ≡ has_flag f flag_write
  pub read : has_flag g flag_read ≡ has_flag f flag_read
  pub plain : g < 8

abbrev toggled : Bool → ℕ → ℕ → Bool
toggled on f g =
    eqb (has_flag g flag_monitor) on
    && eqb (has_flag g flag_write) (has_flag f flag_write)
    && eqb (has_flag g flag_read) (has_flag f flag_read)
    && ltb g 8

Toggled-of : (on : Bool) (f g : ℕ) → toggled on f g ≡ true → Toggled on f g
Toggled-of on f g h = record {
  monitor = ground arith;
  write = ground arith;
  read = ground arith;
  plain = ground arith;
}

raise_table : all_below 8 (λ f. toggled true f (raise f flag_monitor)) ≡ true
unfolding all_below has_flag raise
raise_table = refl

lower_table : all_below 8 (λ f. toggled false f (lower f flag_monitor)) ≡ true
unfolding all_below has_flag lower
lower_table = refl

pub raise-Toggled : (f : ℕ) → f < 8 → Toggled true f (raise f flag_monitor)
raise-Toggled f h = Toggled-of true f _ (all_below_sound 8 _ f raise_table h)

pub lower-Toggled : (f : ℕ) → f < 8 → Toggled false f (lower f flag_monitor)
lower-Toggled f h = Toggled-of false f _ (all_below_sound 8 _ f lower_table h)

-- `g` is `f` with the read flag set and the write flag as `may_write` says.
pub record Granted (may_write : Bool) (f g : ℕ) : Type 0 where
  pub monitor : has_flag g flag_monitor ≡ has_flag f flag_monitor
  pub write : has_flag g flag_write ≡ may_write
  pub read : has_flag g flag_read ≡ true
  pub plain : g < 8

abbrev granted : Bool → ℕ → ℕ → Bool
granted may_write f g =
    eqb (has_flag g flag_monitor) (has_flag f flag_monitor)
    && eqb (has_flag g flag_write) may_write
    && has_flag g flag_read
    && ltb g 8

Granted-of : (w : Bool) (f g : ℕ) → granted w f g ≡ true → Granted w f g
Granted-of w f g h = record {
  monitor = ground arith;
  write = ground arith;
  read = ground arith;
  plain = ground arith;
}

-- `flag &= ~(FLAG_READ | FLAG_WRITE)`
abbrev pub without_access : ℕ → ℕ
without_access f = lower f (raise flag_read flag_write)

full_table :
    all_below 8 (λ f. granted true f (raise (without_access f) (raise flag_read flag_write))) ≡ true
unfolding all_below has_flag raise lower
full_table = refl

read_table : all_below 8 (λ f. granted false f (raise (without_access f) flag_read)) ≡ true
unfolding all_below has_flag raise lower
read_table = refl

pub full-Granted :
    (f : ℕ) → f < 8 → Granted true f (raise (without_access f) (raise flag_read flag_write))
full-Granted f h = Granted-of true f _ (all_below_sound 8 _ f full_table h)

pub read-Granted : (f : ℕ) → f < 8 → Granted false f (raise (without_access f) flag_read)
read-Granted f h = Granted-of false f _ (all_below_sound 8 _ f read_table h)
