-- ===== src/Server/Select/Deliver.antt =====
-- The loop body of demux_fds on one set: the rounds that deliver, and those that pass.
use native.Mathlib.Decide.{dec_le}
use diald_top.Base.{ℕ, zero, suc, ◌<◌, ◌≤◌, ◌≡◌, refl, true, false, ◌&&◌, arith, pos}
use diald_top.Server.Fds.{FdSet, ThreadFds}
use diald_top.Server.Select.{deliver, clear_sel}
use diald_top.Server.Select.Mux.{card}

abbrev pub both : FdSet → FdSet → FdSet
both a b = λ i. a i && b i

-- `t'` is `t` with the members of `ready` below `n` that are its own delivered.
pub record DeliveredBelow (n : ℕ) (ready : FdSet) (t t' : ThreadFds) : Type 0 where
  pub below : (i : ℕ) → i < n → t'.sel i ≡ both ready t.full i
  pub above : (i : ℕ) → n ≤ i → t'.sel i ≡ false
  pub counted : t'.selcount ≡ pos (card n (both ready t.full))
  pub full : t'.full ≡ t.full
  pub fullcount : t'.fullcount ≡ t.fullcount
  pub maxfd : t'.maxfd ≡ t.maxfd

pub start-DeliveredBelow : (ready : FdSet) (t : ThreadFds) → DeliveredBelow 0 ready t (clear_sel t)
unfolding card
start-DeliveredBelow ready t = record {
  below = λ i h. absurd (omega arith);
  above = λ i h. refl;
  counted = refl;
  full = refl;
  fullcount = refl;
  maxfd = refl;
}

pub deliver-DeliveredBelow :
    (ready : FdSet) (n : ℕ) {t t' : ThreadFds}
    → ready n ≡ true
    → DeliveredBelow n ready t t'
    → DeliveredBelow (suc n) ready t (deliver n t')
unfolding card
deliver-DeliveredBelow ready n {t} {t'} hit h =
    let same : t'.full n ≡ t.full n = ground (arith, h.full) in
    record {
      below = λ i. ground (arith, h.below i, h.above i);
      above = λ i. ground (arith, h.above i);
      counted = ground (arith, h.counted);
      full = ground (arith, h.full);
      fullcount = ground (arith, h.fullcount);
      maxfd = ground (arith, h.maxfd);
    }

pub skip-DeliveredBelow :
    (ready : FdSet) (n : ℕ) {t t' : ThreadFds}
    → ready n ≡ false
    → DeliveredBelow n ready t t'
    → DeliveredBelow (suc n) ready t t'
unfolding card
skip-DeliveredBelow ready n {t} {t'} miss h = record {
  below = λ i. ground (arith, h.below i, h.above i);
  above = λ i. ground (arith, h.above i);
  counted = ground (arith, h.counted);
  full = h.full;
  fullcount = h.fullcount;
  maxfd = h.maxfd;
}

pub card_mono : (j n : ℕ) (set : FdSet) → j ≤ n → card j set ≤ card n set
unfolding card
card_mono j zero set h = ground arith
card_mono j (suc n) set h = elim (dec_le j n) [
  | yes p ↦ omega (arith, card_mono j n set p)
  | no p ↦ let e : j ≡ suc n = omega arith in rw e (omega arith)
]

-- Where no member of `ready` is left from `j` on, the rounds up to `n` would deliver nothing.
pub finish-DeliveredBelow :
    (ready : FdSet) (j n : ℕ) {t t' : ThreadFds}
    → j ≤ n
    → card n ready ≤ card j ready
    → DeliveredBelow j ready t t'
    → DeliveredBelow n ready t t'
unfolding card
finish-DeliveredBelow ready j zero le c h = let e : j ≡ zero = omega arith in rw e at h
finish-DeliveredBelow ready j (suc n) le c h = elim (dec_le j n) [
  | no p ↦ let e : j ≡ suc n = omega arith in rw e at h
  | yes p ↦
      let miss : ready n ≡ false = ground (arith, card_mono j n ready p) in
      skip-DeliveredBelow ready n miss
        (finish-DeliveredBelow ready j n p (omega (arith, card_mono j n ready p)) h)
]
