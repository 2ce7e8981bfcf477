-- ===== src/Server/Ports.antt =====
-- server/ports.h: a connected client, and its flags.
pub mod Flags
use diald_top.Base.{
  ℕ, ◌-◌, Bool, true, false, ◌&&◌, ◌==◌, if◌then◌else◌, Option, none, some, List, bit_and, bit_or,
}

abbrev pub flag_read : ℕ
flag_read = 0x1

abbrev pub flag_write : ℕ
flag_write = 0x2

abbrev pub flag_monitor : ℕ
flag_monitor = 0x4

-- `~x` of an `unsigned int`
abbrev pub complement : ℕ → ℕ
complement x = 0xffff_ffff - x

-- `flag & bits`, as a condition
unfoldable pub has_flag : ℕ → ℕ → Bool
has_flag flag bits = if bit_and flag bits == 0 then false else true

-- `flag |= bits` and `flag &= ~bits`
unfoldable pub raise : ℕ → ℕ → ℕ
raise flag bits = bit_or flag bits

unfoldable pub lower : ℕ → ℕ → ℕ
lower flag bits = bit_and flag (complement bits)

-- `struct sockaddr_in`, addresses and ports in network order.
pub record SockAddr : Type 0 where
  pub family : ℕ
  pub port : ℕ
  pub addr : ℕ

-- A string from strdup: where it stands, and its bytes.
pub record CString : Type 0 where
  pub at : ℕ
  pub text : List ℕ

-- `port_t`. `userid` is `none` for NULL.
pub record Port : Type 0 where
  pub fd : ℕ
  pub sa : SockAddr
  pub flag : ℕ
  pub userid : Option CString

abbrev same_addr : SockAddr → SockAddr → Bool
same_addr a b = (a.family == b.family) && (a.port == b.port) && (a.addr == b.addr)

-- Two pointers to strings: memcmp compares the pointers, not what they point to.
abbrev same_pointer : Option CString → Option CString → Bool
same_pointer none none = true
same_pointer none (some t) = false
same_pointer (some s) none = false
same_pointer (some s) (some t) = s.at == t.at

-- `memcmp(p, q, sizeof(port_t)) == 0`
unfoldable pub same_port : Port → Port → Bool
same_port p q =
    (p.fd == q.fd) && same_addr p.sa q.sa && (p.flag == q.flag) && same_pointer p.userid q.userid
