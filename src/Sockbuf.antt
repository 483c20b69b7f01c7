-- ===== src/Sockbuf.antt =====
-- net/sockbuf.c: the receive buffer of a socket, a queue of packets with a byte count.
-- Packets are lwIP's: `Pbufs` says what the code relies on. The linked list of entries is a list,
-- first entry first; each function runs under the buffer's lock.
pub mod Stream
mod Tests
use bored_os.Base.{
  ℕ, zero, suc, ◌+◌, ◌-◌, ◌*◌, ◌%◌, ◌^◌, ◌<◌, ◌≤◌, ◌≡◌, Bool, true, false, Option, none, some, List,
  [], ◌∷◌, ◌++◌, ltb, leb, ◌==◌, not, if◌then◌else◌, length, take, drop,
}
use bored_os.Base.Int.{ℤ, pos, negsuc}

-- lwIP's packet buffers (net/third_party/lwip): a packet is a run of at most 65535 bytes.
pub record Pbufs : Type 1 where
  pub Pbuf : Type 0
  pub payload : Pbuf → List ℕ
  -- `p->tot_len`
  pub tot_len : Pbuf → ℕ
  -- `pbuf_copy_partial(p, buf, len, 0)`: the bytes that reach `buf`.
  pub copy_partial : Pbuf → ℕ → List ℕ
  -- `pbuf_free_header(p, size)`
  pub free_header : Pbuf → ℕ → Pbuf
  pub tot_len_lem : (p : Pbuf) → tot_len p ≡ length (payload p)
  pub tot_len_small : (p : Pbuf) → tot_len p < 2 ^ 16
  pub copy_partial_lem : (p : Pbuf) (n : ℕ) → copy_partial p n ≡ take n (payload p)
  pub free_header_lem : (p : Pbuf) (n : ℕ) → payload (free_header p n) ≡ drop n (payload p)

abbrev pub u32 : ℕ → ℕ
u32 n = n % 2 ^ 32

abbrev pub u16 : ℕ → ℕ
u16 n = n % 2 ^ 16

-- `(a < b) ? a : b`
abbrev pub smaller : ℕ → ℕ → ℕ
smaller a b = if ltb a b then a else b

-- `ip_addr_set_zero` where the caller gives no address.
abbrev pub address : Option ℕ → ℕ
address none = 0
address (some a) = a

abbrev pub is_nil {ℓ} : {A : Type ℓ} → List A → Bool
is_nil [] = true
is_nil (x ∷ xs) = false

module _ (lw : Pbufs) where
  open lw use {Pbuf, payload, tot_len, copy_partial, free_header}

  -- `sockbuf_entry_t`; an address is a number.
  pub record Entry : Type 0 where
    pub p : Pbuf
    pub src_ip : ℕ
    pub src_port : ℕ

  -- `sockbuf_t`, less its lock
  pub record Sockbuf : Type 0 where
    pub cc : ℕ
    pub hiwat : ℕ
    pub lowat : ℕ
    pub flags : ℕ
    pub entries : List Entry

  -- `sockbuf_init`
  pub init : ℕ → Sockbuf
  init hiwat = record {
    cc = 0;
    hiwat = if hiwat == 0 then 512 * 1024 else hiwat;
    lowat = 1;
    flags = 0;
    entries = [];
  }

  -- The packets of some entries, as `sockbuf_destroy` frees them.
  pub packets : List Entry → List Pbuf
  packets [] = []
  packets (e ∷ es) = e.p ∷ packets es

  -- `sockbuf_destroy`: the packets that are freed, in order.
  pub destroy : Sockbuf → Sockbuf × List Pbuf
  destroy sb = (record sb { cc = 0; entries = [] }, packets sb.entries)

  -- `sockbuf_append`; `memory` says whether `kmalloc` finds room for the entry. The flag says
  -- whether the sleepers are woken.
  pub append : Bool → Sockbuf → Pbuf → Option ℕ → ℕ → Sockbuf × ℤ × Bool
  append false sb p src_ip src_port = (sb, negsuc 0, false)
  append true sb p src_ip src_port =
      if ltb sb.hiwat (u32 (sb.cc + tot_len p)) then (sb, negsuc 0, false) else (
        record sb {
          cc = u32 (sb.cc + tot_len p);
          entries =
              sb.entries ++ record { p = p; src_ip = address src_ip; src_port = src_port } ∷ [];
        },
        pos 0,
        true,
      )

  -- What `sockbuf_read` finds when it peeks: the bytes that are copied.
  pub peek : Sockbuf → ℕ → List ℕ
  peek sb max_len = elim sb.entries [
    | [] ↦ []
    | e ∷ es ↦ copy_partial e.p (smaller (smaller 0xFFFF (smaller max_len (tot_len e.p))) 512)
  ]

  -- The variables of the loop in `sockbuf_read` when it ends.
  pub record Taken : Type 0 where
    pub consumed : List Entry
    pub partial : List ℕ
    pub entries : List Entry
    pub cc : ℕ

  -- `sb->sb_cc` less what is taken.
  abbrev pub less : ℕ → ℕ → ℕ
  less cc n = if leb n cc then cc - n else 0

  -- The loop of `sockbuf_read`, `wanted` bytes being still wanted.
  pub collect : ℕ → ℕ → List Entry → Taken
  collect wanted cc [] = record { consumed = []; partial = []; entries = []; cc = cc }
  collect wanted cc (e ∷ es) =
      let rest = collect (wanted - tot_len e.p) (less cc (tot_len e.p)) es in
      let n = smaller wanted 4096 in
      if wanted == 0
      then record { consumed = []; partial = []; entries = e ∷ es; cc = cc }
      else if leb (tot_len e.p) wanted
      then record rest { consumed = e ∷ rest.consumed }
      else record {
        consumed = [];
        partial = copy_partial e.p n;
        entries = record e { p = free_header e.p n } ∷ es;
        cc = less cc n;
      }

  -- The second loop: the bytes of the packets taken whole.
  pub copied : List Entry → List ℕ
  copied [] = []
  copied (e ∷ es) = copy_partial e.p (tot_len e.p) ++ copied es

  sender : List Entry → Option (ℕ × ℕ)
  sender [] = none
  sender (e ∷ es) = some (e.src_ip, e.src_port)

  -- `sockbuf_read` without peeking: the buffer left, the bytes copied, the sender of the first
  -- packet, and whether the sleepers are woken. The number of bytes is the result.
  pub read : Sockbuf → ℕ → Sockbuf × List ℕ × Option (ℕ × ℕ) × Bool
  read sb max_len =
      if max_len == 0
      then (sb, [], none, false)
      else (let t = collect max_len sb.cc sb.entries in
          let out = copied t.consumed ++ t.partial in
          (record sb { cc = t.cc; entries = t.entries }, out, sender sb.entries, not (is_nil out)))

  -- `sockbuf_is_empty`
  pub is_empty : Sockbuf → Bool
  is_empty sb = is_nil sb.entries

  -- `sockbuf_readable`
  pub readable : Sockbuf → Bool
  readable sb = leb (if ltb 0 sb.lowat then sb.lowat else 1) sb.cc

  -- `sockbuf_writable`
  pub writable : Sockbuf → Bool
  writable sb = ltb sb.cc sb.hiwat

  -- `sockbuf_get_cc`
  pub get_cc : Sockbuf → ℕ
  get_cc sb = sb.cc
