-- ===== src/Sockbuf/Tests.antt =====
-- Runs of net/sockbuf.c on packets that are lists of bytes, cut off after 65535.
use bored_os.Base.{
  false, ℕ, ◌+◌, ◌<◌, ◌≡◌, refl, true, none, List, [], ◌∷◌, ◌++◌, arith, leb, if◌then◌else◌, length,
  take, drop, length-drop,
}
use bored_os.Base.Int.{pos, negsuc}
use bored_os.Sockbuf.{Pbufs, Sockbuf, append, read}
use bored_os.Sockbuf.Stream.{stream, IsValid, Reads, read_lem, append_lem}

-- A packet with its bound.
abbrev Packet : Type 0
Packet = (bytes : List ℕ) × (length bytes < 65536)

abbrev dropped : Packet → ℕ → Packet
dropped p n = (drop n p.0, omega (arith, length-drop n p.0, p.1))

abbrev packets_of_bytes : Pbufs
packets_of_bytes = record {
  Pbuf = Packet;
  payload = λ p. p.0;
  tot_len = λ p. length p.0;
  copy_partial = λ p n. take n p.0;
  free_header = dropped;
  tot_len_lem = λ p. refl;
  tot_len_small = λ p. p.1;
  copy_partial_lem = λ p n. refl;
  free_header_lem = λ p n. refl;
}

abbrev greeting : Packet
greeting = (1 ∷ 2 ∷ 3 ∷ [], omega arith)

abbrev filled : Sockbuf packets_of_bytes
filled = record {
  cc = 3;
  hiwat = 4;
  lowat = 1;
  flags = 0;
  entries = record { p = greeting; src_ip = 0; src_port = 0 } ∷ [];
}

filled-IsValid : IsValid packets_of_bytes filled
unfolding stream
filled-IsValid = record { counted = refl; within = omega arith; small = omega arith }

read_lem_example :
    Reads packets_of_bytes filled 2
      ((read packets_of_bytes filled 2).0, (read packets_of_bytes filled 2).1)
read_lem_example = read_lem packets_of_bytes filled 2 filled-IsValid

append_lem_example :
    IsValid packets_of_bytes (append packets_of_bytes true filled greeting none 0).0
    × (stream packets_of_bytes (append packets_of_bytes true filled greeting none 0).0.entries ≡ (
        if leb (3 + length greeting.0) 4
        then stream packets_of_bytes filled.entries ++ greeting.0
        else stream packets_of_bytes filled.entries))
    × ((append packets_of_bytes true filled greeting none 0).1
        ≡ (if leb (3 + length greeting.0) 4 then pos 0 else negsuc 0))
    × ((append packets_of_bytes true filled greeting none 0).2 ≡ leb (3 + length greeting.0) 4)
    × (leb (3 + length greeting.0) 4 ≡ false
        → (append packets_of_bytes true filled greeting none 0).0 ≡ filled)
append_lem_example = append_lem packets_of_bytes filled greeting none 0 filled-IsValid
