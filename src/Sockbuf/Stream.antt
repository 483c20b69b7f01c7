-- ===== src/Sockbuf/Stream.antt =====
-- A socket's receive buffer as a stream of bytes.
use bored_os.Base.{
  ℕ, ◌+◌, ◌-◌, ◌^◌, ◌≤◌, ◌≡◌, refl, sym, ap, ◌∙◌, true, false, Option, List, [], ◌∷◌, ◌++◌,
  append_assoc, append-nil, arith, ltb, leb, ◌==◌, if◌then◌else◌, length, drop, take-append-drop,
  take-length, length-append, length-take, length-drop, Bool-cases, inl, inr,
}
use bored_os.Base.Int.{pos, negsuc}
use bored_os.Sockbuf.{
  Pbufs, Entry, Sockbuf, Taken, append, read, collect, copied, less, u32, address, smaller,
}

module _ (lw : Pbufs) where
  open lw use {Pbuf, payload, tot_len, copy_partial, free_header}

  -- The bytes that wait in some entries.
  unfoldable pub stream : List (Entry lw) → List ℕ
  stream [] = []
  stream (e ∷ es) = payload e.p ++ stream es

  stream-append : (es fs : List (Entry lw)) → stream (es ++ fs) ≡ stream es ++ stream fs
  unfolding stream
  stream-append [] fs = refl
  stream-append (e ∷ es) fs =
      rw (stream-append es fs) (sym (append_assoc (payload e.p) (stream es) (stream fs)))

  -- The count is the number of bytes that wait, and stays within the high-water mark, which leaves
  -- room for one more packet in 32 bits.
  pub record IsValid (sb : Sockbuf lw) : Type 0 where
    pub counted : sb.cc ≡ length (stream sb.entries)
    pub within : sb.cc ≤ sb.hiwat
    pub small : sb.hiwat ≤ 2 ^ 32 - 2 ^ 16

  copy_whole : (e : Entry lw) → copy_partial e.p (tot_len e.p) ≡ payload e.p
  copy_whole e = rw (lw.copy_partial_lem, lw.tot_len_lem) (take-length (payload e.p))

  -- What the loop of `sockbuf_read` takes and leaves.
  record Collected (wanted cc : ℕ) (es : List (Entry lw)) (t : Taken lw) : Type 0 where
    split : (copied lw t.consumed ++ t.partial) ++ stream t.entries ≡ stream es
    bounded : length (copied lw t.consumed ++ t.partial) ≤ wanted
    counted : cc ≡ length (stream es) → t.cc ≡ length (stream t.entries)

  collect_whole :
      (e : Entry lw) (es : List (Entry lw)) (wanted cc : ℕ) {t : Taken lw}
      → leb (tot_len e.p) wanted ≡ true
      → Collected (wanted - tot_len e.p) (less lw cc (tot_len e.p)) es t
      → Collected wanted cc (e ∷ es) (record t { consumed = e ∷ t.consumed })
  unfolding copied stream
  collect_whole e es wanted cc {t} le c = record {
    split =
        rw (copy_whole e, append_assoc (payload e.p) (copied lw t.consumed) t.partial)
          (append_assoc (payload e.p) (copied lw t.consumed ++ t.partial) (stream t.entries)
            ∙ ap (λ l. payload e.p ++ l) c.split);
    bounded = rw (copy_whole e) (
        ground (
          arith,
          length-append (payload e.p) (copied lw t.consumed),
          length-append (payload e.p ++ copied lw t.consumed) t.partial,
          length-append (copied lw t.consumed) t.partial,
          lw.tot_len_lem e.p,
          c.bounded,
        ));
    counted = λ h.
        c.counted (ground (arith, h, length-append (payload e.p) (stream es), lw.tot_len_lem e.p));
  }

  collect_part :
      (e : Entry lw) (es : List (Entry lw)) (wanted cc : ℕ)
      → leb (tot_len e.p) wanted ≡ false
      → let n = smaller wanted 4096 in
        Collected wanted cc (e ∷ es) (record {
          consumed = [];
          partial = copy_partial e.p n;
          entries = record e { p = free_header e.p n } ∷ es;
          cc = less lw cc n;
        })
  unfolding copied stream
  collect_part e es wanted cc gt = record {
    split = rw (lw.copy_partial_lem, lw.free_header_lem, ← append_assoc, take-append-drop);
    bounded = rw (lw.copy_partial_lem, length-take) (ground arith);
    counted = λ h. ground (
      arith,
      h,
      lw.free_header_lem e.p (smaller wanted 4096),
      length-drop (smaller wanted 4096) (payload e.p),
      lw.tot_len_lem e.p,
      length-append (payload e.p) (stream es),
      length-append (drop (smaller wanted 4096) (payload e.p)) (stream es),
    );
  }

  collect_lem :
      (es : List (Entry lw)) (wanted cc : ℕ) → Collected wanted cc es (collect lw wanted cc es)
  unfolding collect copied stream
  collect_lem [] wanted cc = record { split = refl; bounded = omega arith; counted = λ e. e }
  collect_lem (e ∷ es) wanted cc = elim (Bool-cases (wanted == 0)) [
    | inl stop ↦ rw stop (record { split = refl; bounded = omega arith; counted = λ h. h })
    | inr more ↦ elim (Bool-cases (leb (tot_len e.p) wanted)) [
      | inl whole ↦
          rw (more, whole)
            (collect_whole e es wanted cc whole
              (collect_lem es (wanted - tot_len e.p) (less lw cc (tot_len e.p))))
      | inr part ↦ rw (more, part) (collect_part e es wanted cc part)
    ]
  ]

  tail_shorter : (xs ys zs : List ℕ) → xs ++ ys ≡ zs → length ys ≤ length zs
  tail_shorter xs ys zs e = omega (arith, length-append xs ys, ap length e)

  -- What a call leaves, and what it takes off the front of the stream.
  pub Reads : Sockbuf lw → ℕ → Sockbuf lw × List ℕ → Type 0
  Reads sb n (sb', out) =
      IsValid sb' × (out ++ stream sb'.entries ≡ stream sb.entries) × (length out ≤ n)

  collect_valid :
      (sb : Sockbuf lw) (n : ℕ)
      → IsValid sb
      → let t = collect lw n sb.cc sb.entries in
        Reads sb n (record sb { cc = t.cc; entries = t.entries }, copied lw t.consumed ++ t.partial)
  unfolding Reads
  collect_valid sb n v =
      let t = collect lw n sb.cc sb.entries in
      let c = collect_lem sb.entries n sb.cc in
      let exact = c.counted v.counted in
      let shorter =
        tail_shorter (copied lw t.consumed ++ t.partial) (stream t.entries) (stream sb.entries)
          c.split in
      (
        record {
          counted = exact;
          within = omega (arith, exact, shorter, v.counted, v.within);
          small = v.small;
        },
        c.split,
        c.bounded,
      )

  -- `sockbuf_read` on a valid buffer takes a prefix of the stream, of at most `n` bytes, and leaves
  -- the rest, with the count right.
  pub read_lem :
      (sb : Sockbuf lw) (n : ℕ) → IsValid sb → Reads sb n ((read lw sb n).0, (read lw sb n).1)
  unfolding read
  read_lem sb n v = elim (Bool-cases (n == 0)) [
    | inl e ↦ rw e (unfold Reads in (v, refl, omega arith))
    | inr e ↦ rw e (collect_valid sb n v)
  ]

  no_wrap :
      (sb : Sockbuf lw) (p : Pbuf)
      → IsValid sb
      → u32 (sb.cc + tot_len p) ≡ sb.cc + length (payload p)
  no_wrap sb p v = omega (arith, lw.tot_len_lem p, lw.tot_len_small p, v.within, v.small)

  stream_snoc :
      (es : List (Entry lw)) (e : Entry lw) → stream (es ++ e ∷ []) ≡ stream es ++ payload e.p
  unfolding stream
  stream_snoc es e = stream-append es (e ∷ []) ∙ ap (λ l. stream es ++ l) (append-nil (payload e.p))

  -- `sockbuf_append` on a valid buffer, if there is memory: a packet that fits under the high-water
  -- mark goes to the end of the stream, the count stays right, and sleepers are woken; one that
  -- does not fit is refused with -1 and changes nothing.
  pub append_lem :
      (sb : Sockbuf lw) (p : Pbuf) (src_ip : Option ℕ) (src_port : ℕ)
      → IsValid sb
      → let (sb', r, woken) = append lw true sb p src_ip src_port in
        let fits = leb (sb.cc + length (payload p)) sb.hiwat in
        IsValid sb'
        × (stream sb'.entries
            ≡ (if fits then stream sb.entries ++ payload p else stream sb.entries))
        × (r ≡ (if fits then pos 0 else negsuc 0))
        × (woken ≡ fits)
        × (fits ≡ false → sb' ≡ sb)
  unfolding append stream
  append_lem sb p src_ip src_port v = elim (Bool-cases (ltb sb.hiwat (u32 (sb.cc + tot_len p)))) [
    | inl full ↦
        let none_fits : leb (sb.cc + length (payload p)) sb.hiwat ≡ false =
          ground (arith, no_wrap sb p v) in
        rw (full, none_fits) (v, refl, refl, refl, λ e. refl)
    | inr room ↦
        let fits : leb (sb.cc + length (payload p)) sb.hiwat ≡ true =
          ground (arith, no_wrap sb p v) in
        let longer =
          stream_snoc sb.entries (record { p = p; src_ip = address src_ip; src_port = src_port }) in
        rw (room, fits)
          (
            record {
              counted = omega (
                arith,
                no_wrap sb p v,
                ap length longer,
                length-append (stream sb.entries) (payload p),
                v.counted,
              );
              within = ground (arith, no_wrap sb p v);
              small = v.small;
            },
            longer,
            refl,
            refl,
            λ e. absurd (ground arith),
          )
  ]
