-- ===== src/Files/Count.antt =====
-- How many descriptors refer to an object, and what that says of the object.
use bored_os.Base.{
  ℕ, ◌+◌, ◌-◌, ◌%◌, ◌<◌, ◌≡◌, refl, ap, Bool, true, false, Option, none, some, List, [], ◌∷◌, ◌==◌,
  ◌&&◌, if◌then◌else◌, arith, ◌⊎◌, ℕ_discrete, inl, inr,
}
use bored_os.Files.{
  Kind, no_kind, file, pipe_read, pipe_write, tty, socket, Slot, Table, Object, file_ref,
  pipe_state, socket_state, is_counted, one_more, one_less, kept_pipe, Objects, more_at, less_at,
}
use bored_os.Files.Pipe.{Pipe}

abbrev pub is_kind : Kind → Kind → Bool
is_kind file file = true
is_kind pipe_read pipe_read = true
is_kind pipe_write pipe_write = true
is_kind socket socket = true
is_kind _ _ = false

-- Whether a descriptor refers to `a` as an object of the kind, as a number.
unfoldable pub one : Kind → ℕ → Slot → ℕ
one k a x = elim x.object [ none ↦ 0 | some b ↦ if is_kind k x.kind && b == a then 1 else 0 ]

unfoldable pub uses : Kind → ℕ → Table → ℕ
uses k a [] = 0
uses k a (x ∷ t) = one k a x + uses k a t

-- How many descriptors of all processes refer to `a` as an object of the kind.
unfoldable pub total : Kind → ℕ → List Table → ℕ
total k a [] = 0
total k a (t ∷ ts) = uses k a t + total k a ts

-- An object, against the numbers of descriptors that refer to it as a file, as the reading end of a
-- pipe, as its writing end and as a socket: where there is none, nothing refers to it, and
-- otherwise something does, and its counts are those numbers.
abbrev pub Fits : Option Object → ℕ → ℕ → ℕ → ℕ → Type 0
Fits none f r w s = (f ≡ 0) × (r ≡ 0) × (w ≡ 0) × (s ≡ 0)
Fits (some (file_ref n)) f r w s = (n ≡ f) × (0 < f) × (r ≡ 0) × (w ≡ 0) × (s ≡ 0)
Fits (some (pipe_state p)) f r w s =
    (f ≡ 0) × (p.readers ≡ r) × (p.writers ≡ w) × (0 < r + w) × (s ≡ 0)
Fits (some (socket_state n)) f r w s = (f ≡ 0) × (r ≡ 0) × (w ≡ 0) × (n ≡ s) × (0 < s)

abbrev pub FitsAt : Option Object → (Kind → ℕ) → Type 0
FitsAt o c = Fits o (c file) (c pipe_read) (c pipe_write) (c socket)

abbrev pub Counted : Objects → (Kind → ℕ → ℕ) → Type 0
Counted objects c = (a : ℕ) → FitsAt (objects a) (λ k. c k a)

abbrev pub of_kind : Kind → Kind → ℕ
of_kind j k = if is_kind j k then 1 else 0

-- A reference more to an object that has one.
pub more-fits :
    (k : Kind) (o : Option Object) (c : Kind → ℕ)
    → is_counted k ≡ true
    → 0 < c k
    → ((j : Kind) → c j < 2147483647)
    → FitsAt o c
    → (o' : Object) × (more_at k o ≡ some o') × FitsAt (some o') (λ j. c j + of_kind j k)
unfolding one_more
more-fits no_kind o c e h b f = absurd (cc)
more-fits tty o c e h b f = absurd (cc)
more-fits file none c e h b f = absurd (omega arith)
more-fits file (some (file_ref n)) c e h b f =
    let q = b file in (file_ref ((n + 1) % 4294967296), refl, omega arith)
more-fits file (some (pipe_state p)) c e h b f = absurd (omega arith)
more-fits file (some (socket_state n)) c e h b f = absurd (omega arith)
more-fits pipe_read none c e h b f = absurd (omega arith)
more-fits pipe_read (some (file_ref n)) c e h b f = absurd (omega arith)
more-fits pipe_read (some (pipe_state p)) c e h b f =
    let q = b pipe_read in
    (pipe_state (record p { readers = (p.readers + 1) % 4294967296 }), refl, omega arith)
more-fits pipe_read (some (socket_state n)) c e h b f = absurd (omega arith)
more-fits pipe_write none c e h b f = absurd (omega arith)
more-fits pipe_write (some (file_ref n)) c e h b f = absurd (omega arith)
more-fits pipe_write (some (pipe_state p)) c e h b f =
    let q = b pipe_write in
    (pipe_state (record p { writers = (p.writers + 1) % 4294967296 }), refl, omega arith)
more-fits pipe_write (some (socket_state n)) c e h b f = absurd (omega arith)
more-fits socket none c e h b f = absurd (omega arith)
more-fits socket (some (file_ref n)) c e h b f = absurd (omega arith)
more-fits socket (some (pipe_state p)) c e h b f = absurd (omega arith)
more-fits socket (some (socket_state n)) c e h b f =
    let q = b socket in (socket_state ((n + 1) % 4294967296), refl, omega arith)

kept_pipe_lem :
    (p : Pipe)
    → p.readers < 2147483648
    → p.writers < 2147483648
    → ((kept_pipe p ≡ none) × (p.readers + p.writers ≡ 0))
      ⊎ ((kept_pipe p ≡ some (pipe_state p)) × (0 < p.readers + p.writers))
unfolding kept_pipe
kept_pipe_lem p h k = ground arith

-- The object of a descriptor that is closed.
pub less-fits :
    (k : Kind) (o : Option Object) (c : Kind → ℕ)
    → is_counted k ≡ true
    → 0 < c k
    → ((j : Kind) → c j < 2147483647)
    → FitsAt o c
    → (o' : Option Object) × (less_at k o ≡ some o') × FitsAt o' (λ j. c j - of_kind j k)
unfolding one_less
less-fits no_kind o c e h b f = absurd (cc)
less-fits tty o c e h b f = absurd (cc)
less-fits file none c e h b f = absurd (omega arith)
less-fits file (some (file_ref n)) c e h b f = elim (ℕ_discrete n 1) [
  | yes q ↦ (none, ground arith, omega arith)
  | no q ↦
      let w = b file in (some (file_ref ((n + 4294967295) % 4294967296)), ground arith, omega arith)
]
less-fits file (some (pipe_state p)) c e h b f = absurd (omega arith)
less-fits file (some (socket_state n)) c e h b f = absurd (omega arith)
less-fits pipe_read none c e h b f = absurd (omega arith)
less-fits pipe_read (some (file_ref n)) c e h b f = absurd (omega arith)
less-fits pipe_read (some (pipe_state p)) c e h b f =
    let p' = record p { readers = (p.readers + 4294967295) % 4294967296 } in
    let v = b pipe_read in
    let w = b pipe_write in
    elim (kept_pipe_lem p' (omega arith) (omega arith)) [
      | inl (q, z) ↦ (none, ap some q, omega arith)
      | inr (q, z) ↦ (some (pipe_state p'), ap some q, omega arith)
    ]
less-fits pipe_read (some (socket_state n)) c e h b f = absurd (omega arith)
less-fits pipe_write none c e h b f = absurd (omega arith)
less-fits pipe_write (some (file_ref n)) c e h b f = absurd (omega arith)
less-fits pipe_write (some (pipe_state p)) c e h b f =
    let p' = record p { writers = (p.writers + 4294967295) % 4294967296 } in
    let v = b pipe_read in
    let w = b pipe_write in
    elim (kept_pipe_lem p' (omega arith) (omega arith)) [
      | inl (q, z) ↦ (none, ap some q, omega arith)
      | inr (q, z) ↦ (some (pipe_state p'), ap some q, omega arith)
    ]
less-fits pipe_write (some (socket_state n)) c e h b f = absurd (omega arith)
less-fits socket none c e h b f = absurd (omega arith)
less-fits socket (some (file_ref n)) c e h b f = absurd (omega arith)
less-fits socket (some (pipe_state p)) c e h b f = absurd (omega arith)
less-fits socket (some (socket_state n)) c e h b f = elim (ℕ_discrete n 1) [
  | yes q ↦ (none, ground arith, omega arith)
  | no q ↦
      let w = b socket in
      (some (socket_state ((n + 4294967295) % 4294967296)), ground arith, omega arith)
]
