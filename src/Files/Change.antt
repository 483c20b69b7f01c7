-- ===== src/Files/Change.antt =====
-- One reference more or less, and the objects' counts.
use bored_os.Base.{
  ℕ, ◌+◌, ◌-◌, ◌<◌, ◌≤◌, ◌≡◌, refl, sym, ap, ◌≢◌, true, false, Option, none, some, arith,
  ℕ_discrete, Bool-cases, Option-cases, inl, inr,
}
use mathlib.Core.Path.{subst, fun_ext}
use bored_os.Base.Arrays.{update, update_at, update_ne}
use bored_os.Files.{
  Kind, no_kind, file, pipe_read, pipe_write, tty, socket, Slot, Object, is_counted, Objects,
  put_more, put_less, addref, release,
}
use bored_os.Files.Count.{one, FitsAt, Counted, of_kind, more-fits, less-fits}

one-none : (k : Kind) (a : ℕ) (x : Slot) → x.object ≡ none → one k a x ≡ 0
unfolding one
one-none k a x e = rw (e, one) refl

pub one_here : (k : Kind) (a : ℕ) (x : Slot) → x.object ≡ some a → one k a x ≡ of_kind k x.kind
unfolding one
one_here k a x e = ground arith

pub one_there : (k : Kind) (a b : ℕ) (x : Slot) → x.object ≡ some b → b ≢ a → one k a x ≡ 0
unfolding one
one_there k a b x e ne = ground arith

uncounted : (j k : Kind) → is_counted k ≡ false → of_kind j k ≡ 0
uncounted no_kind k h = refl
uncounted tty k h = refl
uncounted file k h = ground arith
uncounted pipe_read k h = ground arith
uncounted pipe_write k h = ground arith
uncounted socket k h = ground arith

one_uncounted : (k : Kind) (a : ℕ) (x : Slot) → is_counted x.kind ≡ false → one k a x ≡ 0
unfolding one
one_uncounted k a x e = ground (arith, uncounted k x.kind e)

self_kind : (k : Kind) → is_counted k ≡ true → of_kind k k ≡ 1
self_kind no_kind e = absurd (cc)
self_kind tty e = absurd (cc)
self_kind file e = refl
self_kind pipe_read e = refl
self_kind pipe_write e = refl
self_kind socket e = refl

pub Counted-eq :
    (objects : Objects) (c d : Kind → ℕ → ℕ)
    → ((k : Kind) (a : ℕ) → c k a ≡ d k a)
    → Counted objects c
    → Counted objects d
Counted-eq objects c d e h = subst (Counted objects) (fun_ext (λ k. fun_ext (λ a. e k a))) h

-- One object changes, and only the numbers that belong to it.
pub Counted-update :
    (objects : Objects) (c d : Kind → ℕ → ℕ) (b : ℕ) (o : Option Object)
    → Counted objects c
    → FitsAt o (λ k. d k b)
    → ((k : Kind) (a : ℕ) → b ≢ a → d k a ≡ c k a)
    → Counted (update objects b o) d
Counted-update objects c d b o h here there a = elim (ℕ_discrete b a) [
  | yes e ↦
      subst (λ a'. FitsAt (update objects b o a') (λ k. d k a')) e
        (subst (λ o'. FitsAt o' (λ k. d k b)) (sym (update_at objects b b o refl)) here)
  | no ne ↦
      subst (λ o'. FitsAt o' (λ k. d k a)) (sym (update_ne objects b a o ne))
        (subst (FitsAt (objects a)) (fun_ext (λ k. sym (there k a ne))) (h a))
]

module _ (objects : Objects) (x : Slot) (c : Kind → ℕ → ℕ) (h : Counted objects c)
    (among : (k : Kind) (a : ℕ) → one k a x ≤ c k a)
    (small : (k : Kind) (a : ℕ) → c k a < 2147483647) where
  -- Another descriptor like `x`, which is among those that `c` counts.
  pub addref-Counted :
      (objects' : Objects) × (addref objects x ≡ some objects')
      × Counted objects' (λ k a. c k a + one k a x)
  unfolding addref put_more
  addref-Counted = elim (Option-cases x.object) [
    | inl e ↦ (
      objects,
      rw (e, addref) refl,
      Counted-eq objects c (λ k a. c k a + one k a x) (λ k a. omega (arith, one-none k a x e)) h,
    )
    | inr (b, e) ↦ elim (Bool-cases (is_counted x.kind)) [
      | inl q ↦
          let some_use : 0 < c x.kind b =
            omega (arith, among x.kind b, one_here x.kind b x e, self_kind x.kind q) in
          let (o', m, f) =
            more-fits x.kind (objects b) (λ k. c k b) q some_use (λ k. small k b) (h b) in
          (
            update objects b (some o'),
            rw (e, addref, q, m) refl,
            Counted-update objects c (λ k a. c k a + one k a x) b (some o') h
                (subst (FitsAt (some o'))
                  (fun_ext (λ k. ap (λ n. c k b + n) (sym (one_here k b x e)))) f)
                (λ k a ne. omega (arith, one_there k a b x e ne)),
          )
      | inr q ↦ (
        objects,
        rw (e, addref, q) refl,
        Counted-eq objects c (λ k a. c k a + one k a x)
            (λ k a. omega (arith, one_uncounted k a x q)) h,
      )
    ]
  ]

  -- The end of `x`.
  pub release-Counted :
      (objects' : Objects) × (release objects x ≡ some objects')
      × Counted objects' (λ k a. c k a - one k a x)
  unfolding release put_less
  release-Counted = elim (Option-cases x.object) [
    | inl e ↦ (
      objects,
      rw (e, release) refl,
      Counted-eq objects c (λ k a. c k a - one k a x) (λ k a. omega (arith, one-none k a x e)) h,
    )
    | inr (b, e) ↦ elim (Bool-cases (is_counted x.kind)) [
      | inl q ↦
          let some_use : 0 < c x.kind b =
            omega (arith, among x.kind b, one_here x.kind b x e, self_kind x.kind q) in
          let (o', m, f) =
            less-fits x.kind (objects b) (λ k. c k b) q some_use (λ k. small k b) (h b) in
          (
            update objects b o',
            rw (e, release, q, m) refl,
            Counted-update objects c (λ k a. c k a - one k a x) b o' h
                (subst (FitsAt o') (fun_ext (λ k. ap (λ n. c k b - n) (sym (one_here k b x e)))) f)
                (λ k a ne. omega (arith, one_there k a b x e ne)),
          )
      | inr q ↦ (
        objects,
        rw (e, release, q) refl,
        Counted-eq objects c (λ k a. c k a - one k a x)
            (λ k a. omega (arith, one_uncounted k a x q)) h,
      )
    ]
  ]
