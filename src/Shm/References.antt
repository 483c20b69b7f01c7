-- ===== src/Shm/References.antt =====
-- Reference counts of shared memory segments.
use bored_os.Base.{
  ℕ, ◌+◌, ◌-◌, ◌≤◌, ◌<◌, ◌≡◌, refl, sym, ap, ◌∙◌, false, Option, none, some, List, [], ◌∷◌, leb,
  ◌==◌, if◌then◌else◌, arith, Bool-cases, inl, inr, ℕ_discrete, ==-true, ==-false,
}
use bored_os.Base.Arrays.{update, update_at}
use bored_os.Shm.{
  Segment, Shm, find, new_segment, create_at, found_or_new, get_or_create, hold, delist, unref,
  unlink_found, unlink, with_refs, free_segment,
}

-- How often an address is on the list.
unfoldable pub listed : ℕ → List ℕ → ℕ
listed a [] = 0
listed a (b ∷ bs) = (if b == a then 1 else 0) + listed a bs

-- `handles a` counts the handles on segment `a`: a segment's count is that and its place on the
-- list.
abbrev pub IsCounted : Shm → (ℕ → ℕ) → Type 0
IsCounted s handles = (a : ℕ) → (s.segs a).ref_count ≡ handles a + listed a s.list

-- One handle more, and one less.
abbrev pub one_more : Option ℕ → (ℕ → ℕ) → ℕ → ℕ
one_more none handles = handles
one_more (some a) handles = update handles a (handles a + 1)

listed-delist :
    (a b : ℕ) (bs : List ℕ)
    → listed b (delist a bs) ≡ (if a == b then listed b bs - 1 else listed b bs)
unfolding listed delist
listed-delist a b [] = ground arith
listed-delist a b (c ∷ bs) = ground (arith, listed-delist a b bs)

find-listed :
    (segs : ℕ → Segment) (name bs : List ℕ) (a : ℕ) → find segs name bs ≡ some a → 1 ≤ listed a bs
unfolding find listed
find-listed segs name [] a e = ground arith
find-listed segs name (b ∷ bs) a e = ground (arith, find-listed segs name bs a)

refs-update :
    (segs : ℕ → Segment) (a b : ℕ) (seg : Segment)
    → (update segs a seg b).ref_count ≡ (if a == b then seg.ref_count else (segs b).ref_count)
refs-update segs a b seg = ground arith

-- The counts when only segment `a` changes.
counts :
    (s : Shm) (handles handles' : ℕ → ℕ) (a : ℕ) (seg : Segment) (list : List ℕ)
    → IsCounted s handles
    → seg.ref_count ≡ handles' a + listed a list
    → ((b : ℕ) → (a == b) ≡ false → handles' b + listed b list ≡ handles b + listed b s.list)
    → (b : ℕ) → (update s.segs a seg b).ref_count ≡ handles' b + listed b list
counts s handles handles' a seg list c here other b = elim (ℕ_discrete a b) [
  | yes e ↦ let same = ap (λ q. handles' q + listed q list) e in rw (==-true a b e) (here ∙ same)
  | no ne ↦ let apart = ==-false a b ne in rw apart (c b ∙ sym (other b apart))
]

hold-IsCounted :
    (s : Shm) (handles : ℕ → ℕ) (a : ℕ)
    → IsCounted s handles
    → IsCounted (hold s a) (one_more (some a) handles)
unfolding hold
hold-IsCounted s handles a c =
    let here = update_at handles a a (handles a + 1) refl in
    let before = c a in
    counts s handles _ a _ s.list c (omega arith)
      (λ b apart. ap (λ t. (if t then handles a + 1 else handles b) + listed b s.list) apart)

-- `kmalloc` gives no address that a segment with references has.
abbrev pub IsFresh : Shm → Option ℕ → Type 0
IsFresh s none = Unit
IsFresh s (some a) = (s.segs a).ref_count ≡ 0

found_or_new-IsCounted :
    (s : Shm) (handles : ℕ → ℕ) (name : List ℕ) (mem found : Option ℕ)
    → IsFresh s mem
    → IsCounted s handles
    → IsCounted
        (found_or_new s name mem found).0
        (one_more (found_or_new s name mem found).1 handles)
unfolding found_or_new create_at new_segment listed
found_or_new-IsCounted s handles name none none f c = c
found_or_new-IsCounted s handles name (some a) none f c =
    let here = update_at handles a a (handles a + 1) refl in
    let before = c a in
    let self = ==-true a a refl in
    let top = ap (λ t. (if t then 1 else 0) + listed a s.list) self in
    counts s handles _ a (new_segment name) (a ∷ s.list) c (omega arith)
      (λ b apart. rw apart (omega arith))
found_or_new-IsCounted s handles name mem (some a) f c =
    let here = update_at handles a a (handles a + 1) refl in
    let before = c a in
    counts s handles _ a _ s.list c (omega arith)
      (λ b apart. ap (λ t. (if t then handles a + 1 else handles b) + listed b s.list) apart)

get_or_create-IsCounted :
    (s : Shm) (handles : ℕ → ℕ) (name : List ℕ) (mem : Option ℕ)
    → IsFresh s mem
    → IsCounted s handles
    → IsCounted (get_or_create mem s name).0 (one_more (get_or_create mem s name).1 handles)
unfolding get_or_create
get_or_create-IsCounted s handles [] mem f c = c
get_or_create-IsCounted s handles (x ∷ name) mem f c =
    found_or_new-IsCounted s handles (x ∷ name) mem (find s.segs (x ∷ name) s.list) f c

unref-IsCounted :
    (s : Shm) (handles : ℕ → ℕ) (a : ℕ)
    → 1 ≤ handles a
    → IsCounted s handles
    → IsCounted (unref s a) (update handles a (handles a - 1))
unfolding unref
unref-IsCounted s handles a h c = elim (Bool-cases (leb (s.segs a).ref_count 1)) [
  | inl e ↦
      let before = c a in
      let here = update_at handles a a (handles a - 1) refl in
      let few : (s.segs a).ref_count ≤ 1 = ground arith in
      let gone =
        listed-delist a a s.list
        ∙ ap (λ t. if t then listed a s.list - 1 else listed a s.list) (==-true a a refl) in
      rw e (
        counts s handles _ a _ (delist a s.list) c (omega arith) (λ b apart.
          let out =
            listed-delist a b s.list
            ∙ ap (λ t. if t then listed b s.list - 1 else listed b s.list) apart in
          ap (λ t. (if t then handles a - 1 else handles b) + listed b (delist a s.list)) apart
          ∙ ap (λ n. handles b + n) out))
  | inr e ↦
      let before = c a in
      let here = update_at handles a a (handles a - 1) refl in
      rw e (
        counts s handles _ a _ s.list c (omega arith)
          (λ b apart. ap (λ t. (if t then handles a - 1 else handles b) + listed b s.list) apart))
]

unlink_found-IsCounted :
    (s : Shm) (handles : ℕ → ℕ) (a : ℕ)
    → 1 ≤ listed a s.list
    → IsCounted s handles
    → IsCounted (unlink_found s (some a)) handles
unfolding unlink_found
unlink_found-IsCounted s handles a h c =
    let before = c a in
    let gone =
      listed-delist a a s.list
      ∙ ap (λ t. if t then listed a s.list - 1 else listed a s.list) (==-true a a refl) in
    let after : (b : ℕ)
        → (update s.segs a (record (s.segs a) { ref_count = (s.segs a).ref_count - 1 }) b).ref_count
          ≡ handles b + listed b (delist a s.list) =
      counts s handles handles a _ (delist a s.list) c (omega arith) (λ b apart.
        let out =
          listed-delist a b s.list
          ∙ ap (λ t. if t then listed b s.list - 1 else listed b s.list) apart in
        ap (λ n. handles b + n) out) in
    elim (Bool-cases (leb (s.segs a).ref_count 1)) [ inl e ↦ rw e after | inr e ↦ rw e after ]

unlink_any :
    (s : Shm) (handles : ℕ → ℕ) (found : Option ℕ)
    → ((a : ℕ) → found ≡ some a → 1 ≤ listed a s.list)
    → IsCounted s handles
    → IsCounted (unlink_found s found) handles
unfolding unlink_found
unlink_any s handles none f c = c
unlink_any s handles (some a) f c = unlink_found-IsCounted s handles a (f a refl) c

unlink-IsCounted :
    (s : Shm) (handles : ℕ → ℕ) (name : List ℕ)
    → IsCounted s handles
    → IsCounted (unlink s name) handles
unfolding unlink
unlink-IsCounted s handles [] c = c
unlink-IsCounted s handles (x ∷ name) c =
    unlink_any s handles (find s.segs (x ∷ name) s.list)
      (λ a e. find-listed s.segs (x ∷ name) s.list a e) c

-- The states that calls of open, hold, close and unlink reach, with the handles then held. A
-- segment is closed only through a handle, and opened or held only while its count, an `int`, is
-- below 2^31 - 1.
pub data Reachable : Shm → (ℕ → ℕ) → Type 0 where
  start : (s : Shm) → ((a : ℕ) → (s.segs a).ref_count ≡ 0) → s.list ≡ [] → Reachable s (λ a. 0)
  opened :
      (s : Shm) (handles : ℕ → ℕ) (name : List ℕ) (mem : Option ℕ)
      → IsFresh s mem
      → ((a : ℕ) → (get_or_create mem s name).1 ≡ some a → (s.segs a).ref_count < 2147483647)
      → Reachable s handles
      → Reachable (get_or_create mem s name).0 (one_more (get_or_create mem s name).1 handles)
  held :
      (s : Shm) (handles : ℕ → ℕ) (a : ℕ)
      → (s.segs a).ref_count < 2147483647
      → Reachable s handles
      → Reachable (hold s a) (one_more (some a) handles)
  closed :
      (s : Shm) (handles : ℕ → ℕ) (a : ℕ)
      → 1 ≤ handles a
      → Reachable s handles
      → Reachable (unref s a) (update handles a (handles a - 1))
  unlinked :
      (s : Shm) (handles : ℕ → ℕ) (name : List ℕ)
      → Reachable s handles
      → Reachable (unlink s name) handles

-- In every state that is reached from no segments by opening (with memory that no live segment has)
-- and holding segments whose count is below 2^31 - 1, closing through a handle and unlinking, a
-- segment's reference count is the number of its handles plus the number of times it is on the
-- list.
pub reachable-IsCounted : (s : Shm) (handles : ℕ → ℕ) → Reachable s handles → IsCounted s handles
unfolding listed
reachable-IsCounted _ _ (start s zeros empty) = λ a. rw empty (zeros a)
reachable-IsCounted _ _ (opened s h name mem f small r) =
    get_or_create-IsCounted s h name mem f (reachable-IsCounted s h r)
reachable-IsCounted _ _ (held s h a small r) = hold-IsCounted s h a (reachable-IsCounted s h r)
reachable-IsCounted _ _ (closed s h a le r) = unref-IsCounted s h a le (reachable-IsCounted s h r)
reachable-IsCounted _ _ (unlinked s h name r) =
    unlink-IsCounted s h name (reachable-IsCounted s h r)

-- In a reachable state, `shm_unref`, closing a segment of which another handle is open, or that a
-- name still stands for, frees nothing.
pub unref-kept :
    (s : Shm) (handles : ℕ → ℕ) (a : ℕ)
    → Reachable s handles
    → 2 ≤ handles a + listed a s.list
    → ((unref s a).freed ≡ s.freed) × ((unref s a).freed_pages ≡ s.freed_pages)
unfolding unref
unref-kept s handles a r two =
    let c = reachable-IsCounted s handles r a in
    let many : leb (s.segs a).ref_count 1 ≡ false = ground (arith, c, two) in
    (
      ap
          (λ t.
            (if t
              then free_segment
                  (record (with_refs s a ((s.segs a).ref_count - 1)) { list = delist a s.list }) a
              else with_refs s a ((s.segs a).ref_count - 1)).freed)
          many,
      ap
          (λ t.
            (if t
              then free_segment
                  (record (with_refs s a ((s.segs a).ref_count - 1)) { list = delist a s.list }) a
              else with_refs s a ((s.segs a).ref_count - 1)).freed_pages)
          many,
    )
