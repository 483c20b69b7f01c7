-- ===== src/Shm/Names.antt =====
-- Finding a shared memory segment by its name.
use bored_os.Base.{
  ℕ, ◌≡◌, refl, sym, ap, ◌∙◌, Bool, true, false, none, some, List, [], ◌∷◌, length, take, leb,
  arith, Bool-cases, inl, inr, dec_lt, le→leb, lt→leb, length-take,
}
use bored_os.Base.Arrays.{update, update_at}
use bored_os.Kutils.{IsText, strcmp, is_zero}
use bored_os.Kutils.Compare.{strcmp_iff}
use bored_os.Vfs.Paths.Clean.{take_short}
use bored_os.Vfs.Mounts.Table.{take-IsText}
use bored_os.Shm.{
  Segment, Shm, find, new_segment, get_or_create, found_or_new, create_at, exists, is_some,
}
use bored_os.Shm.References.{listed}

find-update :
    (segs : ℕ → Segment) (a : ℕ) (seg : Segment) (name list : List ℕ)
    → listed a list ≡ 0
    → find (update segs a seg) name list ≡ find segs name list
unfolding find listed
find-update segs a seg name [] e = refl
find-update segs a seg name (b ∷ list) e = ground (arith, find-update segs a seg name list)

same_name :
    (name : List ℕ) → IsText name → is_zero (strcmp name (take 63 name)) ≡ leb (length name) 63
same_name name t =
    let same = strcmp_iff name (take 63 name) t (take-IsText 63 name t) in
    elim (dec_lt 63 (length name)) [
      | yes long ↦ elim (Bool-cases (is_zero (strcmp name (take 63 name)))) [
        | inl e ↦ absurd (omega (arith, ap length (same.0 e), length-take 63 name))
        | inr e ↦ e ∙ sym (lt→leb (length name) 63 long)
      ]
      | no short ↦
          same.1 (sym (take_short 63 name (omega arith)))
          ∙ sym (le→leb (length name) 63 (omega arith))
    ]

head_hit :
    (segs : ℕ → Segment) (name : List ℕ) (a : ℕ) (list : List ℕ) (t : Bool)
    → is_zero (strcmp name (segs a).name) ≡ t
    → find segs name list ≡ none
    → is_some (find segs name (a ∷ list)) ≡ t
unfolding find
head_hit segs name a list true e miss = rw e refl
head_hit segs name a list false e miss = rw e (ap is_some miss)

-- A segment that `shm_get_or_create` makes at an address that is not on the list, for a name that
-- is not there yet, is there afterwards exactly if the name has at most 63 bytes: a longer name is
-- cut off when it is stored, and compared in full.
pub exists-get_or_create :
    (s : Shm) (c : ℕ) (name : List ℕ) (a : ℕ)
    → IsText (c ∷ name)
    → find s.segs (c ∷ name) s.list ≡ none
    → listed a s.list ≡ 0
    → exists (get_or_create (some a) s (c ∷ name)).0 (c ∷ name) ≡ leb (length (c ∷ name)) 63
unfolding exists get_or_create found_or_new create_at new_segment
exists-get_or_create s c name a t miss apart =
    let seg = new_segment (c ∷ name) in
    let here = ap (λ q. is_zero (strcmp (c ∷ name) q.name)) (update_at s.segs a a seg refl) in
    ap (λ r. exists (found_or_new s (c ∷ name) (some a) r).0 (c ∷ name)) miss
    ∙ head_hit (update s.segs a seg) (c ∷ name) a s.list _ (here ∙ same_name (c ∷ name) t)
        (find-update s.segs a seg (c ∷ name) s.list apart ∙ miss)
