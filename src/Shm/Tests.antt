-- ===== src/Shm/Tests.antt =====
-- Runs of fs/shm.c on few segments.
use bored_os.Base.{
  ℕ, ◌+◌, ◌≤◌, ◌<◌, ◌≡◌, refl, false, Option, some, none, List, [], ◌∷◌, arith, leb, length,
}
use bored_os.Kutils.{IsText}
use bored_os.Shm.{Shm, find, get_or_create, exists, hold, unlink, allocate}
use bored_os.Shm.References.{
  listed, IsCounted, one_more, Reachable, start, opened, held, unlinked, reachable-IsCounted,
}
use bored_os.Shm.Names.{exists-get_or_create}

abbrev none_yet : Shm
none_yet = record {
  segs = λ a. record { name = []; pages = []; size = 0; ref_count = 0 };
  list = [];
  freed_pages = [];
  freed = [];
}

abbrev name : List ℕ
name = 98 ∷ 111 ∷ []

name-IsText : IsText name
name-IsText = (omega arith, (omega arith, tt))

-- A segment is held twice: its handle is passed on.
abbrev held_twice : Shm
held_twice = hold (hold none_yet 40) 40

one_count : ((hold none_yet 40).segs 40).ref_count < 2147483647
unfolding hold
one_count = omega arith

held_twice-Reachable : Reachable held_twice (one_more (some 40) (one_more (some 40) (λ a. 0)))
held_twice-Reachable =
    held _ _ 40 one_count (held _ _ 40 (omega arith) (start none_yet (λ a. refl) refl))

two_handles : 2 ≤ one_more (some 40) (one_more (some 40) (λ a. 0)) 40 + listed 40 held_twice.list
unfolding listed hold
two_handles = omega arith

reachable-IsCounted_example :
    IsCounted
      (unlink (get_or_create (some 40) none_yet name).0 name)
      (one_more (get_or_create (some 40) none_yet name).1 (λ a. 0))
reachable-IsCounted_example =
    reachable-IsCounted (unlink (get_or_create (some 40) none_yet name).0 name)
      (one_more (get_or_create (some 40) none_yet name).1 (λ a. 0))
      (unlinked _ _ name (
        opened none_yet _ name (some 40) refl (λ a e. omega arith)
          (start none_yet (λ a. refl) refl)))

abbrev answers : List (Option ℕ)
answers = some 7 ∷ none ∷ some 9 ∷ []

-- The second page is refused, and the first one given back.
allocate_run : allocate answers (none_yet.segs 40) 5000 ≡ (none_yet.segs 40, 7 ∷ [], false)
unfolding allocate
allocate_run = refl

nothing_found : find none_yet.segs name [] ≡ none
unfolding find
nothing_found = refl

nothing_listed : listed 40 [] ≡ 0
unfolding listed
nothing_listed = refl

exists-get_or_create_example :
    exists (get_or_create (some 40) none_yet name).0 name ≡ leb (length name) 63
exists-get_or_create_example =
    exists-get_or_create none_yet 98 (111 ∷ []) 40 name-IsText nothing_found nothing_listed
