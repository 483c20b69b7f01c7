-- ===== src/Lz4/Tests.antt =====
-- Runs of fs/lz4.c on small blocks and frames.
use bored_os.Base.{ℕ, ◌+◌, ◌≤◌, ◌≡◌, refl, List, [], ◌∷◌, ◌++◌, length, arith}
use bored_os.Lz4.{done, beyond, decompress_block, decompress_frame}
use bored_os.Lz4.Bounds.{Bounded, decompress_block-Bounded}
use bored_os.Lz4.Frame.{decompress_frame-Bounded, decompress_frame_overreads}
use bored_os.Lz4.Format.{Sequence, encode, expand}
use bored_os.Lz4.Sequences.{decompress_block-encode}

-- "ab", and then seven bytes from two before: "abababab a", with "!" at the end.
abbrev sequences : List Sequence
sequences = record { literals = 97 ∷ 98 ∷ []; offset = 2; count = 3 } ∷ []

abbrev block : List ℕ
block = 35 ∷ 97 ∷ 98 ∷ 2 ∷ 0 ∷ 16 ∷ 33 ∷ []

block_run :
    decompress_block 8 16 block [] ≡ done (97 ∷ 98 ∷ 97 ∷ 98 ∷ 97 ∷ 98 ∷ 97 ∷ 98 ∷ 97 ∷ 33 ∷ [])
unfolding decompress_block
block_run = refl

encode_run : encode sequences (33 ∷ []) ≡ block
unfolding encode
encode_run = refl

decompress_block-Bounded_example : Bounded 16 (decompress_block 8 16 block [])
decompress_block-Bounded_example =
    decompress_block-Bounded 8 16 block [] (omega arith) (omega arith) (omega arith)

sequences_fit : length (expand sequences []) + 1 ≤ 16
unfolding expand
sequences_fit = omega arith

decompress_block-encode_example :
    decompress_block 8 16 (encode sequences (33 ∷ [])) [] ≡ done (expand sequences [] ++ 33 ∷ [])
decompress_block-encode_example =
    decompress_block-encode 8 16 sequences (33 ∷ []) []
      ((omega arith, omega arith, omega arith), tt) (omega arith) sequences_fit

-- A frame that holds the block.
abbrev frame : List ℕ
frame = 4 ∷ 34 ∷ 77 ∷ 24 ∷ 96 ∷ 64 ∷ 130 ∷ 7 ∷ 0 ∷ 0 ∷ 0 ∷ (block ++ 0 ∷ 0 ∷ 0 ∷ 0 ∷ [])

frame_run : decompress_frame frame 16 ≡ done (97 ∷ 98 ∷ 97 ∷ 98 ∷ 97 ∷ 98 ∷ 97 ∷ 98 ∷ 97 ∷ 33 ∷ [])
unfolding decompress_frame
frame_run = refl

decompress_frame-Bounded_example : Bounded 16 (decompress_frame frame 16)
decompress_frame-Bounded_example =
    decompress_frame-Bounded 64 frame 16 (omega arith) (omega arith) (omega arith) (omega arith)

decompress_frame_overreads_example :
    decompress_frame
      (0x04
        ∷ (0x22 ∷ (0x4D ∷ (0x18 ∷ (64 ∷ (64 ∷ (130 ∷ (255 ∷ (255 ∷ (255 ∷ (127 ∷ block)))))))))))
      16
    ≡ beyond
decompress_frame_overreads_example =
    decompress_frame_overreads 64 64 130 255 255 255 127 block 16 refl refl refl (omega arith)
      (omega arith) (omega arith)
