-- ===== src/Tests/Words.antt =====
-- Words of 8 and 32 bits, and words in byte buffers.
use ndzip.Base.{◌%◌, ◌^◌, ◌≡◌, refl, arith}
use ndzip.Word.{rotate_left_1, rotate_right_1, complement_negative}
use ndzip.Word.Rotate.{rotations_undo_each_other}
use ndzip.Word.Complement.{complement_negative_twice}
use ndzip.Memory.{Memory}
use ndzip.Bytes.{store_aligned, load_aligned}
use ndzip.Bytes.Laws.{load_aligned-store_aligned}
use ndzip.Transform.{ipow}
use ndzip.Transform.Power.{ipow-eq}

rotations : (rotate_left_1 8 0x81 ≡ 0x03) × (rotate_right_1 8 0x03 ≡ 0x81)
unfolding rotate_left_1 rotate_right_1
rotations = (refl, refl)

complements : (complement_negative 8 0x85 ≡ 0xfa) × (complement_negative 8 0x05 ≡ 0x05)
unfolding complement_negative
complements = (refl, refl)

rotations_undo_each_other_example :
    (rotate_right_1 32 (rotate_left_1 32 0xc0ffee11) ≡ 0xc0ffee11)
    × (rotate_left_1 32 (rotate_right_1 32 0xc0ffee11) ≡ 0xc0ffee11)
rotations_undo_each_other_example = rotations_undo_each_other 31 0xc0ffee11 (omega arith)

complement_negative_twice_example :
    complement_negative 32 (complement_negative 32 0x80001234) ≡ 0x80001234
complement_negative_twice_example = complement_negative_twice 31 0x80001234 (omega arith)

abbrev blank : Memory
blank a = 0

load_aligned-store_aligned_example :
    load_aligned 4 8 (store_aligned 4 8 0xdeadbeef blank) ≡ 0xdeadbeef
load_aligned-store_aligned_example = load_aligned-store_aligned 4 8 0xdeadbeef blank (omega arith)

powers : (ipow 32 16 3 ≡ 4096) × (ipow 32 64 2 ≡ 4096) × (ipow 32 4096 1 ≡ 4096)
unfolding ipow
powers = (refl, refl, refl)

ipow-eq_example : ipow 32 64 2 ≡ 64 ^ 2 % 2 ^ 32
ipow-eq_example = ipow-eq 32 64 2 (omega arith)
