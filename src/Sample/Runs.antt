-- ===== src/Sample/Runs.antt =====
-- Runs of samples/edna_client_sample.cpp: the line of a status word, and of an empty C-APDU.
use edna.Base.{ℕ, ◌≡◌, ◌<◌, ◌⊎◌, List, none, some, length, replicate, length-replicate, arith}
use edna.Sample.{hex_buf_size, sw_ok, hex_line}
use edna.Sample.Bounds.{hex_line_bounds}

abbrev blank : List ℕ
blank = replicate hex_buf_size 0

hex_line_bounds_example :
    ((length sw_ok ≡ 0) × (hex_line blank sw_ok 2 ≡ none))
    ⊎ ((0 < 2)
        × ((buf' : List ℕ) × (hex_line blank sw_ok 2 ≡ some buf') × (length buf' ≡ hex_buf_size)))
hex_line_bounds_example =
    hex_line_bounds blank sw_ok 2 (length-replicate {A = ℕ} hex_buf_size 0) (omega arith)
