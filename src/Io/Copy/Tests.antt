-- ===== src/Io/Copy/Tests.antt =====
-- `copy` at concrete inputs.
use zorya_rs.Base.{ℕ, ◌≡◌, refl, true, List, [], ◌∷◌, some, length, ◌%◌, arith, u64_mod}
use zorya_rs.Io.Defs.{broken_pipe, IoResult, ok, err}
use zorya_rs.Io.Copy.{WriteAll, wrote, failed, flushed, copy, copy_loop, pipe}
use zorya_rs.Io.Copy.Laws.{stream, has_end, copy-ok, pipe_ends}

abbrev two_pieces : List (IoResult (List ℕ))
two_pieces = ok (1 ∷ 2 ∷ []) ∷ ok (3 ∷ []) ∷ ok [] ∷ []

abbrev no_failure : List WriteAll
no_failure = wrote ∷ wrote ∷ wrote ∷ []

copy_runs : copy two_pieces no_failure (ok tt) ≡ (some (ok 3), 1 ∷ 2 ∷ 3 ∷ [])
unfolding copy copy_loop flushed
copy_runs = refl

copy_fails :
    copy two_pieces (wrote ∷ failed broken_pipe 0 ∷ []) (ok tt)
    ≡ (some (err broken_pipe), 1 ∷ 2 ∷ [])
unfolding copy copy_loop flushed
copy_fails = refl

copy-ok_example :
    ((copy two_pieces no_failure (ok tt)).1 ≡ stream two_pieces)
    × (3 ≡ length (stream two_pieces) % u64_mod)
    × (has_end two_pieces ≡ true)
    × (◌≡◌ {A = IoResult (Unit {0})} (ok tt) (ok tt))
unfolding copy copy_loop flushed
copy-ok_example = copy-ok two_pieces no_failure (ok tt) 3 refl

pipe_ends_example :
    (copy two_pieces no_failure (ok tt)
      ≡ (some (flushed (length (stream two_pieces) % u64_mod) (ok tt)), stream two_pieces))
    × (pipe two_pieces no_failure (ok tt) ≡ (stream two_pieces, true))
pipe_ends_example =
    pipe_ends two_pieces no_failure (ok tt) refl (refl, (refl, (refl, tt))) (omega arith)
