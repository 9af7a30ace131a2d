-- ===== src/Io/Copy.antt =====
-- crates/n3io/src/copy.rs: `copy`, over any reader and writer. What each `read` answers is a list;
-- `write_all` of the futures crate writes all of its bytes, or a part of them before an error.
pub mod Laws
mod Tests
use zorya_rs.Base.{ℕ, Bool, is_some, List, [], ◌∷◌, ◌++◌, Option, none, some, length, take, add_u64}
use zorya_rs.Io.Defs.{ErrorKind, IoResult, ok, err}

-- What a call of `write_all` did; `failed` with the number of bytes that it had written.
pub data WriteAll : Type 0 where
  wrote : WriteAll
  failed : ErrorKind → ℕ → WriteAll

unfoldable pub flushed : ℕ → IoResult (Unit {0}) → IoResult ℕ
flushed trans (ok _) = ok trans
flushed trans (err kind) = err kind

-- The loop of `copy`, with the bytes transferred so far and the bytes in the writer; the answer is
-- `none` where the reader or the writer has not answered yet.
unfoldable pub copy_loop :
    List (IoResult (List ℕ))
    → List WriteAll
    → IoResult (Unit {0})
    → ℕ
    → List ℕ
    → Option (IoResult ℕ) × List ℕ
unfolding flushed
copy_loop [] writes flush trans out = (none, out)
copy_loop (err kind ∷ reads) writes flush trans out = (some (err kind), out)
copy_loop (ok [] ∷ reads) writes flush trans out = (some (flushed trans flush), out)
copy_loop (ok (b ∷ buf) ∷ reads) [] flush trans out = (none, out)
copy_loop (ok (b ∷ buf) ∷ reads) (failed kind n ∷ writes) flush trans out =
    (some (err kind), out ++ take n (b ∷ buf))
copy_loop (ok (b ∷ buf) ∷ reads) (wrote ∷ writes) flush trans out =
    copy_loop reads writes flush (add_u64 trans (length (b ∷ buf))) (out ++ b ∷ buf)

-- `copy`
unfoldable pub copy :
    List (IoResult (List ℕ)) → List WriteAll → IoResult (Unit {0}) → Option (IoResult ℕ) × List ℕ
unfolding copy_loop
copy reads writes flush = copy_loop reads writes flush 0 []

-- A task of `N3::create_channel` or of `Agent::bind`: what its writer was given, and whether the task has
-- called `close` of the writer, as it does once `copy` has ended, well or not.
unfoldable pub pipe : List (IoResult (List ℕ)) → List WriteAll → IoResult (Unit {0}) → List ℕ × Bool
unfolding copy
pipe reads writes flush = let (answer, out) = copy reads writes flush in (out, is_some answer)
