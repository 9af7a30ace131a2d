-- ===== src/Io/Copy/Laws.antt =====
-- crates/n3io/src/copy.rs: what `copy` transfers.
use zorya_rs.Base.{
  ℕ, ◌%◌, ◌≡◌, refl, sym, ap, ◌∙◌, Bool, true, false, List, [], ◌∷◌, ◌++◌, append_assoc, append-nil,
  some, length, length-append, take, drop, take-append-drop, add_u64, u64_mod, arith, All, ◌≤◌,
}
use zorya_rs.Io.Defs.{IoResult, ok, err}
use zorya_rs.Io.Copy.{WriteAll, wrote, failed, flushed, copy_loop, copy, pipe}

-- The bytes that the reader gives until its end, or an error.
abbrev pub stream : List (IoResult (List ℕ)) → List ℕ
stream [] = []
stream (err kind ∷ reads) = []
stream (ok [] ∷ reads) = []
stream (ok (b ∷ buf) ∷ reads) = (b ∷ buf) ++ stream reads

-- The reader comes to its end without an error.
abbrev pub has_end : List (IoResult (List ℕ)) → Bool
has_end [] = false
has_end (err kind ∷ reads) = false
has_end (ok [] ∷ reads) = true
has_end (ok (b ∷ buf) ∷ reads) = has_end reads

split : (n : ℕ) (buf rest : List ℕ) → take n buf ++ (drop n buf ++ rest) ≡ buf ++ rest
split n buf rest =
    sym (append_assoc (take n buf) (drop n buf) rest) ∙ ap (λ l. l ++ rest) (take-append-drop n buf)

count_bytes :
    (trans : ℕ) (out buf : List ℕ)
    → trans ≡ length out % u64_mod
    → add_u64 trans (length buf) ≡ length (out ++ buf) % u64_mod
count_bytes trans out buf t = rw (length-append out buf) (omega (arith, t))

copy_loop_prefix :
    (reads : List (IoResult (List ℕ))) (writes : List WriteAll) (flush : IoResult (Unit {0}))
    (trans : ℕ) (out : List ℕ)
    → (rest : List ℕ) × ((copy_loop reads writes flush trans out).1 ++ rest ≡ out ++ stream reads)
unfolding copy_loop
copy_loop_prefix [] writes flush trans out = ([], refl)
copy_loop_prefix (err kind ∷ reads) writes flush trans out = ([], refl)
copy_loop_prefix (ok [] ∷ reads) writes flush trans out = ([], refl)
copy_loop_prefix (ok (b ∷ buf) ∷ reads) [] flush trans out = (b ∷ buf ++ stream reads, refl)
copy_loop_prefix (ok (b ∷ buf) ∷ reads) (failed kind n ∷ writes) flush trans out = (
  drop n (b ∷ buf) ++ stream reads,
  append_assoc out (take n (b ∷ buf)) (drop n (b ∷ buf) ++ stream reads)
      ∙ ap (λ l. out ++ l) (split n (b ∷ buf) (stream reads)),
)
copy_loop_prefix (ok (b ∷ buf) ∷ reads) (wrote ∷ writes) flush trans out =
    let (rest, e) =
      copy_loop_prefix reads writes flush (add_u64 trans (length (b ∷ buf))) (out ++ b ∷ buf) in
    (rest, e ∙ append_assoc out (b ∷ buf) (stream reads))

-- What `copy` has given to the writer, however it ends, or while it waits, is the beginning of what
-- the reader gave: nothing is lost, repeated or changed in between.
pub copy_prefix :
    (reads : List (IoResult (List ℕ))) (writes : List WriteAll) (flush : IoResult (Unit {0}))
    → (rest : List ℕ) × ((copy reads writes flush).1 ++ rest ≡ stream reads)
unfolding copy
copy_prefix reads writes flush = copy_loop_prefix reads writes flush 0 []

copy_loop-ok :
    (reads : List (IoResult (List ℕ))) (writes : List WriteAll) (flush : IoResult (Unit {0}))
    (trans n : ℕ) (out : List ℕ)
    → trans ≡ length out % u64_mod
    → (copy_loop reads writes flush trans out).0 ≡ some (ok n)
    → ((copy_loop reads writes flush trans out).1 ≡ out ++ stream reads)
      × (n ≡ length (out ++ stream reads) % u64_mod)
      × (has_end reads ≡ true)
      × (flush ≡ ok tt)
unfolding copy_loop flushed
copy_loop-ok [] writes flush trans n out t e = cc
copy_loop-ok (err kind ∷ reads) writes flush trans n out t e = cc
copy_loop-ok (ok [] ∷ reads) writes (ok tt) trans n out t e =
    let same = append-nil out in (sym same, rw same (ground (arith, t, e)), refl, refl)
copy_loop-ok (ok [] ∷ reads) writes (err k) trans n out t e = cc
copy_loop-ok (ok (b ∷ buf) ∷ reads) [] flush trans n out t e = cc
copy_loop-ok (ok (b ∷ buf) ∷ reads) (failed kind k ∷ writes) flush trans n out t e = cc
copy_loop-ok (ok (b ∷ buf) ∷ reads) (wrote ∷ writes) flush trans n out t e =
    let later =
      copy_loop-ok reads writes flush (add_u64 trans (length (b ∷ buf))) n (out ++ b ∷ buf)
        (count_bytes trans out (b ∷ buf) t) e in
    rw (← append_assoc out (b ∷ buf) (stream reads)) later

-- Where `copy` returns a number, the reader has come to its end, the writer holds all that the reader
-- gave and was flushed, and the number is that of these bytes, in 64 bits.
pub copy-ok :
    (reads : List (IoResult (List ℕ))) (writes : List WriteAll) (flush : IoResult (Unit {0}))
    (n : ℕ)
    → (copy reads writes flush).0 ≡ some (ok n)
    → ((copy reads writes flush).1 ≡ stream reads)
      × (n ≡ length (stream reads) % u64_mod)
      × (has_end reads ≡ true)
      × (flush ≡ ok tt)
unfolding copy
copy-ok reads writes flush n e = copy_loop-ok reads writes flush 0 n [] (omega arith) e

copy_loop_ends :
    (reads : List (IoResult (List ℕ))) (writes : List WriteAll) (flush : IoResult (Unit {0}))
    (trans : ℕ) (out : List ℕ)
    → has_end reads ≡ true
    → All (λ w. w ≡ wrote) writes
    → length reads ≤ length writes
    → trans ≡ length out % u64_mod
    → copy_loop reads writes flush trans out
      ≡ (some (flushed (length (out ++ stream reads) % u64_mod) flush), out ++ stream reads)
unfolding copy_loop
copy_loop_ends [] writes flush trans out h w l t = cc
copy_loop_ends (err kind ∷ reads) writes flush trans out h w l t = cc
copy_loop_ends (ok [] ∷ reads) writes flush trans out h w l t = rw (append-nil out) (rw t refl)
copy_loop_ends (ok (b ∷ buf) ∷ reads) [] flush trans out h w l t = absurd (omega (arith, l))
copy_loop_ends (ok (b ∷ buf) ∷ reads) (failed kind n ∷ writes) flush trans out h w l t = cc (w.0)
copy_loop_ends (ok (b ∷ buf) ∷ reads) (wrote ∷ writes) flush trans out h w l t =
    rw (← append_assoc out (b ∷ buf) (stream reads)) (
      copy_loop_ends reads writes flush _ (out ++ b ∷ buf) h w.1 (omega (arith, l))
        (count_bytes trans out (b ∷ buf) t))

copy_ends :
    (reads : List (IoResult (List ℕ))) (writes : List WriteAll) (flush : IoResult (Unit {0}))
    → has_end reads ≡ true
    → All (λ w. w ≡ wrote) writes
    → length reads ≤ length writes
    → copy reads writes flush
      ≡ (some (flushed (length (stream reads) % u64_mod) flush), stream reads)
unfolding copy
copy_ends reads writes flush h w l = copy_loop_ends reads writes flush 0 [] h w l (omega arith)

-- Where the reader comes to its end and no write fails, `copy` ends: with the number of the bytes, or
-- the error of the last flush, and all bytes are in the writer; the task that copies has closed it.
pub pipe_ends :
    (reads : List (IoResult (List ℕ))) (writes : List WriteAll) (flush : IoResult (Unit {0}))
    → has_end reads ≡ true
    → All (λ w. w ≡ wrote) writes
    → length reads ≤ length writes
    → (copy reads writes flush
        ≡ (some (flushed (length (stream reads) % u64_mod) flush), stream reads))
      × (pipe reads writes flush ≡ (stream reads, true))
unfolding pipe
pipe_ends reads writes flush h w l = let e = copy_ends reads writes flush h w l in (e, rw e refl)
