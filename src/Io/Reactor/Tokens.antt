-- ===== src/Io/Reactor/Tokens.antt =====
-- crates/n3io/src/reactor.rs, `next_token`: its loop ends with a token that is not in use, for any
-- tables with fewer than 2^64 entries.
use zorya_rs.Base.{
  ℕ, zero, suc, ◌+◌, ◌%◌, ◌≤◌, ◌<◌, ◌≡◌, ◌≢◌, refl, sym, ◌∙◌, inl, inr, Bool, true, false, ◌||◌,
  List, [], ◌∷◌, ◌++◌, map, some, is_some, if◌then◌else◌, arith, Bool-cases, ◌==◌, elem, length,
  length-append, length-map, add_u64, u64_mod,
}
use zorya_rs.Base.Maps.{Map, lookup, nat_key}
use zorya_rs.Io.Reactor.{
  IoState, ReactorImpl, Interest, reads, writes, state_at, claim, next_free, next_token,
}

abbrev keys : Map ℕ IoState → List ℕ
keys m = map (λ e. e.0) m

lookup-keys : (t : ℕ) (m : Map ℕ IoState) → is_some (lookup t m) ≡ elem t (keys m)
unfolding lookup
lookup-keys t [] = refl
lookup-keys t ((j, s) ∷ m) = ground (arith, lookup-keys t m)

abbrev pub used : ℕ → ReactorImpl → Bool
used t r = is_some (state_at reads t r) || is_some (state_at writes t r)

abbrev in_use : ReactorImpl → List ℕ
in_use r = keys r.io_readable_stats ++ keys r.io_writable_stats

elem-append : (k : ℕ) (xs ys : List ℕ) → elem k (xs ++ ys) ≡ (elem k xs || elem k ys)
elem-append k [] ys = refl
elem-append k (x ∷ xs) ys = ground (arith, elem-append k xs ys)

used-in_use : (t : ℕ) (r : ReactorImpl) → used t r ≡ elem t (in_use r)
used-in_use t r =
    rw (lookup-keys t r.io_readable_stats, lookup-keys t r.io_writable_stats)
      (sym (elem-append t (keys r.io_readable_stats) (keys r.io_writable_stats)))

without : ℕ → List ℕ → List ℕ
without k [] = []
without k (x ∷ xs) = if x == k then without k xs else x ∷ without k xs

length-without_le : (k : ℕ) (xs : List ℕ) → length (without k xs) ≤ length xs
unfolding without
length-without_le k [] = omega arith
length-without_le k (x ∷ xs) = ground (arith, length-without_le k xs)

length-without : (k : ℕ) (xs : List ℕ) → elem k xs ≡ true → length (without k xs) < length xs
unfolding without
length-without k [] h = cc
length-without k (x ∷ xs) h = ground (arith, length-without_le k xs, length-without k xs)

elem-without : (k j : ℕ) (xs : List ℕ) → k ≢ j → elem j (without k xs) ≡ elem j xs
unfolding without
elem-without k j [] h = refl
elem-without k j (x ∷ xs) h = ground (arith, elem-without k j xs h)

-- Among more consecutive tokens than there are in a list, one is not in it.
free_token :
    (fuel g : ℕ) (xs : List ℕ)
    → g < u64_mod
    → length xs < fuel
    → fuel ≤ u64_mod
    → (k : ℕ) × (k < fuel) × (elem ((g + k) % u64_mod) xs ≡ false)
free_token zero g xs h l m = absurd (omega arith)
free_token (suc fuel) g xs h l m = elim (Bool-cases (elem g xs)) [
  | inr free ↦ let here : (g + 0) % u64_mod ≡ g = omega arith in (0, omega arith, rw here free)
  | inl taken ↦
      let g' = add_u64 g 1 in
      let shorter = length-without g xs taken in
      let (k, small, free) =
        free_token fuel g' (without g xs) (omega arith) (omega (arith, shorter)) (omega arith) in
      let same : (g' + k) % u64_mod ≡ (g + suc k) % u64_mod = omega arith in
      let other : g ≢ (g + suc k) % u64_mod = λ e. omega arith in
      (suc k, omega arith, sym (elem-without g ((g + suc k) % u64_mod) xs other) ∙ rw (← same) free)
]

-- What the loop returns: a token that no entry has, and the tables with it.
abbrev pub IsFresh : Interest → ReactorImpl → ℕ × ReactorImpl → Type 0
IsFresh interests r (token, r') =
    (token < u64_mod)
    × (used token r ≡ false)
    × (r'
        ≡ claim writes interests.is_writable token
            (claim reads interests.is_readable token (record r { token_gen = add_u64 token 1 })))

next_free_here :
    (fuel : ℕ) (interests : Interest) (r : ReactorImpl)
    → r.token_gen < u64_mod
    → used r.token_gen r ≡ false
    → (t : ℕ × ReactorImpl) × (next_free (suc fuel) interests r ≡ some t) × IsFresh interests r t
unfolding next_free
next_free_here fuel interests r h free =
    let token = r.token_gen in
    let r' = record r { token_gen = add_u64 token 1 } in
    (
      (
        token,
        claim writes interests.is_writable token (claim reads interests.is_readable token r'),
      ),
      rw free refl,
      (h, free, refl),
    )

next_free_finds :
    (fuel k : ℕ) (interests : Interest) (r : ReactorImpl)
    → k < fuel
    → r.token_gen < u64_mod
    → used ((r.token_gen + k) % u64_mod) r ≡ false
    → (t : ℕ × ReactorImpl) × (next_free fuel interests r ≡ some t) × IsFresh interests r t
unfolding next_free
next_free_finds zero k interests r l h f = absurd (omega arith)
next_free_finds (suc fuel) zero interests r l h f =
    let here : (r.token_gen + 0) % u64_mod ≡ r.token_gen = omega arith in
    let free : used r.token_gen r ≡ false = rw here at f in next_free_here fuel interests r h free
next_free_finds (suc fuel) (suc k) interests r l h f = elim (Bool-cases (used r.token_gen r)) [
  | inr free ↦ next_free_here fuel interests r h free
  | inl taken ↦
      let g' = add_u64 r.token_gen 1 in
      let r' = record r { token_gen = g' } in
      let same : (r.token_gen + suc k) % u64_mod ≡ (g' + k) % u64_mod = omega arith in
      let (t, found, fresh) =
        next_free_finds fuel k interests r' (omega arith) (omega arith) (rw same at f) in
      (t, rw taken found, fresh)
]

-- Where fewer than 2^64 entries are in use, `next_token` returns, with a token of 64 bits that no entry
-- of either table has, and has put it into the tables of the interests: as many turns of its loop as
-- there are entries, and one more, are enough.
pub next_token-IsFresh :
    (interests : Interest) (r : ReactorImpl)
    → r.token_gen < u64_mod
    → length r.io_readable_stats + length r.io_writable_stats < u64_mod
    → (t : ℕ × ReactorImpl) × (next_token interests r ≡ some t) × IsFresh interests r t
unfolding next_token
next_token-IsFresh interests r h l =
    let n = length r.io_readable_stats + length r.io_writable_stats in
    let size : length (in_use r) ≡ n = omega (
      arith,
      length-append (keys r.io_readable_stats) (keys r.io_writable_stats),
      length-map (λ (e : ℕ × IoState). e.0) r.io_readable_stats,
      length-map (λ (e : ℕ × IoState). e.0) r.io_writable_stats,
    ) in
    let (k, small, free) =
      free_token (suc n) r.token_gen (in_use r) h (omega (arith, size)) (omega (arith, l)) in
    next_free_finds (suc n) k interests r small h
      (used-in_use ((r.token_gen + k) % u64_mod) r ∙ free)
