-- ===== src/Agent/Streams.antt =====
-- crates/agent/src/lib.rs: the streams that the pool has answered, over all its calls.
use zorya_rs.Base.{
  ℕ, ◌+◌, ◌<◌, ◌^◌, ◌≡◌, ◌⊎◌, refl, ◌∙◌, subst, inl, inr, false, [], ◌∷◌, Option, none, some,
  Bool-cases, All, arith,
}
use zorya_rs.Base.Maps.{Apart, Distinct, lookup, bytes_key, lookup_head, lookup_tail, lookup_cases}
use zorya_rs.Io.{IoResult, ok, err}
use zorya_rs.Quic.Quiche.{Quiche}
use zorya_rs.Quic.Conn.{QuicConnState}
use zorya_rs.Quic.Conn.Calls.{try_open}
use zorya_rs.Quic.Conn.NextStream.{next_id, Takes, try_open-Takes, try_open-Next}
use zorya_rs.Agent.{TraceId, Scan, Conns, try_next, visit, scan}
use zorya_rs.Agent.Pool.{offered, offer, first_offer, or_else, visit-stream}

-- 64 bits hold the id after the next one.
abbrev pub Small : {Q : Quiche} → QuicConnState Q → Type 0
Small s = next_id s + 4 < 2 ^ 64

abbrev pub AllSmall : {Q : Quiche} → Conns Q → Type 0
AllSmall conns = All (λ e. Small e.1) conns

offered-key :
    (id k : TraceId) (answer : IoResult ℕ) (st : ℕ)
    → offered id answer ≡ some (k, st)
    → (id ≡ k) × (answer ≡ ok st)
unfolding offered
offered-key id k (ok n) st e = (cc, cc)
offered-key id k (err kind) st e = cc

or_else-some {ℓ} :
    {A : Type ℓ} (o p : Option A) (a : A)
    → or_else o p ≡ some a
    → (o ≡ some a) ⊎ ((o ≡ none) × (p ≡ some a))
or_else-some none p a e = inr (refl, e)
or_else-some (some b) p a e = inl e

module _ {Q : Quiche} where
  offer-try_open :
      (id k : TraceId) (s : QuicConnState Q) (st : ℕ)
      → offer id s ≡ some (k, st)
      → (Q.is_closed s.quiche_conn ≡ false) × (id ≡ k) × ((try_open s).answer ≡ ok st)
  unfolding offer
  offer-try_open id k s st e = elim (Bool-cases (Q.is_closed s.quiche_conn)) [
    | inl closed ↦ ground (arith, closed, e)
    | inr open' ↦
        let named = offered-key id k (try_open s).answer st (ground (arith, open', e)) in
        (open', named.0, named.1)
  ]

  first_offer-Apart :
      (k : TraceId) (st : ℕ) (conns : Conns Q)
      → Apart k conns
      → ¬ (first_offer conns ≡ some (k, st))
  unfolding first_offer
  first_offer-Apart k st [] a e = cc
  first_offer-Apart k st ((id, s) ∷ conns) a e =
      elim (or_else-some (offer id s) (first_offer conns) (k, st) e) [
        | inl here ↦ a.0 (offer-try_open id k s st here).1
        | inr (_, later) ↦ first_offer-Apart k st conns a.1 later
      ]

  -- The stream offered has the id that is next of its connection.
  pub first_offer-next :
      (k : TraceId) (st : ℕ) (conns : Conns Q)
      → Distinct conns
      → AllSmall conns
      → first_offer conns ≡ some (k, st)
      → (s : QuicConnState Q) × (lookup k conns ≡ some s) × (st ≡ next_id s)
  unfolding first_offer lookup
  first_offer-next k st [] d small e = cc
  first_offer-next k st ((id, s) ∷ conns) d small e =
      elim (or_else-some (offer id s) (first_offer conns) (k, st) e) [
        | inl here ↦
            let (open', same, answer) = offer-try_open id k s st here in
            (s, lookup_head k id s conns same, (try_open-Next st s small.0 answer).0)
        | inr (_, later) ↦
            let (s', at_k, next) = first_offer-next k st conns d.1 small.1 later in
            (
              s',
              lookup_tail k id s conns (λ same.
                    first_offer-Apart k st conns (subst (λ j. Apart j conns) same d.0) later)
                  ∙ at_k,
              next,
            )
      ]

  try_next-Takes :
      (o : Option (TraceId × ℕ)) (id : TraceId) (s : QuicConnState Q) (x : Scan)
      → Small s
      → Takes s (try_next o id s x).0
  unfolding try_next
  try_next-Takes none id s x small = try_open-Takes s small
  try_next-Takes (some p) id s x small = omega arith

module _ {Q : Quiche} (params : Q.Connection → Option ℕ) where
  visit-Takes :
      (id : TraceId) (s : QuicConnState Q) (x : Scan) → Small s → Takes s (visit params id s x).0
  unfolding visit
  visit-Takes id s x small = elim (Bool-cases (Q.is_closed s.quiche_conn)) [
    | inl e ↦ rw e (omega arith)
    | inr e ↦ rw e (try_next-Takes x.stream id s _ small)
  ]

  visit-offer :
      (id k : TraceId) (s : QuicConnState Q) (x : Scan) (st : ℕ)
      → Small s
      → x.stream ≡ none
      → offer id s ≡ some (k, st)
      → st < next_id (visit params id s x).0
  unfolding visit try_next
  visit-offer id k s x st small none_yet e =
      let (open', same, answer) = offer-try_open id k s st e in
      rw (open', none_yet) (try_open-Next st s small answer).1

  -- A connection after the loop was there before, and has used up ids at most.
  pub scan-Takes :
      (k : TraceId) (s' : QuicConnState Q) (conns : Conns Q) (x : Scan)
      → AllSmall conns
      → lookup k (scan params conns x).0 ≡ some s'
      → (s : QuicConnState Q) × (lookup k conns ≡ some s) × Takes s s'
  unfolding scan lookup
  scan-Takes k s' [] x small e = cc
  scan-Takes k s' ((id, s) ∷ conns) x small e =
      let (s₁, x₁) = visit params id s x in
      elim (lookup_cases k id s₁ s' (scan params conns x₁).0 e) [
        | inl (same, now) ↦ (
          s,
          lookup_head k id s conns same,
          subst (λ t. Takes s t) now (visit-Takes id s x small.0),
        )
        | inr (other, later) ↦
            let (t, at_k, takes) = scan-Takes k s' conns x₁ small.1 later in
            (t, lookup_tail k id s conns other ∙ at_k, takes)
      ]

  -- The connection that offered a stream has used up its id.
  pub scan-offer :
      (k : TraceId) (st : ℕ) (s' : QuicConnState Q) (conns : Conns Q) (x : Scan)
      → Distinct conns
      → AllSmall conns
      → x.stream ≡ none
      → first_offer conns ≡ some (k, st)
      → lookup k (scan params conns x).0 ≡ some s'
      → st < next_id s'
  unfolding scan first_offer
  scan-offer k st s' [] x d small none_yet e at_k = cc
  scan-offer k st s' ((id, s) ∷ conns) x d small none_yet e at_k =
      let (s₁, x₁) = visit params id s x in
      elim (lookup_cases k id s₁ s' (scan params conns x₁).0 at_k) [
        | inl (same, now) ↦ elim (or_else-some (offer id s) (first_offer conns) (k, st) e) [
          | inl here ↦
              subst (λ t. st < next_id t) now (visit-offer id k s x st small.0 none_yet here)
          | inr (_, later) ↦
              absurd (first_offer-Apart k st conns (subst (λ j. Apart j conns) same d.0) later)
        ]
        | inr (other, after) ↦ elim (or_else-some (offer id s) (first_offer conns) (k, st) e) [
          | inl here ↦ absurd (other (offer-try_open id k s st here).1)
          | inr (no_offer, later) ↦
              scan-offer k st s' conns x₁ d.1 small.1
                (visit-stream params id s x ∙ rw (none_yet, no_offer) refl) later after
        ]
      ]
