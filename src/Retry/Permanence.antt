-- ===== src/Retry/Permanence.antt =====
-- A permanent verdict at any depth of an error's causes is final.
use mathlib.Core.Option
use mathlib.Core.Option.{some-injective}
use manifest_mcp_mono.Common.{
  Text, ℕ, zero, suc, ◌≡◌, ◌≢◌, ◌⊎◌, inl, inr, refl, sym, ◌∙◌, Bool, true, false, List, [], ◌∷◌,
  Option, none, some, get_elem?, length, arith, Option-cases, Bool-cases, ==_iff, ◌==◌, ap,
}
use manifest_mcp_mono.Retry.{Inspect, value, throws, ◌>>=◌, Details, ErrorObject, Heap}
use manifest_mcp_mono.Retry.Chain.{
  seen_before, extend, error_chain, error_chain_cases, error_chain-total,
}
use manifest_mcp_mono.Retry.Verdict.{
  is_permanent_error, classify_retryable, is_retryable_error, weigh_chain, replay, or_else_inspect,
  submitted, has_final_verdict, code_in, non_retryable_error_codes,
}

-- `b` is `a` or a cause of it, at any depth.
pub data Causes (heap : Heap) : ℕ → ℕ → Type 0 where
  here : {a : ℕ} → Causes heap a a
  deeper :
      {a b c : ℕ} (e : ErrorObject)
      → get_elem? heap a ≡ some e
      → e.cause ≡ value b
      → Causes heap b c
      → Causes heap a c

module _ (heap : Heap) (stop_at : ErrorObject → Inspect Bool) where
  abbrev Known : List ℕ → ℕ → Type 0
  Known s a = (get_elem? heap a ≡ none) ⊎ (seen_before a s ≡ true)

  abbrev Clear : ℕ → Type 0
  Clear a = (e : ErrorObject) → get_elem? heap a ≡ some e → stop_at e ≡ value false

  -- Every error of the list passes, and its cause is in the list, or is `current`.
  abbrev ClosedUpTo : List ℕ → ℕ → Type 0
  ClosedUpTo s current =
      (a : ℕ)
      → seen_before a s ≡ true
      → Clear a
        × ((e : ErrorObject) (b : ℕ)
            → get_elem? heap a ≡ some e
            → e.cause ≡ value b
            → (b ≡ current) ⊎ Known s b)

  abbrev IsClosed : List ℕ → Type 0
  IsClosed s =
      (a : ℕ)
      → seen_before a s ≡ true
      → Clear a
        × ((e : ErrorObject) (b : ℕ) → get_elem? heap a ≡ some e → e.cause ≡ value b → Known s b)

  close : (s : List ℕ) (current : ℕ) → Known s current → ClosedUpTo s current → IsClosed s
  close s current k c a h = ((c a h).0, λ e b found caused. settle b ((c a h).1 e b found caused))
    where
      settle : (b : ℕ) → (b ≡ current) ⊎ Known s b → Known s b
      settle b (inl same) = rw same k
      settle b (inr known) = known

  seen_before_self : (a : ℕ) (s : List ℕ) → seen_before a (a ∷ s) ≡ true
  seen_before_self a s = ground arith

  Known-grow : (s : List ℕ) (x a : ℕ) → Known s a → Known (x ∷ s) a
  Known-grow s x a (inl gone) = inl gone
  Known-grow s x a (inr old) = inr (ground arith)

  extend_closed :
      (s : List ℕ) (current next : ℕ) (e : ErrorObject)
      → get_elem? heap current ≡ some e
      → stop_at e ≡ value false
      → e.cause ≡ value next
      → ClosedUpTo s current
      → ClosedUpTo (current ∷ s) next
  extend_closed s current next e found goes caused c a h = elim (Bool-cases (a == current)) [
    | inl same ↦
        let at = (==_iff a current).0 same in
        (
          λ e' found'. passes (sym found ∙ ap (get_elem? heap) (sym at) ∙ found'),
          λ e' b found' caused'.
              inl (moves (sym found ∙ ap (get_elem? heap) (sym at) ∙ found') caused'),
        )
    | inr other ↦
        let old : seen_before a s ≡ true = ground arith in
        ((c a old).0, λ e' b found' caused'. inr (shift b ((c a old).1 e' b found' caused')))
  ]
    where
      passes : {e' : ErrorObject} → some e ≡ some e' → stop_at e' ≡ value false
      passes q = sym (ap stop_at (some-injective _ _ q)) ∙ goes

      moves : {e' : ErrorObject} {b : ℕ} → some e ≡ some e' → e'.cause ≡ value b → b ≡ next
      moves q r = cc (r, caused, ap (λ (x : ErrorObject). x.cause) (some-injective _ _ q))

      shift : (b : ℕ) → (b ≡ current) ⊎ Known s b → Known (current ∷ s) b
      shift b (inl same) = inr (ground (arith, same))
      shift b (inr known) = Known-grow s current b known

  no_fuel : (current : ℕ) (s : List ℕ) → error_chain stop_at 0 heap current s ≡ none
  unfolding error_chain
  no_fuel current s = refl

  extend_inv :
      (e : ErrorObject) (w : Option (Inspect (List ErrorObject × Bool))) (chain : List ErrorObject)
      → extend e w ≡ some (value (chain, false))
      → (rest : List ErrorObject) × (w ≡ some (value (rest, false)))
  extend_inv e none chain h = cc
  extend_inv e (some throws) chain h = cc
  extend_inv e (some (value (rest, true))) chain h = ground arith
  extend_inv e (some (value (rest, false))) chain h = (rest, refl)

  -- A walk that is not stopped has closed off everything below its start.
  record Closure (s : List ℕ) (current : ℕ) : Type 0 where
    final : List ℕ
    grows : (a : ℕ) → seen_before a s ≡ true → seen_before a final ≡ true
    known : Known final current
    closed : IsClosed final

  chain_closed :
      (fuel current : ℕ) (s : List ℕ) (chain : List ErrorObject)
      → error_chain stop_at fuel heap current s ≡ some (value (chain, false))
      → ClosedUpTo s current
      → Closure s current
  chain_closed zero current s chain w c = cc (no_fuel current s, w)
  chain_closed (suc fuel) current s chain w c =
      elim (error_chain_cases stop_at fuel heap current s) [
        | inl (ended, k) ↦ record {
          final = s;
          grows = λ a h. h;
          known = k;
          closed = close s current k c;
        }
        | inr (inl thrown) ↦ cc (w, thrown)
        | inr (inr (inl (e, stopped))) ↦ ground (arith, w, stopped)
        | inr (inr (inr (e, next, found, fresh, goes, caused, walked))) ↦
            let (rest, w') =
              extend_inv e (error_chain stop_at fuel heap next (current ∷ s)) chain
                (sym walked ∙ w) in
            let r =
              chain_closed fuel next (current ∷ s) rest w'
                (extend_closed s current next e found goes caused c) in
            record {
              final = r.final;
              grows = λ a h. r.grows a (ground arith);
              known = inr (r.grows current (seen_before_self current s));
              closed = r.closed;
            }
      ]

  Clear-reach :
      (s : List ℕ) (a b : ℕ)
      → IsClosed s
      → Known s a
      → Causes heap a b
      → (e : ErrorObject) → get_elem? heap b ≡ some e
      → stop_at e ≡ value false
  Clear-reach s a b closed (inl gone) here e found = cc
  Clear-reach s a b closed (inr old) here e found = (closed a old).0 e found
  Clear-reach s a c closed (inl gone) (deeper e' found' caused r) e found = cc
  Clear-reach s a c closed (inr old) (deeper {b = m} e' found' caused r) e found =
      Clear-reach s m c closed ((closed a old).1 e' m found' caused) r e found

  -- What a walk that is not stopped has shown: every cause passes.
  chain_clear :
      (fuel start a : ℕ) (chain : List ErrorObject) (e : ErrorObject)
      → error_chain stop_at fuel heap start [] ≡ some (value (chain, false))
      → Causes heap start a
      → get_elem? heap a ≡ some e
      → stop_at e ≡ value false
  chain_clear fuel start a chain e w r found =
      let c = chain_closed fuel start [] chain w (λ b h. cc) in
      Clear-reach c.final start a c.closed c.known r e found

module _ (to_lower_case : Text → Text) (heap : Heap) where
  verdict_of : Option (Inspect (List ErrorObject × Bool)) → Option (Inspect Bool)
  verdict_of = Option.map (λ walked. walked >>= weigh_chain to_lower_case)

  replay-verdict_of :
      (w : Option (Inspect (List ErrorObject × Bool)))
      → ((chain : List ErrorObject) → w ≢ some (value (chain, false)))
      → replay (verdict_of w) ≡ false
  unfolding verdict_of weigh_chain
  replay-verdict_of none h = refl
  replay-verdict_of (some throws) h = refl
  replay-verdict_of (some (value (chain, true))) h = refl
  replay-verdict_of (some (value (chain, false))) h = absurd (h chain refl)

  classify_found :
      (error : ℕ) (e : ErrorObject)
      → get_elem? heap error ≡ some e
      → classify_retryable to_lower_case heap error
        ≡ verdict_of
            (error_chain (is_permanent_error to_lower_case) (suc (length heap)) heap error [])
  unfolding classify_retryable verdict_of
  classify_found error e found = rw (found, classify_retryable)

  classify_missing :
      (error : ℕ)
      → get_elem? heap error ≡ none
      → classify_retryable to_lower_case heap error ≡ some (value false)
  unfolding classify_retryable
  classify_missing error gone = rw (gone, classify_retryable)

  -- However deep in the chain of causes lies an error that is permanent or cannot be inspected, the
  -- failure is not retried: no transient error around it and no hostile or cyclic cause changes that.
  pub permanent_is_final :
      (error a : ℕ) (e : ErrorObject) (aborted : Bool)
      → Causes heap error a
      → get_elem? heap a ≡ some e
      → is_permanent_error to_lower_case e ≢ value false
      → is_retryable_error to_lower_case heap error aborted ≡ false
  unfolding is_retryable_error
  permanent_is_final error a e true r found permanent = refl
  permanent_is_final error a e false r found permanent =
      elim (Option-cases (get_elem? heap error)) [
        | inl gone ↦ rw (classify_missing error gone)
        | inr (start, begins) ↦ rw (classify_found error start begins) (
            replay-verdict_of _ λ chain w. permanent (
              chain_clear heap (is_permanent_error to_lower_case) (suc (length heap)) error a chain
                e w r found))
      ]

  or_else_inspect-eq-false :
      (a b : Inspect Bool) → or_else_inspect a b ≡ value false → b ≡ value false
  unfolding or_else_inspect
  or_else_inspect-eq-false throws b h = cc h
  or_else_inspect-eq-false (value true) b h = ground arith
  or_else_inspect-eq-false (value false) b h = h

  final_verdict_unclear :
      (e : ErrorObject) (d : Details)
      → e.is_manifest ≡ true
      → e.details ≡ value (some d)
      → submitted (some d) ≡ true
      → has_final_verdict to_lower_case e ≢ value false
  unfolding has_final_verdict or_else_inspect
  final_verdict_unclear e d m q s h = ground (
    arith,
    or_else_inspect-eq-false (e.error_code >>= λ c. value (code_in non_retryable_error_codes c))
        (e.details >>= λ k. value (submitted k)),
  )

  permanent_tail :
      (e : ErrorObject)
      → is_permanent_error to_lower_case e ≡ value false
      → has_final_verdict to_lower_case e ≡ value false
  unfolding is_permanent_error
  permanent_tail e h = elim (Bool-cases e.inspection_failed) [
    | inl failed ↦ ground arith
    | inr readable ↦
        let h1 = or_else_inspect-eq-false _ _ (rw (readable, is_permanent_error) at h) in
        let h2 = or_else_inspect-eq-false _ _ h1 in
        let h3 = or_else_inspect-eq-false _ _ h2 in or_else_inspect-eq-false _ _ h3
  ]

  submitted_unclear :
      (e : ErrorObject) (d : Details)
      → e.is_manifest ≡ true
      → e.details ≡ value (some d)
      → submitted (some d) ≡ true
      → is_permanent_error to_lower_case e ≢ value false
  submitted_unclear e d m q s h = final_verdict_unclear e d m q s (permanent_tail e h)

  -- An operation that was submitted, or that left a lease behind, is never replayed: if such an error
  -- is the failure or any cause of it, the failure is not retried.
  pub submitted_never_retried :
      (error a : ℕ) (e : ErrorObject) (d : Details) (aborted : Bool)
      → Causes heap error a
      → get_elem? heap a ≡ some e
      → e.is_manifest ≡ true
      → e.details ≡ value (some d)
      → (d.partial ≡ true) ⊎ (d.was_sent ≡ true)
      → is_retryable_error to_lower_case heap error aborted ≡ false
  submitted_never_retried error a e d aborted r found m q s =
      permanent_is_final error a e aborted r found (submitted_unclear e d m q (ground arith))

  verdict_of-ne-none :
      (w : Option (Inspect (List ErrorObject × Bool))) → w ≢ none → verdict_of w ≢ none
  unfolding verdict_of
  verdict_of-ne-none none h = absurd (h refl)
  verdict_of-ne-none (some walked) h = λ q. cc q

  -- The verdict is always reached: the walk over the causes ends, on cyclic causes too.
  pub classify_retryable-total : (error : ℕ) → classify_retryable to_lower_case heap error ≢ none
  classify_retryable-total error = elim (Option-cases (get_elem? heap error)) [
    | inl gone ↦ rw (classify_missing error gone) (λ q. cc q)
    | inr (start, begins) ↦ rw (classify_found error start begins) (
        verdict_of-ne-none _ (
          error_chain-total (is_permanent_error to_lower_case) (suc (length heap)) heap error [] tt
            tt (omega arith)))
  ]
