-- ===== src/Retry/Chain.antt =====
-- packages/core/src/internals/error-chain.ts: the causes of an error, without cycles. The source's
-- `seen` set is the list of addresses walked so far; the fuel that suffices is `error_chain-total`.
use manifest_mcp_mono.Common.{
  ℕ, zero, suc, ◌+◌, ◌≤◌, ◌<◌, ◌≡◌, ◌≢◌, ◌⊎◌, inl, inr, refl, Bool, true, false, List, [], ◌∷◌,
  Option, none, some, ◌==◌, get_elem?, any, length, arith, Option-cases, Bool-cases, if◌then◌else◌,
}
use manifest_mcp_mono.Retry.{Inspect, Inspect-cases, value, throws, ErrorObject, Heap}

abbrev pub seen_before : ℕ → List ℕ → Bool
seen_before a seen = any (λ b. a == b) seen

abbrev pub extend :
    ErrorObject
    → Option (Inspect (List ErrorObject × Bool))
    → Option (Inspect (List ErrorObject × Bool))
extend e none = none
extend e (some throws) = some throws
extend e (some (value (chain, stopped))) = some (value (e ∷ chain, stopped))

-- The chain from `current`, and whether `stop_at` ended it; none where the fuel ran out. The error
-- that `stop_at` accepts is the last of the chain, and its cause is not read.
unfoldable pub error_chain :
    (ErrorObject → Inspect Bool)
    → ℕ
    → Heap
    → ℕ
    → List ℕ
    → Option (Inspect (List ErrorObject × Bool))
error_chain stop_at zero heap current seen = none
error_chain stop_at (suc fuel) heap current seen = elim (get_elem? heap current) [
  | none ↦ some (value ([], false))
  | some e ↦ elim (seen_before current seen) [
    | true ↦ some (value ([], false))
    | false ↦ elim (stop_at e) [
      | throws ↦ some throws
      | value true ↦ some (value (e ∷ [], true))
      | value false ↦ elim e.cause [
        | throws ↦ some throws
        | value next ↦ extend e (error_chain stop_at fuel heap next (current ∷ seen))
      ]
    ]
  ]
]

-- A list of distinct numbers below n has at most n entries.
abbrev Distinct : List ℕ → Type 0
Distinct [] = Unit
Distinct (x ∷ xs) = (seen_before x xs ≡ false) × Distinct xs

abbrev Bounded : ℕ → List ℕ → Type 0
Bounded n [] = Unit
Bounded n (x ∷ xs) = (x < n) × Bounded n xs

drop_value : ℕ → List ℕ → List ℕ
drop_value n [] = []
drop_value n (x ∷ xs) = if n == x then xs else x ∷ drop_value n xs

seen-drop_value :
    (n a : ℕ) (xs : List ℕ) → seen_before a xs ≡ false → seen_before a (drop_value n xs) ≡ false
unfolding drop_value
seen-drop_value n a [] h = refl
seen-drop_value n a (x ∷ xs) h = ground (arith, seen-drop_value n a xs)

Distinct-drop_value : (n : ℕ) (xs : List ℕ) → Distinct xs → Distinct (drop_value n xs)
unfolding drop_value
Distinct-drop_value n [] d = tt
Distinct-drop_value n (x ∷ xs) d =
    ground (arith, seen-drop_value n x xs d.0, Distinct-drop_value n xs d.1)

-- Without the value n itself, the entries are below n.
Bounded-fresh : (n : ℕ) (xs : List ℕ) → Bounded (suc n) xs → seen_before n xs ≡ false → Bounded n xs
Bounded-fresh n [] b f = tt
Bounded-fresh n (x ∷ xs) b f = ground (arith, Bounded-fresh n xs b.1)

Bounded-drop_value :
    (n : ℕ) (xs : List ℕ) → Bounded (suc n) xs → Distinct xs → Bounded n (drop_value n xs)
unfolding drop_value
Bounded-drop_value n [] b d = tt
Bounded-drop_value n (x ∷ xs) b d =
    ground (arith, Bounded-drop_value n xs b.1 d.1, Bounded-fresh n xs b.1)

length-drop_value : (n : ℕ) (xs : List ℕ) → length xs ≤ suc (length (drop_value n xs))
unfolding drop_value
length-drop_value n [] = omega arith
length-drop_value n (x ∷ xs) = ground (arith, length-drop_value n xs)

length-le_of_Distinct : (n : ℕ) (xs : List ℕ) → Distinct xs → Bounded n xs → length xs ≤ n
length-le_of_Distinct zero [] d b = omega arith
length-le_of_Distinct zero (x ∷ xs) d b = absurd (omega arith)
length-le_of_Distinct (suc n) xs d b = omega (
  arith,
  length-drop_value n xs,
  length-le_of_Distinct n (drop_value n xs) (Distinct-drop_value n xs d)
      (Bounded-drop_value n xs b d),
)

get_elem?-lt : (heap : Heap) (a : ℕ) (e : ErrorObject) → get_elem? heap a ≡ some e → a < length heap
get_elem?-lt [] a e h = cc
get_elem?-lt (x ∷ heap) zero e h = omega arith
get_elem?-lt (x ∷ heap) (suc a) e h = omega (arith, get_elem?-lt heap a e h)

-- One round of the loop: it ends with no verdict, throws, stops, or goes on with the cause.
pub error_chain_cases :
    (stop_at : ErrorObject → Inspect Bool) (fuel : ℕ) (heap : Heap) (current : ℕ) (seen : List ℕ)
    → let walked = error_chain stop_at (suc fuel) heap current seen in
      ((walked ≡ some (value ([], false)))
        × ((get_elem? heap current ≡ none) ⊎ (seen_before current seen ≡ true)))
      ⊎ (walked ≡ some throws)
      ⊎ ((e : ErrorObject) × (walked ≡ some (value (e ∷ [], true))))
      ⊎ ((e : ErrorObject) × (next : ℕ) × (get_elem? heap current ≡ some e)
          × (seen_before current seen ≡ false)
          × (stop_at e ≡ value false)
          × (e.cause ≡ value next)
          × (walked ≡ extend e (error_chain stop_at fuel heap next (current ∷ seen))))
unfolding error_chain
error_chain_cases stop_at fuel heap current seen = elim (Option-cases (get_elem? heap current)) [
  | inl gone ↦ inl (rw (gone, error_chain), inl gone)
  | inr (e, found) ↦ elim (Bool-cases (seen_before current seen)) [
    | inl old ↦ inl (rw (found, error_chain, old), inr old)
    | inr fresh ↦ elim (Inspect-cases (stop_at e)) [
      | inl hostile ↦ inr (inl (rw (found, error_chain, fresh, hostile)))
      | inr (true, stops) ↦ inr (inr (inl (e, rw (found, error_chain, fresh, stops))))
      | inr (false, goes) ↦ elim (Inspect-cases e.cause) [
        | inl hostile ↦ inr (inl (rw (found, error_chain, fresh, goes, hostile)))
        | inr (next, caused) ↦ inr (inr (inr (e, next, found, fresh, goes, caused, ground arith)))
      ]
    ]
  ]
]

extend-ne-none :
    (e : ErrorObject) (w : Option (Inspect (List ErrorObject × Bool)))
    → w ≢ none
    → extend e w ≢ none
extend-ne-none e none h = absurd (h refl)
extend-ne-none e (some throws) h = λ q. cc q
extend-ne-none e (some (value (chain, stopped))) h = λ q. cc q

-- The loop ends: with one round more than there are errors left to see, the fuel does not run out.
pub error_chain-total :
    (stop_at : ErrorObject → Inspect Bool) (fuel : ℕ) (heap : Heap) (current : ℕ) (seen : List ℕ)
    → Distinct seen
    → Bounded (length heap) seen
    → length heap < fuel + length seen
    → error_chain stop_at fuel heap current seen ≢ none
error_chain-total stop_at zero heap current seen d b f h =
    omega (arith, length-le_of_Distinct (length heap) seen d b)
error_chain-total stop_at (suc fuel) heap current seen d b f h =
    elim (error_chain_cases stop_at fuel heap current seen) [
      | inl (ended, _) ↦ cc
      | inr (inl thrown) ↦ cc
      | inr (inr (inl (e, stopped))) ↦ cc
      | inr (inr (inr (e, next, found, fresh, goes, caused, walked))) ↦
          extend-ne-none e (error_chain stop_at fuel heap next (current ∷ seen))
            (error_chain-total stop_at fuel heap next (current ∷ seen) (fresh, d)
              (get_elem?-lt heap current e found, b) (omega arith))
            (cc)
    ]
