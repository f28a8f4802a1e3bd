-- ===== src/Redaction/Secrecy.antt =====
-- What a redacted value can show of a secret.
use mathlib.Core.Path.{ap₂}
use manifest_mcp_mono.Common.{
  Datum, undefined, null, string, other, array, object, Elements, no_elements, element, Members,
  no_members, member, truth, number, ℕ, suc, ◌≡◌, refl, ap, Bool, true, false, Text, Bool-cases,
  inl, inr, arith,
}
use manifest_mcp_mono.Redaction.{
  is_sensitive_key, is_denied, strip_denylist, strip_elements, strip_members, sanitize_for_logging,
  within_depth, sanitize_elements, sanitize_members,
}

module _ (to_lower_case : Text → Text) where
  -- Two values that differ only under sensitive keys, at any depth.
  mutual
    pub data SameButSecrets : Datum → Datum → Type 0 where
      same : {v : Datum} → SameButSecrets v v
      arrays : {xs ys : Elements} → SameElements xs ys → SameButSecrets (array xs) (array ys)
      objects : {ms ns : Members} → SameMembers ms ns → SameButSecrets (object ms) (object ns)

    pub data SameElements : Elements → Elements → Type 0 where
      none_left : SameElements no_elements no_elements
      both :
          {v w : Datum} {xs ys : Elements}
          → SameButSecrets v w
          → SameElements xs ys
          → SameElements (element v xs) (element w ys)

    pub data SameMembers : Members → Members → Type 0 where
      none_kept : SameMembers no_members no_members
      shown :
          {k : Text} {v w : Datum} {ms ns : Members}
          → SameButSecrets v w
          → SameMembers ms ns
          → SameMembers (member k v ms) (member k w ns)
      secret :
          {k : Text} {v w : Datum} {ms ns : Members}
          → is_sensitive_key to_lower_case k ≡ true
          → SameMembers ms ns
          → SameMembers (member k v ms) (member k w ns)

  mutual
    unfolding strip_denylist

    pub strip-same :
        {v w : Datum}
        → SameButSecrets v w
        → strip_denylist to_lower_case v ≡ strip_denylist to_lower_case w
    strip-same same = refl
    strip-same (arrays all) = ap array (strip_elements-same all)
    strip-same (objects all) = ap object (strip_members-same all)

    strip_elements-same :
        {xs ys : Elements}
        → SameElements xs ys
        → strip_elements to_lower_case xs ≡ strip_elements to_lower_case ys
    strip_elements-same none_left = refl
    strip_elements-same (both head rest) = ap₂ element (strip-same head) (strip_elements-same rest)

    strip_members-same :
        {ms ns : Members}
        → SameMembers ms ns
        → strip_members to_lower_case ms ≡ strip_members to_lower_case ns
    strip_members-same none_kept = refl
    strip_members-same (shown head rest) = rw (strip-same head, strip_members-same rest) refl
    strip_members-same (secret {k = k} hidden rest) =
        ground (arith, hidden, strip_members-same rest)

  module _ (is_format : ℕ → Bool) where
    mutual
      unfolding sanitize_for_logging

      sanitize-same :
          {v w : Datum} (d : ℕ)
          → SameButSecrets v w
          → sanitize_for_logging to_lower_case is_format d v
            ≡ sanitize_for_logging to_lower_case is_format d w
      sanitize-same d same = refl
      sanitize-same d (arrays all) =
          ap (λ xs. within_depth d (array xs)) (sanitize_elements-same (suc d) all)
      sanitize-same d (objects all) =
          ap (λ ms. within_depth d (object ms)) (sanitize_members-same (suc d) all)

      sanitize_elements-same :
          {xs ys : Elements} (d : ℕ)
          → SameElements xs ys
          → sanitize_elements to_lower_case is_format d xs
            ≡ sanitize_elements to_lower_case is_format d ys
      sanitize_elements-same d none_left = refl
      sanitize_elements-same d (both head rest) =
          ap₂ element (sanitize-same d head) (sanitize_elements-same d rest)

      sanitize_members-same :
          {ms ns : Members} (d : ℕ)
          → SameMembers ms ns
          → sanitize_members to_lower_case is_format d ms
            ≡ sanitize_members to_lower_case is_format d ns
      sanitize_members-same d none_kept = refl
      sanitize_members-same d (shown head rest) =
          rw (sanitize-same d head, sanitize_members-same d rest) refl
      sanitize_members-same d (secret {k = k} hidden rest) =
          rw (hidden, sanitize_members-same d rest) refl

    -- Nothing of a secret shows: two values that differ only under sensitive keys, at any depth, are
    -- logged as the same value, and are the same value for a callback once stripped.
    pub secrets_are_hidden :
        (d : ℕ) (v w : Datum)
        → SameButSecrets v w
        → (sanitize_for_logging to_lower_case is_format d v
            ≡ sanitize_for_logging to_lower_case is_format d w)
          × (strip_denylist to_lower_case v ≡ strip_denylist to_lower_case w)
    secrets_are_hidden d v w same_shown = (sanitize-same d same_shown, strip-same same_shown)

  -- No key of a value, at any depth, is one that stripDenylist drops.
  mutual
    pub data IsClean : Datum → Type 0 where
      undefined_clean : IsClean undefined
      null_clean : IsClean null
      string_clean : {t : Text} → IsClean (string t)
      other_clean : {n : ℕ} → IsClean (other n)
      truth_clean : {b : Bool} → IsClean (truth b)
      number_clean : {n : ℕ} → IsClean (number n)
      array_clean : {xs : Elements} → AllClean xs → IsClean (array xs)
      object_clean : {ms : Members} → KeysClean ms → IsClean (object ms)

    pub data AllClean : Elements → Type 0 where
      no_more : AllClean no_elements
      one_more : {v : Datum} {xs : Elements} → IsClean v → AllClean xs → AllClean (element v xs)

    pub data KeysClean : Members → Type 0 where
      no_keys : KeysClean no_members
      one_key :
          {k : Text} {v : Datum} {ms : Members}
          → is_denied to_lower_case k ≡ false
          → IsClean v
          → KeysClean ms
          → KeysClean (member k v ms)

  mutual
    unfolding strip_denylist

    pub strip-IsClean : (v : Datum) → IsClean (strip_denylist to_lower_case v)
    strip-IsClean undefined = undefined_clean
    strip-IsClean null = null_clean
    strip-IsClean (string t) = string_clean
    strip-IsClean (other n) = other_clean
    strip-IsClean (truth b) = truth_clean
    strip-IsClean (number n) = number_clean
    strip-IsClean (array xs) = array_clean (strip_elements-AllClean xs)
    strip-IsClean (object ms) = object_clean (strip_members-KeysClean ms)

    strip_elements-AllClean : (xs : Elements) → AllClean (strip_elements to_lower_case xs)
    strip_elements-AllClean no_elements = no_more
    strip_elements-AllClean (element v xs) = one_more (strip-IsClean v) (strip_elements-AllClean xs)

    strip_members-KeysClean : (ms : Members) → KeysClean (strip_members to_lower_case ms)
    strip_members-KeysClean no_members = no_keys
    strip_members-KeysClean (member k v ms) = keep (strip-IsClean v) (strip_members-KeysClean ms)
      where
        keep :
            IsClean (strip_denylist to_lower_case v)
            → KeysClean (strip_members to_lower_case ms)
            → KeysClean (strip_members to_lower_case (member k v ms))
        keep inner rest = elim (Bool-cases (is_denied to_lower_case k)) [
          | inl denied ↦ rw denied rest
          | inr allowed ↦ rw allowed (one_key allowed inner rest)
        ]

  mutual
    unfolding strip_denylist

    clean-strip : {v : Datum} → IsClean v → strip_denylist to_lower_case v ≡ v
    clean-strip undefined_clean = refl
    clean-strip null_clean = refl
    clean-strip string_clean = refl
    clean-strip other_clean = refl
    clean-strip truth_clean = refl
    clean-strip number_clean = refl
    clean-strip (array_clean all) = ap array (clean-strip_elements all)
    clean-strip (object_clean all) = ap object (clean-strip_members all)

    clean-strip_elements : {xs : Elements} → AllClean xs → strip_elements to_lower_case xs ≡ xs
    clean-strip_elements no_more = refl
    clean-strip_elements (one_more head rest) =
        ap₂ element (clean-strip head) (clean-strip_elements rest)

    clean-strip_members : {ms : Members} → KeysClean ms → strip_members to_lower_case ms ≡ ms
    clean-strip_members no_keys = refl
    clean-strip_members (one_key allowed head rest) =
        rw (allowed, clean-strip head, clean-strip_members rest) refl

  -- Stripping leaves no denied key at any depth, and changes nothing of a value that has none.
  pub strip_denylist_lem :
      (v : Datum)
      → IsClean (strip_denylist to_lower_case v) × (IsClean v → strip_denylist to_lower_case v ≡ v)
  strip_denylist_lem v = (strip-IsClean v, λ clean. clean-strip clean)
