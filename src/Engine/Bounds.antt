-- ===== src/Engine/Bounds.antt =====
-- The bound on a tool's output.
use kontext.Prelude.{
  ℕ, zero, suc, ◌+◌, ◌-◌, ◌/◌, ◌≤◌, ◌≡◌, refl, inl, inr, Bool, true, false, ◌&&◌, [], Option, none,
  some, Text, text, leb, ltb, leb→le, leb→lt, le→leb, length, arith, ◌==◌, nat_eq, Bool-cases,
  if◌then◌else◌, and_true,
}
use kontext.Engine.ToolOutput.{
  Encoding, Bounded, empty_partial, fits, or_best, search_prefix, bound,
}

module _ (enc : Encoding) where
  best_fits :
      (max_bytes : ℕ) (best : Text) (e : Option Text)
      → length best ≤ max_bytes
      → length (if fits enc max_bytes e then or_best enc best e else best) ≤ max_bytes
  best_fits max_bytes best none h = h
  best_fits max_bytes best (some e) h = elim (Bool-cases (leb (length e) max_bytes)) [
    | inl b ↦ rw b (leb→le (length e) max_bytes b)
    | inr b ↦ rw b h
  ]

  if_fits :
      (max_bytes : ℕ) (b : Bool) (s t : Text)
      → length s ≤ max_bytes
      → length t ≤ max_bytes
      → length (if b then s else t) ≤ max_bytes
  if_fits max_bytes true s t hs ht = hs
  if_fits max_bytes false s t hs ht = ht

  search_prefix_fits :
      (fuel : ℕ) (value : Text) (max_bytes low high : ℕ) (best : Text)
      → length best ≤ max_bytes
      → length (search_prefix enc fuel value max_bytes low high best) ≤ max_bytes
  unfolding search_prefix
  search_prefix_fits zero value max_bytes low high best h = h
  search_prefix_fits (suc fuel) value max_bytes low high best h =
      if_fits max_bytes (leb high low) _ _ h
        (search_prefix_fits fuel value max_bytes _ _ _ (best_fits max_bytes best _ h))

  search_prefix_closed :
      (fuel : ℕ) (value : Text) (max_bytes low high : ℕ) (best : Text)
      → leb high low ≡ true
      → search_prefix enc fuel value max_bytes low high best ≡ best
  unfolding search_prefix
  search_prefix_closed zero value max_bytes low high best h = refl
  search_prefix_closed (suc fuel) value max_bytes low high best h = rw h refl

  interval_shrinks :
      (ok : Bool) (low high fuel : ℕ)
      → leb high low ≡ false
      → high ≤ low + suc fuel
      → (if ok then high else low + (high - 1 - low) / 2)
        ≤ (if ok then low + (high - 1 - low) / 2 + 1 else low) + fuel
  interval_shrinks true low high fuel b h = omega arith
  interval_shrinks false low high fuel b h = let lt = leb→lt high low b in omega arith

  -- More fuel than the length of the interval changes nothing.
  search_prefix_enough :
      (enough fuel : ℕ) (value : Text) (max_bytes low high : ℕ) (best : Text)
      → high ≤ low + enough
      → enough ≤ fuel
      → search_prefix enc fuel value max_bytes low high best
        ≡ search_prefix enc enough value max_bytes low high best
  unfolding search_prefix
  search_prefix_enough zero fuel value max_bytes low high best h e =
      search_prefix_closed fuel value max_bytes low high best (le→leb high low (omega arith))
  search_prefix_enough (suc enough) zero value max_bytes low high best h e = absurd (omega arith)
  search_prefix_enough (suc enough) (suc fuel) value max_bytes low high best h e =
      elim (Bool-cases (leb high low)) [
        | inl b ↦ rw b refl
        | inr b ↦ rw b (
            search_prefix_enough enough fuel value max_bytes _ _ _
              (interval_shrinks (fits enc max_bytes _) low high enough b h) (omega arith))
      ]

  -- Within the limit; and whole, and valid, unless it says that it is truncated.
  pub record IsBounded (value : Text) (max_bytes : ℕ) (b : Bounded) : Type 0 where
    pub short : length b.content ≤ max_bytes
    pub whole : b.truncated ≡ false → (b.content ≡ value) × (enc.is_utf8 value ≡ true)

  truncated-IsBounded :
      (value : Text) (max_bytes : ℕ) (content : Text)
      → length content ≤ max_bytes
      → IsBounded value max_bytes (record { content = content; truncated = true })
  truncated-IsBounded value max_bytes content h = record { short = h; whole = λ e. absurd (cc e) }

  if-IsBounded :
      (value : Text) (max_bytes : ℕ) (test : Bool) {yes no : Bounded}
      → (test ≡ true → IsBounded value max_bytes yes)
      → (test ≡ false → IsBounded value max_bytes no)
      → IsBounded value max_bytes (if test then yes else no)
  if-IsBounded value max_bytes true y n = y refl
  if-IsBounded value max_bytes false y n = n refl

  eq→le : (n k : ℕ) → (n == k) ≡ true → k ≤ n
  eq→le n k h = ground arith

  not_ltb : (n k : ℕ) → ltb n k ≡ false → k ≤ n
  not_ltb n k h = ground arith

  at_least_two : (n : ℕ) → (n == 0) ≡ false → (n == 1) ≡ false → 2 ≤ n
  at_least_two zero z o = absurd (cc z)
  at_least_two (suc zero) z o = absurd (cc o)
  at_least_two (suc (suc n)) z o = omega arith

  -- A bounded output has at most the given number of bytes, and is the whole, valid output unless it is
  -- marked as truncated.
  pub bound-IsBounded :
      (value : Text) (max_bytes : ℕ) → IsBounded value max_bytes (bound enc value max_bytes)
  unfolding bound
  bound-IsBounded value max_bytes =
      if-IsBounded value max_bytes (enc.is_utf8 value && leb (length value) max_bytes)
        (λ b.
          let (valid, small) = and_true _ _ b in
          record { short = leb→le (length value) max_bytes small; whole = λ e. (refl, valid) })
        (λ _.
          if-IsBounded value max_bytes (max_bytes == 0)
            (λ z. truncated-IsBounded value max_bytes [] (omega arith))
            (λ z.
              if-IsBounded value max_bytes (max_bytes == 1)
                (λ o. truncated-IsBounded value max_bytes (text "0") (eq→le max_bytes 1 o))
                (λ o.
                  if-IsBounded value max_bytes (ltb max_bytes (length empty_partial))
                    (λ t.
                      truncated-IsBounded value max_bytes (text "{}") (at_least_two max_bytes z o))
                    (λ t. truncated-IsBounded value max_bytes _ (
                      search_prefix_fits _ value max_bytes _ _ empty_partial
                        (not_ltb max_bytes 14 t))))))
